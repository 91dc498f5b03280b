-- ===== src/Store/Rows.antt =====
-- The well-formed databases of internal/store/store.go: what Load reads from one, Validate accepts.
use nfuse.Base.{
  ℕ, ◌<◌, ◌^◌, ◌≡◌, refl, ap, true, none, List, [], ◌∷◌, map, ◌==◌, any, All, All-mono, arith, leb,
  inl, inr, Bool-cases,
}
use nfuse.Base.Sort.{sort_by, insert_by, Ascending, All-insert_by, All-sort_by, sort_by-Ascending}
use nfuse.Model.{Account, Port, valid_range, validate}
use nfuse.Model.Validation.{
  AccountIsAccepted, PortIsAccepted, Apart, Apart-sym, Disjoint, validate_accepts_iff,
}
use nfuse.Store.{Db, scan_port, load_rows}

abbrev HasAccount : List Account → ℕ → Type 0
HasAccount accounts id = any (λ a. a.id == id) accounts ≡ true

abbrev pub RowIsValid : List Account → Port → Type 0
RowIsValid accounts p = HasAccount accounts p.account_id × (valid_range p ≡ true) × (p.end < 2 ^ 16)

abbrev pub account_ids : List Account → List ℕ
account_ids = map λ a. a.id

abbrev pub port_ids : List Port → List ℕ
port_ids = map λ p. p.id

-- Ids ascend up to the last one given, accounts and ports are valid, each port has its account, and
-- no two ports overlap.
pub record DbIsValid (db : Db) : Type 0 where
  pub accounts_ascend : Ascending 0 (account_ids db.accounts) db.last_account
  pub ports_ascend : Ascending 0 (port_ids db.ports) db.last_port
  pub accounts_valid : All AccountIsAccepted db.accounts
  pub ports_valid : All (RowIsValid db.accounts) db.ports
  pub disjoint : Disjoint db.ports

scan_port_lem : (p : Port) → valid_range p ≡ true → p.end < 2 ^ 16 → scan_port p ≡ p
unfolding scan_port valid_range
scan_port_lem p h k = ground arith

map-scan_port :
    (accounts : List Account) (ports : List Port)
    → All (RowIsValid accounts) ports
    → map scan_port ports ≡ ports
map-scan_port accounts [] h = refl
map-scan_port accounts (p ∷ ports) h =
    cc (scan_port_lem p h.0.1 h.0.2, map-scan_port accounts ports h.1)

Disjoint-insert_by :
    (key : Port → ℕ) (p : Port) (ports : List Port)
    → All (Apart p) ports
    → Disjoint ports
    → Disjoint (insert_by key p ports)
unfolding insert_by
Disjoint-insert_by key p [] h d = (tt, tt)
Disjoint-insert_by key p (q ∷ ports) h d = elim (Bool-cases (leb (key p) (key q))) [
  | inl e ↦ rw e (h, d)
  | inr e ↦ rw e (
    (All-insert_by key (Apart q) p ports).1 (Apart-sym p q h.0, d.0),
    Disjoint-insert_by key p ports h.1 d.1,
  )
]

Disjoint-sort_by :
    (key : Port → ℕ) (ports : List Port) → Disjoint ports → Disjoint (sort_by key ports)
unfolding sort_by
Disjoint-sort_by key [] d = tt
Disjoint-sort_by key (p ∷ ports) d =
    Disjoint-insert_by key p (sort_by key ports) ((All-sort_by key (Apart p) ports).1 d.0)
      (Disjoint-sort_by key ports d.1)

-- What Load reads from a well-formed database.
pub accounts-load_rows : (db : Db) → DbIsValid db → (load_rows db).accounts ≡ db.accounts
unfolding load_rows
accounts-load_rows db v =
    sort_by-Ascending (λ a. a.id) 0 db.accounts db.last_account v.accounts_ascend

pub ports-load_rows :
    (db : Db) → DbIsValid db → (load_rows db).ports ≡ sort_by (λ p. p.start) db.ports
unfolding load_rows
ports-load_rows db v =
    ap (sort_by (λ p. p.start)) (map-scan_port db.accounts db.ports v.ports_valid)

pub validate-load_rows : (db : Db) → DbIsValid db → validate (load_rows db) ≡ none
validate-load_rows db v = (validate_accepts_iff (load_rows db)).1 (record {
  accounts_valid = rw (accounts-load_rows db v) v.accounts_valid;
  ports_valid =
      rw (accounts-load_rows db v, ports-load_rows db v)
        ((All-sort_by (λ p. p.start) (PortIsAccepted db.accounts) db.ports).1
          (All-mono (λ p h. (h.0, h.1)) db.ports v.ports_valid));
  disjoint = rw (ports-load_rows db v) (Disjoint-sort_by (λ p. p.start) db.ports v.disjoint);
})
