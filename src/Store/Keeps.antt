-- ===== src/Store/Keeps.antt =====
-- Every statement of internal/store/store.go keeps the database well-formed, given what the engine
-- tests before it.
use mathlib.Core.List.{map-append}
use nfuse.Base.{
  ℕ, suc, ◌≡◌, refl, sym, ap, ◌∙◌, Bool, false, not, none, some, List, [], ◌∷◌, ◌++◌, ◌==◌, any,
  any-map, any-append, keep, update_where, All, All-mono, All-append, All-keep, All-update_where,
  map-update_where, arith, inl, inr, Bool-cases, or-true_left, not-true, Result, ok, err,
}
use nfuse.Base.Sort.{Ascending-snoc, Ascending-keep}
use nfuse.Model.{Account, Port, Counter, Error}
use nfuse.Model.Validation.{AccountIsAccepted, Apart, Disjoint}
use nfuse.Store.{Db, Fault, update_account, delete_account, delete_port}
use nfuse.Store.Rows.{DbIsValid, RowIsValid, account_ids, port_ids}

-- A statement that succeeds leaves a well-formed database.
abbrev pub Keeps : Result Error Db → Type 0
Keeps (ok db) = DbIsValid db
Keeps (err e) = Unit {0}

-- An update of accounts that keeps the ids and leaves valid rows.
pub update_account-DbIsValid :
    (id : ℕ) (f : Account → Account) (db : Db)
    → ((a : Account) → (f a).id ≡ a.id)
    → ((a : Account) → AccountIsAccepted a → AccountIsAccepted (f a))
    → DbIsValid db
    → DbIsValid (update_account id f db)
unfolding update_account
update_account-DbIsValid id f db same step v = record {
  accounts_ascend = rw (ids) v.accounts_ascend;
  ports_ascend = v.ports_ascend;
  accounts_valid =
      All-update_where (λ a. a.id == id) AccountIsAccepted f db.accounts (λ a h e. step a h)
        v.accounts_valid;
  ports_valid = All-mono (λ p h. (known p.account_id ∙ h.0, h.1, h.2)) db.ports v.ports_valid;
  disjoint = v.disjoint;
}
  where
    ids : account_ids (update_where (λ a. a.id == id) f db.accounts) ≡ account_ids db.accounts
    ids = map-update_where (λ a. a.id == id) (λ a. a.id) f db.accounts same

    known :
        (k : ℕ)
        → any (λ a. a.id == k) (update_where (λ a. a.id == id) f db.accounts)
          ≡ any (λ a. a.id == k) db.accounts
    known k =
        sym (
          any-map (λ (a : Account). a.id) (λ x. x == k)
            (update_where (λ a. a.id == id) f db.accounts))
        ∙ ap (any (λ x. x == k)) ids
        ∙ any-map (λ (a : Account). a.id) (λ x. x == k) db.accounts

-- A row under the next id joins the accounts.
pub insert-DbIsValid :
    (a : Account) (db : Db)
    → a.id ≡ suc db.last_account
    → AccountIsAccepted a
    → DbIsValid db
    → DbIsValid (record db { accounts = db.accounts ++ a ∷ []; last_account = suc db.last_account })
insert-DbIsValid a db e h v = record {
  accounts_ascend =
      rw (map-append (λ (b : Account). b.id) db.accounts (a ∷ []), e)
        (Ascending-snoc 0 (account_ids db.accounts) db.last_account v.accounts_ascend);
  ports_ascend = v.ports_ascend;
  accounts_valid = All-append AccountIsAccepted db.accounts (a ∷ []) v.accounts_valid (h, tt);
  ports_valid =
      All-mono
        (λ p r. (
          any-append (λ (b : Account). b.id == p.account_id) db.accounts (a ∷ [])
              ∙ or-true_left _ _ r.0,
          r.1,
          r.2,
        ))
        db.ports v.ports_valid;
  disjoint = v.disjoint;
}

any-keep :
    (k id : ℕ) (accounts : List Account)
    → (k == id) ≡ false
    → any (λ a. a.id == k) (keep (λ a. not (a.id == id)) accounts) ≡ any (λ a. a.id == k) accounts
any-keep k id [] e = refl
any-keep k id (a ∷ accounts) e = ground (arith, any-keep k id accounts e)

Apart-keep :
    (p : Port) (test : Port → Bool) (ports : List Port)
    → All (Apart p) ports
    → All (Apart p) (keep test ports)
Apart-keep p test ports h =
    All-mono (λ q k. k.0) (keep test ports) (All-keep (Apart p) test ports h)

Disjoint-keep :
    (test : Port → Bool) (ports : List Port) → Disjoint ports → Disjoint (keep test ports)
Disjoint-keep test [] d = tt
Disjoint-keep test (p ∷ ports) d = elim (Bool-cases (test p)) [
  | inl e ↦ rw e (Apart-keep p test ports d.0, Disjoint-keep test ports d.1)
  | inr e ↦ rw e (Disjoint-keep test ports d.1)
]

pub delete_account-Keeps :
    (fault : Fault) (id : ℕ) (db : Db) → DbIsValid db → Keeps (delete_account fault id db)
unfolding delete_account
delete_account-Keeps (some e) id db v = tt
delete_account-Keeps none id db v = record {
  accounts_ascend =
      Ascending-keep (λ a. a.id) (λ a. not (a.id == id)) 0 db.accounts db.last_account
        v.accounts_ascend;
  ports_ascend =
      Ascending-keep (λ p. p.id) (λ p. not (p.account_id == id)) 0 db.ports db.last_port
        v.ports_ascend;
  accounts_valid =
      All-mono (λ a h. h.0) (keep (λ a. not (a.id == id)) db.accounts)
        (All-keep AccountIsAccepted (λ a. not (a.id == id)) db.accounts v.accounts_valid);
  ports_valid =
      All-mono
        (λ p h. (any-keep p.account_id id db.accounts (not-true _ h.1) ∙ h.0.0, h.0.1, h.0.2))
        (keep (λ p. not (p.account_id == id)) db.ports)
        (All-keep (RowIsValid db.accounts) (λ p. not (p.account_id == id)) db.ports v.ports_valid);
  disjoint = Disjoint-keep (λ p. not (p.account_id == id)) db.ports v.disjoint;
}

pub delete_port-Keeps :
    (fault : Fault) (id : ℕ) (db : Db) → DbIsValid db → Keeps (delete_port fault id db)
unfolding delete_port
delete_port-Keeps (some e) id db v = tt
delete_port-Keeps none id db v = record {
  accounts_ascend = v.accounts_ascend;
  ports_ascend =
      Ascending-keep (λ p. p.id) (λ p. not (p.id == id)) 0 db.ports db.last_port v.ports_ascend;
  accounts_valid = v.accounts_valid;
  ports_valid =
      All-mono (λ p h. h.0) (keep (λ p. not (p.id == id)) db.ports)
        (All-keep (RowIsValid db.accounts) (λ p. not (p.id == id)) db.ports v.ports_valid);
  disjoint = Disjoint-keep (λ p. not (p.id == id)) db.ports v.disjoint;
}

Disjoint-snoc :
    (p : Port) (ports : List Port)
    → All (λ q. Apart q p) ports
    → Disjoint ports
    → Disjoint (ports ++ p ∷ [])
Disjoint-snoc p [] h d = (tt, tt)
Disjoint-snoc p (q ∷ ports) h d =
    (All-append (Apart q) ports (p ∷ []) d.0 (h.0, tt), Disjoint-snoc p ports h.1 d.1)

-- A port under the next id joins the ports.
pub insert_port-DbIsValid :
    (p : Port) (counters : List Counter) (db : Db)
    → p.id ≡ suc db.last_port
    → RowIsValid db.accounts p
    → All (λ q. Apart q p) db.ports
    → DbIsValid db
    → DbIsValid (record db {
      ports = db.ports ++ p ∷ [];
      last_port = suc db.last_port;
      counters = counters;
    })
insert_port-DbIsValid p counters db e h apart v = record {
  accounts_ascend = v.accounts_ascend;
  ports_ascend =
      rw (map-append (λ (b : Port). b.id) db.ports (p ∷ []), e)
        (Ascending-snoc 0 (port_ids db.ports) db.last_port v.ports_ascend);
  accounts_valid = v.accounts_valid;
  ports_valid = All-append (RowIsValid db.accounts) db.ports (p ∷ []) v.ports_valid (h, tt);
  disjoint = Disjoint-snoc p db.ports apart v.disjoint;
}
