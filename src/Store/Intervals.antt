-- ===== src/Store/Intervals.antt =====
-- The statements of internal/store/store.go that insert a row or change a port's interval keep the
-- database well-formed.
use nfuse.Base.{
  ℕ, suc, ◌≤◌, ◌<◌, ◌^◌, ◌≡◌, refl, true, false, not, ◌&&◌, none, some, List, [], ◌∷◌, ◌==◌, any,
  update_where, All, All-mono, All-update_where, update_where_none, arith, Result, ok, err, inl,
  inr, Bool-cases,
}
use nfuse.Base.Int.{ℤ}
use nfuse.Base.Text.{text_eq}
use nfuse.Base.Sort.{Ascending}
use nfuse.Model.{Account, Port, Error, valid_range, overlaps}
use nfuse.Model.Validation.{AccountIsAccepted, Apart, Apart-sym, Disjoint}
use nfuse.Store.{Db, Fault, new_row, create_account, create_port, edit_port}
use nfuse.Store.Rows.{DbIsValid, port_ids}
use nfuse.Store.Keeps.{Keeps, insert-DbIsValid, insert_port-DbIsValid}
use nfuse.Store.Changes.{update_port-DbIsValid}

-- No other port than those with the id overlaps the new interval.
abbrev ClearFor : Port → List Port → Type 0
ClearFor np = All (λ q. (not (q.id == np.id) && overlaps q np) ≡ false)

Apart-edit :
    (np p : Port) (ports : List Port)
    → Apart p np
    → All (Apart p) ports
    → All
        (Apart p)
        (update_where (λ q. q.id == np.id) (λ q. record q { start = np.start; end = np.end }) ports)
unfolding overlaps
Apart-edit np p ports clear h =
    All-update_where (λ q. q.id == np.id) (Apart p)
      (λ q. record q { start = np.start; end = np.end }) ports (λ q a e. clear) h

-- Ports under other ids are not changed.
edit_others :
    (np : Port) (low : ℕ) (ports : List Port) (high : ℕ)
    → np.id ≤ low
    → Ascending low (port_ids ports) high
    → any (λ (q : Port). q.id == np.id) ports ≡ false
edit_others np low [] high h a = refl
edit_others np low (p ∷ ports) high h a = ground (arith, edit_others np p.id ports high)

ClearFor-Apart :
    (np p : Port) (low : ℕ) (ports : List Port) (high : ℕ)
    → np.id ≤ low
    → Ascending low (port_ids ports) high
    → ClearFor np ports
    → All (λ q. Apart q np) ports
ClearFor-Apart np p low [] high h a c = tt
ClearFor-Apart np p low (q ∷ ports) high h a c =
    (ground arith, ClearFor-Apart np p q.id ports high (omega arith) a.1 c.1)

Disjoint-edit :
    (np : Port) (low : ℕ) (ports : List Port) (high : ℕ)
    → Ascending low (port_ids ports) high
    → ClearFor np ports
    → Disjoint ports
    → Disjoint (
        update_where
          (λ (q : Port). q.id == np.id)
          (λ q. record q { start = np.start; end = np.end })
          ports)
unfolding overlaps
Disjoint-edit np low [] high a c d = tt
Disjoint-edit np low (p ∷ ports) high a c d = elim (Bool-cases (p.id == np.id)) [
  | inl same ↦
      rw
        (
          same,
          update_where_none (λ (q : Port). q.id == np.id)
              (λ q. record q { start = np.start; end = np.end }) ports
              (edit_others np p.id ports high (ground arith) a.1),
        )
        (
          All-mono (λ q h. Apart-sym q np h) ports
              (ClearFor-Apart np p p.id ports high (ground arith) a.1 c.1),
          d.1,
        )
  | inr other ↦
      rw other
        (Apart-edit np p ports (ground arith) d.0, Disjoint-edit np p.id ports high a.1 c.1 d.1)
]

pub edit_port-Keeps :
    (fault : Fault) (np : Port) (db : Db)
    → valid_range np ≡ true
    → np.end < 2 ^ 16
    → ClearFor np db.ports
    → DbIsValid db
    → Keeps (edit_port fault np.id np.start np.end db)
unfolding edit_port valid_range
edit_port-Keeps (some e) np db range small clear v = tt
edit_port-Keeps none np db range small clear v =
    update_port-DbIsValid np.id (λ p. record p { start = np.start; end = np.end }) db (λ p. refl)
      (λ p r e. (r.0, range, small))
      (Disjoint-edit np 0 db.ports db.last_port v.ports_ascend clear v.disjoint) v

-- A port that overlaps none is inserted, under its account.
abbrev pub KeepsId : Result Error (ℕ × Db) → Type 0
KeepsId (ok (id, db)) = DbIsValid db
KeepsId (err e) = Unit {0}

pub create_port-Keeps :
    (fault : Fault) (np : Port) (db : Db)
    → valid_range np ≡ true
    → np.end < 2 ^ 16
    → All (λ q. Apart q np) db.ports
    → DbIsValid db
    → KeepsId (create_port fault np db)
unfolding create_port valid_range overlaps
create_port-Keeps (some e) np db range small clear v = tt
create_port-Keeps none np db range small clear v =
    elim (Bool-cases (any (λ (a : Account). a.id == np.account_id) db.accounts)) [
      | inl known ↦ rw known (
          insert_port-DbIsValid (record np { id = suc db.last_port }) _ db refl
            (known, range, small) clear v)
      | inr unknown ↦ rw unknown tt
    ]

pub create_account-Keeps :
    (fault : Fault) (now : ℤ) (a : Account) (db : Db)
    → AccountIsAccepted a
    → DbIsValid db
    → KeepsId (create_account fault now a db)
unfolding create_account
create_account-Keeps (some e) now a db h v = tt
create_account-Keeps none now a db h v =
    elim (Bool-cases (any (λ (b : Account). text_eq b.name a.name) db.accounts)) [
      | inl taken ↦ rw taken tt
      | inr new ↦ rw new (insert-DbIsValid (new_row (suc db.last_account) now a) db refl h v)
    ]
