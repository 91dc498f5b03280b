-- ===== src/Store/Changes.antt =====
-- The statements of internal/store/store.go that change rows in place keep the database well-formed.
use nfuse.Base.{
  ℕ, ◌≡◌, refl, true, false, ◌&&◌, none, some, List, [], ◌∷◌, ◌==◌, any, update_where, All,
  All-update_where, map-update_where, update_where_none, and-false_right, inl, inr, Bool-cases,
}
use nfuse.Base.Int.{ℤ}
use nfuse.Base.Map.{Map}
use nfuse.Base.Text.{Text}
use nfuse.Base.Float64.{Float64, le_zero}
use nfuse.Model.{Account, Port, Counter, CounterKey, Tier, valid, has_quota, valid_range, overlaps}
use nfuse.Model.Validation.{Apart, Disjoint}
use nfuse.Store.{
  Db, Fault, update_account, set_token, set_tier, set_expiry, set_usage, mark_reset,
  set_master_token, update_port, move_port, persist_accounts, persist_usage,
}
use nfuse.Store.Rows.{DbIsValid, RowIsValid}
use nfuse.Store.Keeps.{Keeps, update_account-DbIsValid}

pub set_token-Keeps :
    (fault : Fault) (id : ℕ) (token : Text) (db : Db)
    → DbIsValid db
    → Keeps (set_token fault id token db)
unfolding set_token
set_token-Keeps (some e) id token db v = tt
set_token-Keeps none id token db v = update_account-DbIsValid id _ db (λ a. refl) (λ a h. h) v

pub set_tier-Keeps :
    (fault : Fault) (id : ℕ) (tier : Tier) (limit : Float64) (anchor : ℤ) (db : Db)
    → valid tier ≡ true
    → (has_quota tier && le_zero limit) ≡ false
    → DbIsValid db
    → Keeps (set_tier fault id tier limit anchor db)
unfolding set_tier
set_tier-Keeps (some e) id tier limit anchor db h k v = tt
set_tier-Keeps none id tier limit anchor db h k v =
    update_account-DbIsValid id _ db (λ a. refl) (λ a _. (h, k)) v

pub set_expiry-Keeps :
    (fault : Fault) (id : ℕ) (expires : ℤ) (db : Db)
    → DbIsValid db
    → Keeps (set_expiry fault id expires db)
unfolding set_expiry
set_expiry-Keeps (some e) id expires db v = tt
set_expiry-Keeps none id expires db v = update_account-DbIsValid id _ db (λ a. refl) (λ a h. h) v

pub set_usage-Keeps :
    (fault : Fault) (id used : ℕ) (db : Db) → DbIsValid db → Keeps (set_usage fault id used db)
unfolding set_usage
set_usage-Keeps (some e) id used db v = tt
set_usage-Keeps none id used db v = update_account-DbIsValid id _ db (λ a. refl) (λ a h. h) v

pub mark_reset-Keeps :
    (fault : Fault) (id : ℕ) (now : ℤ) (db : Db) → DbIsValid db → Keeps (mark_reset fault id now db)
unfolding mark_reset
mark_reset-Keeps (some e) id now db v = tt
mark_reset-Keeps none id now db v = update_account-DbIsValid id _ db (λ a. refl) (λ a h. h) v

pub set_master_token-Keeps :
    (fault : Fault) (token : Text) (db : Db)
    → DbIsValid db
    → Keeps (set_master_token fault token db)
unfolding set_master_token
set_master_token-Keeps (some e) token db v = tt
set_master_token-Keeps none token db v = record {
  accounts_ascend = v.accounts_ascend;
  ports_ascend = v.ports_ascend;
  accounts_valid = v.accounts_valid;
  ports_valid = v.ports_valid;
  disjoint = v.disjoint;
}

-- The usage of the map's accounts is written, one account after the other.
persist_accounts-DbIsValid :
    (used : Map ℕ ℕ) (db : Db)
    → DbIsValid db
    → DbIsValid (record db { accounts = persist_accounts used db.accounts })
unfolding persist_accounts update_account
persist_accounts-DbIsValid [] db v = v
persist_accounts-DbIsValid ((id, u) ∷ used) db v =
    update_account-DbIsValid id (λ a. record a { used_bytes = u })
      (record db { accounts = persist_accounts used db.accounts }) (λ a. refl) (λ a h. h)
      (persist_accounts-DbIsValid used db v)

pub persist_usage-Keeps :
    (fault : Fault) (used : Map ℕ ℕ) (counters : Map CounterKey Counter) (db : Db)
    → DbIsValid db
    → Keeps (persist_usage fault used counters db)
unfolding persist_usage
persist_usage-Keeps (some e) used counters db v = tt
persist_usage-Keeps none used counters db v =
    let w = persist_accounts-DbIsValid used db v in
    record {
      accounts_ascend = w.accounts_ascend;
      ports_ascend = w.ports_ascend;
      accounts_valid = w.accounts_valid;
      ports_valid = w.ports_valid;
      disjoint = w.disjoint;
    }

-- An update of ports that keeps the ids and leaves valid rows that do not overlap.
pub update_port-DbIsValid :
    (id : ℕ) (f : Port → Port) (db : Db)
    → ((p : Port) → (f p).id ≡ p.id)
    → ((p : Port) → RowIsValid db.accounts p → (p.id == id) ≡ true → RowIsValid db.accounts (f p))
    → Disjoint (update_where (λ (p : Port). p.id == id) f db.ports)
    → DbIsValid db
    → DbIsValid (update_port id f db)
unfolding update_port
update_port-DbIsValid id f db same step apart v = record {
  accounts_ascend = v.accounts_ascend;
  ports_ascend =
      rw (map-update_where (λ (p : Port). p.id == id) (λ p. p.id) f db.ports same) v.ports_ascend;
  accounts_valid = v.accounts_valid;
  ports_valid =
      All-update_where (λ p. p.id == id) (RowIsValid db.accounts) f db.ports step v.ports_valid;
  disjoint = apart;
}

Apart-move :
    (id k : ℕ) (p : Port) (ports : List Port)
    → All (Apart p) ports
    → All (Apart p) (update_where (λ q. q.id == id) (λ q. record q { account_id = k }) ports)
unfolding overlaps
Apart-move id k p ports h =
    All-update_where (λ q. q.id == id) (Apart p) (λ q. record q { account_id = k }) ports
      (λ q a e. a) h

Disjoint-move :
    (id k : ℕ) (ports : List Port)
    → Disjoint ports
    → Disjoint (update_where (λ (q : Port). q.id == id) (λ q. record q { account_id = k }) ports)
unfolding overlaps
Disjoint-move id k [] d = tt
Disjoint-move id k (p ∷ ports) d = elim (Bool-cases (p.id == id)) [
  | inl e ↦ rw e (Apart-move id k p ports d.0, Disjoint-move id k ports d.1)
  | inr e ↦ rw e (Apart-move id k p ports d.0, Disjoint-move id k ports d.1)
]

update_port_none :
    (id : ℕ) (f : Port → Port) (db : Db)
    → any (λ (p : Port). p.id == id) db.ports ≡ false
    → update_port id f db ≡ db
unfolding update_port
update_port_none id f db h = cc (update_where_none (λ (p : Port). p.id == id) f db.ports h)

pub move_port-Keeps :
    (fault : Fault) (id k : ℕ) (db : Db) → DbIsValid db → Keeps (move_port fault id k db)
unfolding move_port valid_range
move_port-Keeps (some e) id k db v = tt
move_port-Keeps none id k db v = elim (Bool-cases (any (λ (a : Account). a.id == k) db.accounts)) [
  | inl known ↦ rw (known, and-false_right) (moved (λ p r e. (known, r.1, r.2)))
  | inr unknown ↦ elim (Bool-cases (any (λ (p : Port). p.id == id) db.ports)) [
    | inl found ↦ rw (unknown, found) tt
    | inr missing ↦
        rw (unknown, missing)
          (rw (update_port_none id (λ p. record p { account_id = k }) db missing) v)
  ]
]
  where
    moved :
        ((p : Port)
          → RowIsValid db.accounts p
          → (p.id == id) ≡ true
          → RowIsValid db.accounts (record p { account_id = k }))
        → DbIsValid (update_port id (λ p. record p { account_id = k }) db)
    moved step =
        update_port-DbIsValid id (λ p. record p { account_id = k }) db (λ p. refl) step
          (Disjoint-move id k db.ports v.disjoint) v
