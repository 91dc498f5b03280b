-- ===== src/Store/Migrate/Keeping.antt =====
-- What the migrations of internal/store/store.go keep of an older file.
use nfuse.Base.{
  ℕ, ◌≡◌, refl, ap₂, ◌∙◌, Bool, true, false, none, some, List, [], ◌∷◌, map, is_empty, ◌==◌,
  update_where, if◌then◌else◌,
}
use nfuse.Base.Text.{Text}
use nfuse.Model.{Account, Error}
use nfuse.Model.Token.{Reads, Draw, drew, failed, waiting, unique_token}
use nfuse.Store.{Db, Fault, update_account}
use nfuse.Store.Migrate.{
  Faults, give_token, with_draw, backfill, backfill_rest, stored_master, new_master, ensure_master,
  fill_tokens, write_token, write_master, empty_tokens, used_tokens, read_master, without_token,
  tokens_of,
}

unfoldable pub without : Account → Account
without a = record a { token = [] }

-- The same rows but for the tokens.
pub record Same (db db' : Db) : Type 0 where
  pub accounts : map without db'.accounts ≡ map without db.accounts
  pub ports : db'.ports ≡ db.ports
  pub counters : db'.counters ≡ db.counters

Same-refl : (db : Db) → Same db db
Same-refl db = record { accounts = refl; ports = refl; counters = refl }

Same-append : {a b c : Db} → Same a b → Same b c → Same a c
Same-append x y = record {
  accounts = y.accounts ∙ x.accounts;
  ports = y.ports ∙ x.ports;
  counters = y.counters ∙ x.counters;
}

give_row :
    (t : Text) (a : Account) (b : Bool)
    → without (if b then record a { token = t } else a) ≡ without a
unfolding without
give_row t a true = refl
give_row t a false = refl

give_without :
    (id : ℕ) (t : Text) (rows : List Account)
    → map without (update_where (λ (a : Account). a.id == id) (λ a. record a { token = t }) rows)
      ≡ map without rows
unfolding without
give_without id t [] = refl
give_without id t (a ∷ rows) =
    ap₂ (λ x xs. x ∷ xs) (give_row t a (a.id == id)) (give_without id t rows)

with_draw-Same :
    (db : Db) (stop : Error → Fault × Db) (next : Text → Reads → Fault × Db) (d : Draw)
    → ((e : Error) → Same db (stop e).1)
    → ((t : Text) (left : Reads) → Same db (next t left).1)
    → Same db (with_draw stop next d).1
unfolding with_draw
with_draw-Same db stop next (drew t left) s n = n t left
with_draw-Same db stop next (failed e) s n = s e
with_draw-Same db stop next waiting s n = s _

unless_fault-Same :
    (db : Db) (fault : Fault) (before after : Fault × Db)
    → Same db before.1
    → Same db after.1
    → Same db (elim fault as (λ f. Fault × Db) [ some e ↦ (some e, before.1) | none ↦ after ]).1
unless_fault-Same db (some e) before after x y = x
unless_fault-Same db none before after x y = y

module _ (faults : Faults) where
  backfill-Same :
      (ids : List ℕ) (used : List Text) (reads : Reads) (db : Db)
      → Same db (backfill faults ids used reads db).1
  unfolding backfill give_token update_account
  backfill-Same [] used reads db = Same-refl db
  backfill-Same (id ∷ rest) used reads db =
      with_draw-Same db _ _ (unique_token used reads) (λ e. Same-refl db)
        (λ t left.
          unless_fault-Same db (faults (write_token id)) (none, db) _ (Same-refl db)
            (Same-append
              (record { accounts = give_without id t db.accounts; ports = refl; counters = refl })
              (backfill-Same rest (t ∷ used) left (give_token id t db))))

  backfill_rest-Same :
      (used : List Text) (master : Text) (reads : Reads) (db : Db)
      → Same db (backfill_rest faults used master reads db).1
  unfolding backfill_rest
  backfill_rest-Same used master reads db =
      unless_fault-Same db (faults empty_tokens) (none, db) _ (Same-refl db)
        (backfill-Same (without_token db.accounts) (master ∷ used) reads db)

  new_master-Same :
      (used : List Text) (reads : Reads) (db : Db) → Same db (new_master faults used reads db).1
  unfolding new_master
  new_master-Same used reads db =
      with_draw-Same db _ _ (unique_token used reads) (λ e. Same-refl db)
        (λ t left.
          unless_fault-Same db (faults write_master) (none, db) _ (Same-refl db)
            (Same-append (record { accounts = refl; ports = refl; counters = refl })
              (backfill_rest-Same used t left (record db { master = some t }))))

  pub fill_tokens-Same : (reads : Reads) (db : Db) → Same db (fill_tokens faults reads db).1
  unfolding fill_tokens ensure_master
  fill_tokens-Same reads db =
      unless_fault-Same db (faults used_tokens) (none, db) _ (Same-refl db)
        (unless_fault-Same db (faults read_master) (none, db) _ (Same-refl db)
          (by_master (is_empty (stored_master db))))
    where
      by_master :
          (b : Bool)
          → Same db
              (if b
                then new_master faults (tokens_of db.accounts) reads db
                else backfill_rest faults (tokens_of db.accounts) (stored_master db) reads db).1
      by_master true = new_master-Same (tokens_of db.accounts) reads db
      by_master false = backfill_rest-Same (tokens_of db.accounts) (stored_master db) reads db
