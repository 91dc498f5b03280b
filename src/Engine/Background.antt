-- ===== src/Engine/Background.antt =====
-- The background work and the token calls of internal/engine/engine.go keep the invariant.
use nfuse.Base.{
  ℕ, ◌≡◌, refl, sym, ◌∙◌, ◌&&◌, none, some, is_empty, any, Result, Result-cases, ok, err, inl, inr,
  Bool-cases, ◌==◌,
}
use nfuse.Base.Text.{Text}
use nfuse.Model.{Account, Error}
use nfuse.Store.{Db, Fault, update_account, set_token, set_master_token}
use nfuse.Store.Rows.{DbIsValid}
use nfuse.Store.Changes.{set_token-Keeps, set_master_token-Keeps}
use nfuse.Engine.{Manager, Controller, Env, Sample}
use nfuse.Engine.Mutations.{unique_token_locked}
use nfuse.Engine.Tokens.{keep_token, keep_master, regenerate_token, regenerate_master_token}
use nfuse.Engine.Loops.{
  fold_sample, persist_sample, finish_sample, persist_copy, persist_write, persist_written, resync,
  set_err,
}
use nfuse.Engine.Invariant.{Inv, FoldKeeps, ports-load, persist_usage-FoldKeeps, reconcile-Inv}

module _ (m : Manager) where
  pub set_err-Inv : (msg : Text) (c : Controller m) → Inv c → Inv (set_err m msg c)
  unfolding set_err
  set_err-Inv msg c v = record { db_valid = v.db_valid; ports_synced = v.ports_synced }

  pub finish_sample-Inv :
      (g : ℕ) (s : Sample) (c : Controller m) → Inv c → Inv (finish_sample m g s c)
  unfolding finish_sample
  finish_sample-Inv g s c v = record { db_valid = v.db_valid; ports_synced = v.ports_synced }

  pub persist_copy-Inv : (c : Controller m) → Inv c → Inv (persist_copy m c).1
  unfolding persist_copy fold_sample
  persist_copy-Inv c v = record { db_valid = v.db_valid; ports_synced = v.ports_synced }

  pub persist_sample-FoldKeeps :
      (fault : Fault) (copy : Sample) (db : Db)
      → DbIsValid db
      → FoldKeeps db (persist_sample fault copy db)
  unfolding persist_sample
  persist_sample-FoldKeeps fault copy db v =
      elim (Bool-cases (is_empty copy.account_used && is_empty copy.counters)) [
        | inl empty ↦ rw empty (v, refl)
        | inr full ↦ rw full (persist_usage-FoldKeeps fault copy.account_used copy.counters db v)
      ]

  pub persist_write-Inv :
      (env : Env) (copy : Sample) (c : Controller m) → Inv c → Inv (persist_write m env copy c).1
  unfolding persist_write
  persist_write-Inv env copy c v =
      go (persist_sample env.persist_fault copy c.db)
        (persist_sample-FoldKeeps env.persist_fault copy c.db v.db_valid)
    where
      go : (r : Result Error Db) → FoldKeeps c.db r → Inv (persist_written m env c r).1
      go (err e) h = v
      go (ok db) h = record {
        db_valid = h.0;
        ports_synced = v.ports_synced ∙ sym (ports-load c.db db h.1);
      }

  pub resync-Inv :
      (env : Env) (c : Controller m) → env.load_fault ≡ none → Inv c → Inv (resync m env c).1
  unfolding resync
  resync-Inv env c e v = reconcile-Inv m env (λ c'. (ok tt, c')) c e (λ c' v'. v'.db_valid) v

  keep_token-Inv :
      (fault : Fault) (id : ℕ) (token : Text) (c : Controller m)
      → Inv c
      → Inv (keep_token m id token c (set_token fault id token c.db)).1
  unfolding keep_token set_token update_account
  keep_token-Inv (some e) id token c v = v
  keep_token-Inv none id token c v = record {
    db_valid = set_token-Keeps none id token c.db v.db_valid;
    ports_synced =
        v.ports_synced
        ∙ sym (ports-load c.db (update_account id (λ a. record a { token = token }) c.db) refl);
  }

  pub regenerate_token-Inv :
      (env : Env) (id : ℕ) (c : Controller m) → Inv c → Inv (regenerate_token m env id c).1
  unfolding regenerate_token
  regenerate_token-Inv env id c v =
      elim (Bool-cases (any (λ (a : Account). a.id == id) c.snap.accounts)) [
        | inr missing ↦ rw (missing, regenerate_token) v
        | inl found ↦ elim (Result-cases (unique_token_locked m env c)) [
          | inr (e, h) ↦ rw (found, h, regenerate_token) v
          | inl (token, h) ↦
              rw (found, h, regenerate_token) (keep_token-Inv env.write_fault id token c v)
        ]
      ]

  keep_master-Inv :
      (fault : Fault) (token : Text) (c : Controller m)
      → Inv c
      → Inv (keep_master m token c (set_master_token fault token c.db)).1
  unfolding keep_master set_master_token
  keep_master-Inv (some e) token c v = v
  keep_master-Inv none token c v = record {
    db_valid = set_master_token-Keeps none token c.db v.db_valid;
    ports_synced = v.ports_synced ∙ sym (ports-load c.db _ refl);
  }

  pub regenerate_master_token-Inv :
      (env : Env) (c : Controller m) → Inv c → Inv (regenerate_master_token m env c).1
  unfolding regenerate_master_token
  regenerate_master_token-Inv env c v = elim (Result-cases (unique_token_locked m env c)) [
    | inr (e, h) ↦ rw (h, regenerate_master_token) v
    | inl (token, h) ↦ rw (h, regenerate_master_token) (keep_master-Inv env.write_fault token c v)
  ]
