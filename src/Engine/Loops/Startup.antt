-- ===== src/Engine/Loops/Startup.antt =====
-- The controller that New of internal/engine/engine.go returns satisfies the invariant.
use mathlib.Core.Path.{subst}
use nfuse.Base.{
  ◌≡◌, refl, sym, ap, ◌∙◌, true, false, none, some, Result, Result-cases, ok, err, inl, inr,
  Option-cases,
}
use nfuse.Model.{Snapshot, Error}
use nfuse.Store
use nfuse.Store.{Db, Fault, load, load_rows}
use nfuse.Store.Rows.{DbIsValid}
use nfuse.Engine.{Manager, State, Controller, Env, Sample, stamp, apply_locked}
use nfuse.Engine.Invariant.{Inv, FoldKeeps, ports-load, db-apply_locked}
use nfuse.Engine.Background.{persist_sample-FoldKeeps}
use nfuse.Engine.Loops.{
  fold_sample, persist_sample, fresh, adopt_sample, adopt_live_state, start_applied, start_apply,
  start_probe, start,
}

-- A controller that starts satisfies the invariant.
abbrev Started : {Kernel : Type 0} → Result Error (State Kernel) → Type 0
Started (ok c) = Inv c
Started (err e) = Unit {0}

module _ (m : Manager) (env : Env) where
  adopt_sample-Started :
      (c : Controller m) (r : Result Error Sample) → Inv c → Started (adopt_sample m env c r)
  unfolding adopt_sample fold_sample
  adopt_sample-Started c (err e) v = tt
  adopt_sample-Started c (ok live) v =
      let keeps = persist_sample-FoldKeeps m env.persist_fault live c.db v.db_valid in
      elim (Result-cases (persist_sample env.persist_fault live c.db)) [
        | inr (e, failed) ↦ rw (adopt_sample, failed) tt
        | inl (db, written) ↦
            let kept : FoldKeeps c.db (ok db) = rw written at keeps in
            rw (adopt_sample, written)
              (record {
                db_valid = kept.0;
                ports_synced = v.ports_synced ∙ sym (ports-load c.db db kept.1);
              })
      ]

  start_probe-Started : (c : Controller m) → Inv c → Started (start_probe m env c)
  unfolding start_probe adopt_live_state
  start_probe-Started c v = elim (Result-cases (m.table_exists c.kernel)) [
    | inr (e, failed) ↦ rw (start_probe, failed) tt
    | inl (true, there) ↦ rw (start_probe, there) (adopt_sample-Started c (m.sample c.kernel) v)
    | inl (false, absent) ↦ rw (start_probe, absent) v
  ]

  start_applied-Started :
      (s : Snapshot) (r : Fault × Controller m)
      → DbIsValid r.1.db
      → s.ports ≡ (load_rows r.1.db).ports
      → Started (start_applied m s r)
  unfolding start_applied
  start_applied-Started s (some e, c) v h = tt
  start_applied-Started s (none, c) v h = record { db_valid = v; ports_synced = h }

  start_apply-Started :
      (r : Result Error (Controller m)) → Started r → Started (start_apply m env r)
  unfolding start_apply stamp
  start_apply-Started (err e) v = tt
  start_apply-Started (ok c) v =
      let s = stamp env.apply_now c.snap in
      let same = db-apply_locked m s c in
      start_applied-Started s (apply_locked m s c) (rw same v.db_valid) (
        v.ports_synced
        ∙ sym (ports-load c.db (apply_locked m s c).1.db (ap (λ (d : Db). d.ports) same)))

  start-Started : (db : Db) (k : m.Kernel) → DbIsValid db → Started (start m env db k)
  unfolding start load fresh
  start-Started db k v = elim (Option-cases env.load_fault) [
    | inr (e, failed) ↦ rw (start, failed) tt
    | inl works ↦ elim (Result-cases (Store.master_token env.write_fault db)) [
      | inr (e, failed) ↦ rw (start, works, failed) tt
      | inl (master, found) ↦
          rw (start, works, found)
            (start_apply-Started (start_probe m env (fresh m env db k (load_rows db) master)) (
              start_probe-Started (fresh m env db k (load_rows db) master)
                (record { db_valid = v; ports_synced = refl })))
    ]
  ]

  -- Whatever the kernel holds and reports, the controller that New returns over a well-formed
  -- database satisfies the invariant.
  pub start-Inv :
      (db : Db) (k : m.Kernel) (c : Controller m) → DbIsValid db → start m env db k ≡ ok c → Inv c
  start-Inv db k c v h = subst Started h (start-Started db k v)
