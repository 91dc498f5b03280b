-- ===== src/Engine/Mutations/Ranges.antt =====
-- AddPort and EditPort of internal/engine/engine.go keep the invariant: their overlap tests, against
-- the ports in memory, keep the ports of the database apart.
use nfuse.Base.{
  ℕ, ◌<◌, ◌^◌, ◌≡◌, true, not, ◌&&◌, none, ◌==◌, find, any, arith, inl, inr, Bool-cases,
  Option-cases,
}
use nfuse.Model.{Port, valid_range, overlaps, account}
use nfuse.Store
use nfuse.Store.Intervals.{create_port-Keeps, edit_port-Keeps}
use nfuse.Engine.{Manager, Controller, Env}
use nfuse.Engine.Invariant.{Inv, MutationKeeps, reconcile-Inv}
use nfuse.Engine.Mutations.{insert_port, new_port, add_port, write_interval, edit_port}
use nfuse.Engine.Mutations.Kept.{ports_in_db, write-Keeps, write_port-Keeps}

new_port_bounds :
    (id account_id start end : ℕ)
    → start < 2 ^ 16
    → end < 2 ^ 16
    → (new_port id account_id start end).end < 2 ^ 16
unfolding new_port
new_port_bounds id account_id start end h k = ground arith

module _ (m : Manager) where
  insert_port-Keeps :
      (env : Env) (np : Port) (c : Controller m)
      → valid_range np ≡ true
      → np.end < 2 ^ 16
      → Inv c
      → MutationKeeps (insert_port m env np c)
  unfolding insert_port
  insert_port-Keeps env np c range small v =
      elim (Option-cases (account c.snap.accounts np.account_id)) [
        | inl missing ↦ rw (missing, insert_port) v
        | inr (a, known) ↦ elim (Option-cases (find (λ p. overlaps p np) c.snap.ports)) [
          | inr (p, clash) ↦ rw (known, clash, insert_port) v
          | inl clear ↦
              rw (known, clear, insert_port)
                (write_port-Keeps m c (Store.create_port env.write_fault np c.db) v (
                  create_port-Keeps env.write_fault np c.db range small
                    (ports_in_db m (λ p. overlaps p np) c v clear) v.db_valid))
        ]
      ]

  -- AddPort of uint16 port numbers keeps the invariant, whatever the kernel and the statements report,
  -- if the reload works: a range that would overlap another never reaches the database.
  pub add_port-Inv :
      (env : Env) (account_id start end : ℕ) (c : Controller m)
      → start < 2 ^ 16
      → end < 2 ^ 16
      → env.load_fault ≡ none
      → Inv c
      → Inv (add_port m env account_id start end c).1
  unfolding add_port
  add_port-Inv env account_id start end c small_start small_end e v =
      let np = new_port 0 account_id start end in
      elim (Bool-cases (valid_range np)) [
        | inr bad ↦ rw (bad, add_port) v
        | inl range ↦
            rw (range, add_port)
              (reconcile-Inv m env (insert_port m env np) c e
                (λ c' v'.
                  insert_port-Keeps env np c' range
                    (new_port_bounds 0 account_id start end small_start small_end) v')
                v)
      ]

  write_interval-Keeps :
      (env : Env) (np : Port) (c : Controller m)
      → valid_range np ≡ true
      → np.end < 2 ^ 16
      → Inv c
      → MutationKeeps (write_interval m env np c)
  unfolding write_interval
  write_interval-Keeps env np c range small v =
      elim (Option-cases (find (λ p. not (p.id == np.id) && overlaps p np) c.snap.ports)) [
        | inr (p, clash) ↦ rw (clash, write_interval) v
        | inl clear ↦
            let kept =
              write-Keeps m c (Store.edit_port env.write_fault np.id np.start np.end c.db) v (
                edit_port-Keeps env.write_fault np c.db range small
                  (ports_in_db m (λ p. not (p.id == np.id) && overlaps p np) c v clear)
                  v.db_valid) in
            elim (Bool-cases (any (λ (p : Port). p.id == np.id) c.snap.ports)) [
              | inl found ↦ rw (clear, found, write_interval) kept
              | inr missing ↦ rw (clear, missing, write_interval) v
            ]
      ]

  -- EditPort with uint16 port numbers keeps the invariant, whatever the kernel and the statements
  -- report, if the reload works.
  pub edit_port-Inv :
      (env : Env) (port_id start end : ℕ) (c : Controller m)
      → start < 2 ^ 16
      → end < 2 ^ 16
      → env.load_fault ≡ none
      → Inv c
      → Inv (edit_port m env port_id start end c).1
  unfolding edit_port
  edit_port-Inv env port_id start end c small_start small_end e v =
      let np = new_port port_id 0 start end in
      elim (Bool-cases (valid_range np)) [
        | inr bad ↦ rw (bad, edit_port) v
        | inl range ↦
            rw (range, edit_port)
              (reconcile-Inv m env (write_interval m env np) c e
                (λ c' v'.
                  write_interval-Keeps env np c' range
                    (new_port_bounds port_id 0 start end small_start small_end) v')
                v)
      ]
