-- ===== src/Examples/Engines.antt =====
-- Examples of the theorems on internal/engine/engine.go.
use nfuse.Base.{
  ◌⊎◌, ◌≡◌, refl, true, false, none, some, [], ◌∷◌, arith, ok, err, update_where, ◌==◌,
}
use nfuse.Base.Int.{pos}
use nfuse.Base.Text.{codes, text_eq, text_neq}
use nfuse.Model.Token.{
  unique_token, unique_loop, retry, generate_token, fill, rejected, letter, get_or,
}
use nfuse.Model.{Account, account, Snapshot, Error, validate}
use nfuse.Store.Rows.{DbIsValid}
use nfuse.Store.{load, master_token, load_rows, set_token, persist_usage}
use nfuse.Engine.{record_applied, Controller, apply_locked, rebuild, fresh_live}
use nfuse.Engine.Mutations.{
  unique_token_locked, token_of, used_tokens, reset_tested, set_usage_tested,
}
use nfuse.Engine.Tokens.{regenerate_token, keep_token}
use nfuse.Engine.Views.{view_account, account_grant, first_view, view_locked, query_by_token, Grant}
use nfuse.Engine.Loops.Startup.{start-Inv}
use nfuse.Engine.Loops.Restart.{counted, start_usage}
use nfuse.Engine.Loops.{
  start, fresh, start_apply, start_applied, start_probe, adopt_live_state, adopt_sample,
  persist_sample, fold_sample, fold_used, resync,
}
use nfuse.Engine.Invariant.{Inv, Given, rebuild_reaches_kernel}
use nfuse.Engine.Revocation.{old_token_revoked}
use nfuse.Engine.Metering.{with_used, set_usage_lem, reset_usage}
use nfuse.Engine.Retry.{UsedIs, reset_undone}
use nfuse.Engine.Steps.{
  Call, adds_port, resets_account, perform, System, Reach, here, next, calls, idle, Reach-Inv,
}
use nfuse.Examples.{
  FakeKernel, fake, running, refusing, controller_on, controller_on-Inv, calm, reading,
  two_accounts, two_accounts-DbIsValid, alice, web,
}

abbrev pub done : Unit {0}
done = tt

abbrev at_start : System fake.Kernel
at_start = record { ctl = controller_on running; sampling = idle; persisting = none }

abbrev port_8080 : Call
port_8080 = adds_port 2 8080 0 (omega arith) (omega arith)

abbrev after_call : System fake.Kernel
after_call = record at_start { ctl = perform fake calm port_8080 (controller_on running) }

two_calls :
    Reach fake at_start
      (record after_call { ctl = perform fake calm (resets_account 1) after_call.ctl })
two_calls =
    next (next here (calls at_start calm port_8080 refl))
      (calls after_call calm (resets_account 1) refl)

Reach-Inv_example : Inv (perform fake calm (resets_account 1) after_call.ctl)
Reach-Inv_example = Reach-Inv fake two_calls (controller_on-Inv running)

abbrev two_stamped : Snapshot
two_stamped = record (load_rows two_accounts) { now = some (pos 2000) }

rebuild_reaches_kernel_example :
    ((validate (load_rows two_accounts) ≡ none)
      × Given fake done two_stamped
          (controller_on running)
          (rebuild fake calm done (controller_on running)))
    ⊎ ((e : Error) × (validate (load_rows two_accounts) ≡ some e)
        × (rebuild fake calm done (controller_on running) ≡ (err e, controller_on running))
        × ¬ DbIsValid two_accounts)
rebuild_reaches_kernel_example = rebuild_reaches_kernel fake calm done (controller_on running) refl

read_running : fresh_live fake (controller_on running) ≡ ok reading
unfolding fresh_live
read_running = refl

reset_usage_example :
    (reset_tested fake calm 1 (controller_on running)).1.db.accounts
    ≡ update_where
        (λ (a : Account). a.id == 1)
        (λ a. record a { used_bytes = 0; last_reset_unix = pos 2000 })
        (fold_used reading.account_used two_accounts.accounts)
reset_usage_example = reset_usage fake calm (controller_on running) reading read_running refl 1 refl

set_usage_lem_example :
    (set_usage_tested fake calm 1 7 (controller_on running)).1.db.accounts
    ≡ with_used 1 7 (fold_used reading.account_used two_accounts.accounts)
set_usage_lem_example =
    set_usage_lem fake calm (controller_on running) reading read_running refl 1 7 refl

reset_undone_example :
    UsedIs 1 0 (reset_tested fake calm 1 (controller_on refusing)).1.db.accounts
    × UsedIs 1 500
        (resync fake calm (reset_tested fake calm 1 (controller_on refusing)).1).1.db.accounts
reset_undone_example =
    reset_undone fake (controller_on refusing) reading (λ s. (_, refl)) refl refl calm calm 1 500
      refl refl refl refl

abbrev alice_grant : Grant
alice_grant =
    (view_account (record { counters = []; account_used = [] }) [] (web ∷ []) alice ∷ [], false)

alice_queried : query_by_token fake (controller_on running) (codes "abc") ≡ some alice_grant
unfolding query_by_token text_eq account_grant first_view view_locked view_account
alice_queried = refl

abbrev regenerated : Controller fake
regenerated = (regenerate_token fake calm 1 (controller_on running)).1

alice_regenerates :
    regenerate_token fake calm 1 (controller_on running)
    ≡ (ok (codes "AAAAAAAAAAAAAAAA"), regenerated)
unfolding regenerate_token unique_token_locked token_of used_tokens keep_token unique_token
    unique_loop retry generate_token fill rejected letter get_or text_eq set_token
alice_regenerates = refl

old_token_revoked_example : query_by_token fake regenerated (codes "abc") ≡ none
unfolding text_eq account
old_token_revoked_example =
    old_token_revoked fake calm 1 (controller_on running) regenerated alice
      (codes "AAAAAAAAAAAAAAAA") 2 alice_regenerates refl (text_neq (codes "abc") [] refl)
      (text_neq (codes "abc") (codes "master") refl) (ground arith)
      ((λ e. refl), ((λ e. absurd (text_neq (codes "xyz") (codes "abc") refl e)), tt))

abbrev cold : FakeKernel
cold = record { table = none; refuses = false }

abbrev started : Controller fake
started = elim (start fake calm two_accounts cold) [ ok c ↦ c | err e ↦ controller_on cold ]

two_accounts-start : start fake calm two_accounts cold ≡ ok started
unfolding start fresh start_apply start_applied start_probe apply_locked record_applied load
    master_token
two_accounts-start = refl

start-Inv_example : Inv started
start-Inv_example =
    start-Inv fake calm two_accounts cold started two_accounts-DbIsValid two_accounts-start

abbrev kept : Controller fake
kept = elim (start fake calm two_accounts running) [ ok c ↦ c | err e ↦ controller_on running ]

two_accounts-restart : start fake calm two_accounts running ≡ ok kept
unfolding start fresh start_apply start_applied start_probe apply_locked record_applied load
    master_token adopt_live_state adopt_sample persist_sample fold_sample fold_used persist_usage
two_accounts-restart = refl

start_usage_example :
    (kept.db.accounts ≡ counted true reading two_accounts.accounts)
    × (kept.snap.accounts ≡ counted true reading (load_rows two_accounts).accounts)
    × (fake.apply kept.snap running ≡ (none, kept.kernel))
start_usage_example =
    start_usage fake calm two_accounts running true reading refl (λ h. refl) kept
      two_accounts-restart
