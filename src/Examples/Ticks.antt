-- ===== src/Examples/Ticks.antt =====
-- Examples of the theorems on the background work of internal/engine/engine.go and on the migrations of
-- internal/store/store.go.
use nfuse.Base.{◌+◌, ◌-◌, ◌*◌, ◌/◌, ◌≡◌, ap, refl, true, none, [], ◌∷◌, arith, ok, All, is_empty}
use nfuse.Base.Int.{pos, negsuc}
use nfuse.Base.Text.{Text, codes, text_eq}
use nfuse.Model.{Account}
use nfuse.Model.Token.{
  unique_token, unique_loop, retry, generate_token, fill, rejected, letter, get_or,
}
use nfuse.Store.{Db, update_account}
use nfuse.Store.Migrate.{
  Faults, fill_tokens, ensure_master, new_master, backfill_rest, backfill, with_draw, give_token,
  stored_master,
}
use nfuse.Store.Migrate.Tokens.{HasTokens, Apart}
use nfuse.Store.Migrate.Filled.{fill_tokens-HasTokens}
use nfuse.Engine.{Manager, State, Sample, Controller, fresh_live}
use nfuse.Nft.Reading.{quota, read_list}
use nfuse.Nft.Running.{
  Nft, exec_manager, exec_manager-Accepts, table_exists, table_listed, sample, sampled, decoded,
}
use nfuse.Base.{if◌then◌else◌}
use nfuse.Engine.Mutations.{reset_tested}
use nfuse.Engine.Loops.{persist_copy, persist_write, finish_sample, sync_kernel}
use nfuse.Engine.Invariant.{Inv}
use nfuse.Engine.Retry.{UsedIs}
use nfuse.Engine.Resets.{
  Calendar, Monthly, IsFirstAfter, anchor_or_first, next_reset, next_reset-IsFirstAfter,
}
use nfuse.Engine.Sync.{Accepts, IsInStep, sync_kernel-IsInStep, reset-IsInStep}
use nfuse.Engine.Staleness.{stale_sample_dropped, late_persist_revives}
use nfuse.Examples.{
  fake, running, controller_on, controller_on-Inv, calm, reading, two_accounts, alice, bob, sixteen,
}
use nfuse.Examples.Engines.{done}

-- Months of 30 days of 86400 seconds, from 0 on.
abbrev thirty : Calendar
thirty = record {
  month_of = λ t. elim t [ pos n ↦ n / 2592000 | negsuc n ↦ 0 ];
  midnight = λ k d. pos (k * 2592000 + (d - 1) * 86400);
  add_month = λ t. elim t [ pos n ↦ pos (n + 2592000) | negsuc n ↦ negsuc n ];
}

thirty-Monthly : Monthly thirty
thirty-Monthly = record {
  from = λ t. ground arith;
  below = λ t. ground arith;
  day_from = λ k d low high. ground arith;
  day_below = λ k d low high. ground arith;
  added = λ k d low high. ap pos (omega arith);
}

next_reset-IsFirstAfter_example :
    IsFirstAfter thirty
      (anchor_or_first (pos 15))
      (pos 5000000)
      (next_reset thirty (pos 5000000) (pos 15))
next_reset-IsFirstAfter_example = next_reset-IsFirstAfter thirty thirty-Monthly 5000000 (pos 15)

-- An nft command that loads every script, with the last script for its state, and lists one quota.
abbrev loading : Nft Text
loading = record {
  run = λ args script k.
      (record { failure = none; stdout = []; stderr = [] }, if is_empty script then k else script);
  decode = λ t. ok (quota (codes "q1") 500 ∷ []);
  convert = λ x. 0;
}

abbrev willing : Manager
willing = exec_manager loading (codes "nfuse") (codes "eth0")

willing-Accepts : Accepts willing
willing-Accepts = exec_manager-Accepts loading (codes "nfuse") (codes "eth0") (λ script k. refl)

abbrev behind : State Text
behind = record {
  db = two_accounts;
  kernel = [];
  snap = (controller_on running).snap;
  live = record { counters = []; account_used = [] };
  last_err = [];
  started_at = pos 1000;
  last_persist = none;
  master_token = codes "master";
  gen = 0;
  expired = [];
  unsynced = true;
}

behind-Inv : Inv behind
behind-Inv = record {
  db_valid = (controller_on-Inv running).db_valid;
  ports_synced = (controller_on-Inv running).ports_synced;
}

abbrev listing : Sample
listing = read_list (quota (codes "q1") 500 ∷ [])

read_behind : fresh_live willing behind ≡ ok listing
unfolding fresh_live table_exists table_listed sample sampled decoded
read_behind = refl

sync_kernel-IsInStep_example :
    ((sync_kernel willing calm behind).0 ≡ ok done)
    × IsInStep willing (pos 2000) (sync_kernel willing calm behind).1
sync_kernel-IsInStep_example =
    sync_kernel-IsInStep willing calm behind listing willing-Accepts behind-Inv read_behind refl
      refl refl

reset_worked : (reset_tested willing calm 1 behind).0 ≡ ok done
reset_worked =
    (reset-IsInStep willing calm 1 behind listing willing-Accepts behind-Inv read_behind refl refl
      refl).0

stale_sample_dropped_example :
    (finish_sample willing 0 listing (reset_tested willing calm 1 behind).1).live
    ≡ (reset_tested willing calm 1 behind).1.live
stale_sample_dropped_example = stale_sample_dropped willing calm 1 behind listing reset_worked

-- The sampler has read 500 bytes for the account 1.
abbrev measured : Controller fake
measured = record (controller_on running) { live = reading }

read_copied : fresh_live fake (persist_copy fake measured).1 ≡ ok reading
unfolding fresh_live persist_copy
read_copied = refl

late_persist_revives_example :
    UsedIs 1 0 (reset_tested fake calm 1 (persist_copy fake measured).1).1.db.accounts
    × UsedIs 1 500
        (persist_write fake calm
          (persist_copy fake measured).0
          (reset_tested fake calm 1 (persist_copy fake measured).1).1).1.db.accounts
late_persist_revives_example =
    late_persist_revives fake calm calm 1 500 measured reading read_copied refl refl refl refl

-- A database in which the second account has no token yet.
abbrev legacy : Db
legacy = record two_accounts { accounts = alice ∷ record bob { token = [] } ∷ [] }

abbrev no_faults : Faults
no_faults s = none

legacy_filled : (fill_tokens no_faults sixteen legacy).0 ≡ none
unfolding fill_tokens ensure_master new_master backfill_rest backfill with_draw give_token
    stored_master unique_token unique_loop retry generate_token fill rejected letter get_or text_eq
    update_account
legacy_filled = refl

legacy-Apart : Apart legacy.accounts
unfolding text_eq
legacy-Apart = (((refl, refl), tt), (tt, tt))

legacy_others :
    All
      (λ (a : Account). text_eq a.token (stored_master legacy) ≡ true → is_empty a.token ≡ true)
      legacy.accounts
unfolding text_eq stored_master
legacy_others = ((λ e. cc), ((λ e. cc), tt))

fill_tokens-HasTokens_example : HasTokens (fill_tokens no_faults sixteen legacy).1
fill_tokens-HasTokens_example =
    fill_tokens-HasTokens no_faults sixteen legacy legacy-Apart legacy_others legacy_filled
