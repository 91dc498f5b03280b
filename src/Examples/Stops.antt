-- ===== src/Examples/Stops.antt =====
-- Examples of the theorems on Start and Stop of internal/engine/engine.go: a daemon that is stopped while a
-- reading is under way.
use nfuse.Base.{◌≡◌, refl, true, false, none}
use nfuse.Engine.Loops.{fold_used}
use nfuse.Engine.Steps.{System, begun, traffic}
use nfuse.Engine.Lifetime.{Lifetime, last_persist, carries, job, unasked, Alone}
use nfuse.Engine.Lifetime.Saving.{stop_saves}
use nfuse.Examples.{FakeKernel, fake, running, refusing, controller_on, calm, reading}

abbrev sampling : System FakeKernel
sampling = record {
  ctl = record (controller_on running) { live = reading };
  sampling = begun 0;
  persisting = none;
}

abbrev all_left : Lifetime FakeKernel
all_left = record { sys = sampling; running = λ l. false; stopping = true; stopped = false }

-- Then traffic changes the kernel once more.
abbrev later : Lifetime FakeKernel
later =
    let s = last_persist fake calm all_left in
    record s { sys = record s.sys { ctl = record s.sys.ctl { kernel = refusing } } }

stop_saves_example :
    later.sys.ctl.db.accounts ≡ fold_used reading.account_used (controller_on running).db.accounts
unfolding job unasked
stop_saves_example =
    stop_saves fake calm all_left refl (λ l. refl) refl
      (Alone.next Alone.here (carries (traffic _ refusing) refl) refl)
