-- ===== src/Engine/Lifetime.antt =====
-- Start and Stop of internal/engine/engine.go, with the goroutines that they start and wait for. The loops
-- take the steps of Engine/Steps.antt; each leaves at its select, once stopCh is closed.
pub mod Saving
use nfuse.Base.{if◌then◌else◌, ℕ, ◌≡◌, ◌≢◌, Bool, true, false, Option, none, some}
use nfuse.Engine.{Manager, Controller, Env, Sample}
use nfuse.Engine.Loops.{persist_now}
use nfuse.Engine.Steps.{
  Call, syncs, resets_account, Sampling, idle, begun, read, System, Step, calls, begins, reads,
  fails, finishes, copies, writes, traffic,
}

-- What a step does, whoever does it.
pub data Job : Type 0 where
  sampling saving resetting syncing calling carrying : Job

pub data Task : Type 0 where
  sample_loop persist_loop sync_loop : Task

job_of_call : Call → Job
job_of_call syncs = syncing
job_of_call (resets_account id) = resetting
job_of_call _ = calling

module _ {m : Manager} where
  unfoldable pub job : {s t : System m.Kernel} → Step m s t → Job
  unfolding job_of_call
  job (calls s env call e) = job_of_call call
  job (begins s) = sampling
  job (reads s g r a b) = sampling
  job (fails s msg) = sampling
  job (finishes s g r a) = sampling
  job (copies s) = saving
  job (writes s env copy a) = saving
  job (traffic s k) = carrying

-- The loops' own work; the due resets are run by persistLoop.
pub does : Task → Job → Bool
does sample_loop sampling = true
does persist_loop saving = true
does persist_loop resetting = true
does sync_loop syncing = true
does _ _ = false

-- What clients ask for; ForcePersist saves.
unfoldable pub asked : Job → Bool
asked saving = true
asked resetting = true
asked calling = true
asked _ = false

-- `running` are the goroutines that the wait group counts, `stopping` is a closed stopCh, `stopped` a Stop
-- that has returned.
pub record Lifetime (Kernel : Type 0) : Type 0 where
  pub sys : System Kernel
  pub running : Task → Bool
  pub stopping : Bool
  pub stopped : Bool

abbrev pub loop_eq : Task → Task → Bool
loop_eq sample_loop sample_loop = true
loop_eq persist_loop persist_loop = true
loop_eq sync_loop sync_loop = true
loop_eq _ _ = false

-- Start.
launched : {Kernel : Type 0} → System Kernel → Lifetime Kernel
launched sys = record { sys = sys; running = λ l. true; stopping = false; stopped = false }

pub leave : {Kernel : Type 0} → Task → Lifetime Kernel → Lifetime Kernel
leave l s = record s { running = λ k. if loop_eq k l then false else s.running k }

-- A loop is at its select: no reading is under way, no copy waits to be written.
pub IsAtSelect : {Kernel : Type 0} → Task → System Kernel → Type 0
IsAtSelect sample_loop s = s.sampling ≡ idle
IsAtSelect persist_loop s = s.persisting ≡ none
IsAtSelect sync_loop s = Unit {0}

module _ (m : Manager) where
  -- The end of Stop: the final persist, behind the wait.
  pub last_persist : Env → Lifetime m.Kernel → Lifetime m.Kernel
  last_persist env s = record s {
    sys = record s.sys { ctl = (persist_now m env s.sys.ctl).1 };
    stopped = true;
  }

  pub data Life (s : Lifetime m.Kernel) : Lifetime m.Kernel → Type 0 where
    works :
        (l : Task) {t : System m.Kernel}
        → s.running l ≡ true
        → (st : Step m s.sys t) → does l (job st) ≡ true
        → Life s (record s { sys = t })
    serves :
        {t : System m.Kernel} (st : Step m s.sys t)
        → asked (job st) ≡ true
        → Life s (record s { sys = t })
    carries :
        {t : System m.Kernel} (st : Step m s.sys t)
        → job st ≡ carrying
        → Life s (record s { sys = t })
    closes : s.stopping ≡ false → Life s (record s { stopping = true })
    leaves :
        (l : Task)
        → s.stopping ≡ true
        → s.running l ≡ true
        → IsAtSelect l s.sys
        → Life s (leave l s)
    returns :
        (env : Env)
        → s.stopping ≡ true
        → ((l : Task) → s.running l ≡ false)
        → s.stopped ≡ false
        → Life s (last_persist env s)

  pub data Lives (s : Lifetime m.Kernel) : Lifetime m.Kernel → Type 0 where
    here : Lives s s
    next : {t u : Lifetime m.Kernel} → Lives s t → Life t u → Lives s u

  -- The step is not a client's.
  unfoldable pub unasked : {s t : Lifetime m.Kernel} → Life s t → Bool
  unasked (serves st h) = false
  unasked _ = true

  pub data Alone (s : Lifetime m.Kernel) : Lifetime m.Kernel → Type 0 where
    here : Alone s s
    next : {t u : Lifetime m.Kernel} → Alone s t → (st : Life t u) → unasked st ≡ true → Alone s u
