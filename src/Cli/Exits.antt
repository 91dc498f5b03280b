-- ===== src/Cli/Exits.antt =====
-- The exit codes of the commands of internal/cli/commands.go.
use nfuse.Base.{
  ℕ, ◌≡◌, ◌≢◌, refl, Bool, true, false, not, Option, none, some, List, length, ltb, Result, ok, err,
  arith, Bool-cases, inl, inr,
}
use nfuse.Base.Text.{Text}
use nfuse.Cli.{exact_args, arg}
use nfuse.Cli.Arguments.{parse_args, refused, parsed, out_of_fuel}
use nfuse.Cli.Shell.{Verb, Failure, Complaint, complaint, Shell, Action, say}
use nfuse.Cli.Commands.{App, Flags, default_flags, arity}
use nfuse.Cli.Commands.Plans.{finished, dialed, with_client, planned, plan, on_args, run_verb}
use nfuse.Cli.Run.{Role, Entry, run_entry, entry_of, run, run_version}

module _ {W : Type 0} (app : App W) where
  -- Nothing but one more line on stderr.
  abbrev pub OnlyComplains : Shell W → Shell W → Type 0
  OnlyComplains before after = (c : Complaint) × (after ≡ say (complaint c) before)

  finished_code : (done : Result Failure (Unit {0}) × Shell W) → (finished app done).0 ≢ 2
  unfolding finished
  finished_code (ok u, sh) h = omega (arith, h)
  finished_code (err e, sh) h = omega (arith, h)

  dialed_code :
      (socket : Text) (act : Action W (Unit {0})) (sh : Shell W) (tried : Option Text × W)
      → (dialed app socket act sh tried).0 ≢ 2
  unfolding dialed
  dialed_code socket act sh (some e, w) h = omega (arith, h)
  dialed_code socket act sh (none, w) h = finished_code (act (record sh { world = w })) h

  planned_code :
      (socket : Text) (p : Result Complaint (Action W (Unit {0}))) (sh : Shell W)
      → (planned app socket p sh).0 ≡ 2
      → OnlyComplains sh (planned app socket p sh).1
  unfolding planned with_client
  planned_code socket (err c) sh h = (c, refl)
  planned_code socket (ok act) sh h =
      absurd (dialed_code socket act sh (app.dial socket sh.world) h)

  on_args_code :
      (verb : Verb) (flags : Flags) (args : List Text) (sh : Shell W)
      → (on_args app verb flags args sh).0 ≡ 2
      → OnlyComplains sh (on_args app verb flags args sh).1
  unfolding on_args
  on_args_code verb flags args sh h = elim (Bool-cases (ltb (length args) (arity verb))) [
    | inl few ↦ (Complaint.too_few verb, rw (on_args, few) refl)
    | inr enough ↦ elim (Bool-cases (not (exact_args args (arity verb)))) [
      | inl many ↦ (Complaint.too_many verb, rw (on_args, enough, many) refl)
      | inr exact ↦
          let p = plan app verb flags (arg args 0) (arg args 1) in
          rw (on_args, enough, exact)
            (planned_code flags.socket p sh (rw (on_args, enough, exact) at h))
    ]
  ]

  run_verb_code :
      (verb : Verb) (args : List Text) (sh : Shell W)
      → (run_verb app verb args sh).0 ≡ 2
      → OnlyComplains sh (run_verb app verb args sh).1
  unfolding run_verb
  run_verb_code verb args sh h =
      (elim (parse_args (app.parse verb) args default_flags)
          as (λ p.
            parse_args (app.parse verb) args default_flags ≡ p
            → OnlyComplains sh (run_verb app verb args sh).1) [
              | refused ↦ λ e. (Complaint.bad_flags, rw (run_verb, e) refl)
              | out_of_fuel ↦ λ e.
                  let three : (run_verb app verb args sh).0 ≡ 3 = rw (run_verb, e) refl in
                  absurd (omega (arith, h, three))
              | parsed flags rest ↦
                  λ e. rw (run_verb, e) (on_args_code verb flags rest sh (rw (run_verb, e) at h))
            ])
        refl

  run_version_code :
      (build : Text) (good : Bool) (sh : Shell W)
      → (run_version build good sh).0 ≡ 2
      → OnlyComplains sh (run_version build good sh).1
  unfolding run_version
  run_version_code build false sh h = (Complaint.bad_flags, refl)
  run_version_code build true sh h = absurd (omega (arith, h))

  module _ (build : Text) (parse_version : List Text → Bool)
      (lifecycle : Role → List Text → Shell W → ℕ × Shell W) where
    run_entry_code :
        (e : Entry) (sh : Shell W)
        → ((r : Role) (args : List Text) → e ≢ Entry.role r args)
        → (run_entry app build parse_version lifecycle e sh).0 ≡ 2
        → OnlyComplains sh (run_entry app build parse_version lifecycle e sh).1
    unfolding run_entry
    run_entry_code (Entry.verb v args) sh k h = run_verb_code v args sh h
    run_entry_code (Entry.role r args) sh k h = absurd (k r args refl)
    run_entry_code (Entry.version args) sh k h = run_version_code build (parse_version args) sh h
    run_entry_code Entry.help sh k h = absurd (omega (arith, h))
    run_entry_code (Entry.wrong c) sh k h = (c, refl)

    -- Exit code 2 means that nothing was done: for every argument list but those of server, tui and
    -- teardown, a run that ends with 2 has not dialed the daemon, has left the world as it was, and
    -- has only printed one complaint to stderr.
    pub run_refused :
        (args : List Text) (sh : Shell W)
        → ((r : Role) (rest : List Text) → entry_of args ≢ Entry.role r rest)
        → (run app build parse_version lifecycle args sh).0 ≡ 2
        → OnlyComplains sh (run app build parse_version lifecycle args sh).1
    unfolding run
    run_refused args sh k h = run_entry_code (entry_of args) sh k h
