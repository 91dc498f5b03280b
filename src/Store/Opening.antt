-- ===== src/Store/Opening.antt =====
-- Open and Close of internal/store/store.go: the handle of the database and the migrations behind it. What
-- sql.Open says is a parameter.
use nfuse.Base.{ℕ, suc, ◌-◌, ◌≡◌, refl, sym, ap, ◌∙◌, none, some, Result, ok, err, arith}
use mathlib.Core.Path.{subst}
use nfuse.Model.{Error, wrapped, migrating}
use nfuse.Model.Token.{Reads}
use nfuse.Store.{Fault}
use nfuse.Store.Migrate.{File, Faults, Migrated, migrate}
use nfuse.Store.Migrate.Current.{migrate-Leaves}
use nfuse.Store.Migrate.Reopening.{IsDistinct, migrated-IsCurrent}

-- A database file with the number of handles that are open on it.
pub record Disk : Type 0 where
  pub file : File
  pub handles : ℕ

pub close_store : Disk → Disk
close_store d = record d { handles = d.handles - 1 }

unfoldable pub after_migrate : Disk → Migrated → Result Error (Unit {0}) × Disk
unfolding close_store
after_migrate d (some e, f) = (err (wrapped migrating e), close_store (record d { file = f }))
after_migrate d (none, f) = (ok tt, record d { file = f })

unfoldable pub open_store : Fault → Faults → Reads → Disk → Result Error (Unit {0}) × Disk
unfolding after_migrate
open_store (some e) faults reads d = (err e, d)
open_store none faults reads d =
    after_migrate (record d { handles = suc d.handles }) (migrate faults reads d.file)

-- The handles after an attempt to open one more.
abbrev pub open_handles : ℕ → Result Error (Unit {0}) → ℕ
open_handles n (ok x) = suc n
open_handles n (err e) = n

after_migrate_lem :
    (d : Disk) (r : Migrated) (f : File)
    → r.1 ≡ f
    → let opened = after_migrate (record d { handles = suc d.handles }) r in
      (opened.1.file ≡ f) × (opened.1.handles ≡ open_handles d.handles opened.0)
unfolding after_migrate close_store
after_migrate_lem d (some e, g) f h = (h, omega arith)
after_migrate_lem d (none, g) f h = (h, refl)

-- Every attempt leaves a handle open exactly if it succeeds.
open_store_lem :
    (sql : Fault) (faults : Faults) (reads : Reads) (d : Disk) (f : File)
    → (migrate faults reads d.file).1 ≡ f
    → d.file ≡ f
    → let opened = open_store sql faults reads d in
      (opened.1.file ≡ f) × (opened.1.handles ≡ open_handles d.handles opened.0)
unfolding open_store
open_store_lem (some e) faults reads d f h k = (k, refl)
open_store_lem none faults reads d f h k = after_migrate_lem d (migrate faults reads d.file) f h

after_migrate_done :
    (d : Disk) (r : Migrated)
    → (after_migrate d r).0 ≡ ok tt
    → (r.0 ≡ none) × ((after_migrate d r).1 ≡ record d { file = r.1 })
unfolding after_migrate
after_migrate_done d (some e, f) h = cc
after_migrate_done d (none, f) h = (refl, refl)

open_store_done :
    (sql : Fault) (faults : Faults) (reads : Reads) (d : Disk)
    → (open_store sql faults reads d).0 ≡ ok tt
    → ((migrate faults reads d.file).0 ≡ none)
      × (close_store (open_store sql faults reads d).1
          ≡ record d { file = (migrate faults reads d.file).1 })
unfolding open_store close_store
open_store_done (some e) faults reads d h = cc
open_store_done none faults reads d h =
    let done =
      after_migrate_done (record d { handles = suc d.handles }) (migrate faults reads d.file) h in
    let one_less : suc d.handles - 1 ≡ d.handles = omega arith in
    (
      done.0,
      ap close_store done.1
          ∙ ap (λ n. record d { file = (migrate faults reads d.file).1; handles = n }) one_less,
    )

after_none : (d : Disk) (r : Migrated) → r.0 ≡ none → (after_migrate d r).0 ≡ ok tt
unfolding after_migrate
after_none d (some e, f) h = cc
after_none d (none, f) h = refl

-- A database that no other process writes.
module _ (sql : Fault) (faults : Faults) (reads : Reads) (d : Disk) where
  -- Once Open has succeeded on a file of any age in which no two accounts share an id or a token that is
  -- not empty, and none has the master token, and the store is closed, Open never changes the file
  -- again, whether it succeeds or not; it leaves one handle more open exactly if it succeeds; and it
  -- succeeds where sql.Open and the statements do.
  pub reopen :
      IsDistinct d.file.tables
      → (open_store sql faults reads d).0 ≡ ok tt
      → (later_sql : Fault) (later : Faults) (more : Reads)
      → let closed = close_store (open_store sql faults reads d).1 in
        ((open_store later_sql later more closed).1.file ≡ closed.file)
        × ((open_store later_sql later more closed).1.handles
            ≡ open_handles d.handles (open_store later_sql later more closed).0)
        × ((open_store none (λ s. none) more closed).0 ≡ ok tt)
  unfolding open_store
  reopen distinct opened later_sql later more =
      let (ended, closed) = open_store_done sql faults reads d opened in
      let current = migrated-IsCurrent faults reads d.file distinct ended in
      let after = record d { file = (migrate faults reads d.file).1 } in
      let again =
        open_store_lem later_sql later more after after.file
          (migrate-Leaves later more after.file current).0 refl in
      let quiet = (migrate-Leaves (λ s. none) more after.file current).1 (λ s. refl) in
      subst
        (λ c.
          ((open_store later_sql later more c).1.file ≡ c.file)
          × ((open_store later_sql later more c).1.handles
              ≡ open_handles d.handles (open_store later_sql later more c).0)
          × ((open_store none (λ s. none) more c).0 ≡ ok tt))
        (sym closed)
        (
          again.0,
          again.1,
          after_none (record after { handles = suc after.handles })
              (migrate (λ s. none) more after.file) quiet,
        )
