-- ===== src/Store/Migrate.antt =====
-- The migrations that Open of internal/store/store.go runs over a database of any age. Each statement is
-- committed by itself, so an error leaves what came before it.
pub mod Tokens
pub mod Found
pub mod Filled
pub mod Keeping
pub mod Ending
pub mod Upgrading
pub mod Current
pub mod Reopening
use nfuse.Base.{
  ℕ, ◌≡◌, refl, Bool, true, false, ◌&&◌, not, Option, none, some, List, [], ◌∷◌, map, is_empty,
  keep, any, ◌==◌, update_where, if◌then◌else◌, Result, ok, err,
}
use nfuse.Base.Int.{pos}
use nfuse.Base.Text.{Text, text_eq}
use nfuse.Model.{Account, Port, Error, out_of_reads}
use nfuse.Model.Token.{Reads, Draw, drew, failed, waiting, unique_token}
use nfuse.Store.{Db, Fault, update_account}

-- A database file: the tables, and which of the later columns they have. A column that is missing has
-- no meaning in `tables`. A table that is missing is an empty one.
pub record File : Type 0 where
  pub tables : Db
  pub accounts_there : Bool
  pub ports_there : Bool
  pub has_token : Bool
  pub has_expiry : Bool
  pub has_end : Bool

pub data Statement : Type 0 where
  schema end_info end_alter end_update expiry_info expiry_alter : Statement
  token_info token_alter used_tokens read_master write_master empty_tokens : Statement
  write_token : ℕ → Statement

-- The error of each statement, if it fails.
abbrev pub Faults : Type 0
Faults = Statement → Fault

-- The file as a step leaves it, and its error.
abbrev pub Migrated : Type 0
Migrated = Fault × File

abbrev pub guarded : Fault → File → File → Migrated
guarded (some e) before after = (some e, before)
guarded none before after = (none, after)

abbrev pub and_then : Migrated → (File → Migrated) → Migrated
and_then (some e, f) next = (some e, f)
and_then (none, f) next = next f

-- CREATE TABLE IF NOT EXISTS: a new table has every column. The one Exec of the schema counts as one
-- statement; SQLite may keep the first tables of it when a later one fails.
unfoldable pub create_schema : File → File
create_schema f = record f {
  accounts_there = true;
  ports_there = true;
  has_token = if f.accounts_there then f.has_token else true;
  has_expiry = if f.accounts_there then f.has_expiry else true;
  has_end = if f.ports_there then f.has_end else true;
}

-- ALTER TABLE … ADD COLUMN … DEFAULT, unless columnExists finds the column.
unfoldable pub add_end : File → File
add_end f = record f {
  has_end = true;
  tables = record f.tables { ports = map (λ (p : Port). record p { end = 0 }) f.tables.ports };
}

unfoldable pub add_expiry : File → File
add_expiry f = record f {
  has_expiry = true;
  tables = record f.tables {
    accounts = map (λ (a : Account). record a { expires_unix = pos 0 }) f.tables.accounts;
  };
}

unfoldable pub add_token : File → File
add_token f = record f {
  has_token = true;
  tables = record f.tables {
    accounts = map (λ (a : Account). record a { token = [] }) f.tables.accounts;
  };
}

unfoldable pub ensure_column : Fault → Fault → Bool → (File → File) → File → Migrated
ensure_column info alter has add f =
    and_then (guarded info f f) λ g. if has then (none, g) else guarded alter g (add g)

unfoldable pub fill_end : File → File
fill_end f = record f {
  tables = record f.tables {
    ports =
        update_where (λ (p : Port). p.end == 0) (λ p. record p { end = p.start }) f.tables.ports;
  };
}

unfoldable pub migrate_port_range : Faults → File → Migrated
unfolding add_end fill_end ensure_column
migrate_port_range faults f =
    and_then (ensure_column (faults end_info) (faults end_alter) f.has_end add_end f)
      λ g. guarded (faults end_update) g (fill_end g)

unfoldable pub migrate_expiry : Faults → File → Migrated
unfolding add_expiry ensure_column
migrate_expiry faults f =
    ensure_column (faults expiry_info) (faults expiry_alter) f.has_expiry add_expiry f

abbrev pub with_tables : File → Db → File
with_tables f db = record f { tables = db }

abbrev pub tokens_of : List Account → List Text
tokens_of accounts = keep (λ t. not (is_empty t)) (map (λ (a : Account). a.token) accounts)

abbrev pub without_token : List Account → List ℕ
without_token accounts =
    map (λ (a : Account). a.id) (keep (λ (a : Account). is_empty a.token) accounts)

unfoldable pub give_token : ℕ → Text → Db → Db
give_token id token = update_account id λ a. record a { token = token }

-- A drawn token is written by `next`, with the reads that are left.
unfoldable pub with_draw : {A : Type 0} → (Error → A) → (Text → Reads → A) → Draw → A
with_draw stop next (drew t reads) = next t reads
with_draw stop next (failed e) = stop e
with_draw stop next waiting = stop out_of_reads

-- One account after the other gets a token that is not in use.
unfoldable pub backfill : Faults → List ℕ → List Text → Reads → Db → Fault × Db
unfolding with_draw give_token
backfill faults [] used reads db = (none, db)
backfill faults (id ∷ rest) used reads db =
    with_draw (λ e. (some e, db))
      (λ t left.
        let done = backfill faults rest (t ∷ used) left (give_token id t db) in
        elim (faults (write_token id)) [ some e ↦ (some e, db) | none ↦ done ])
      (unique_token used reads)

unfoldable pub backfill_rest : Faults → List Text → Text → Reads → Db → Fault × Db
unfolding backfill
backfill_rest faults used master reads db = elim (faults empty_tokens) [
  | some e ↦ (some e, db)
  | none ↦ backfill faults (without_token db.accounts) (master ∷ used) reads db
]

-- "" if there is no row.
unfoldable pub stored_master : Db → Text
stored_master db = elim db.master [ none ↦ [] | some t ↦ t ]

unfoldable pub new_master : Faults → List Text → Reads → Db → Fault × Db
unfolding with_draw backfill_rest
new_master faults used reads db =
    with_draw (λ e. (some e, db))
      (λ t left. elim (faults write_master) [
        | some e ↦ (some e, db)
        | none ↦ backfill_rest faults used t left (record db { master = some t })
      ])
      (unique_token used reads)

unfoldable pub ensure_master : Faults → List Text → Reads → Db → Fault × Db
unfolding new_master backfill_rest stored_master
ensure_master faults used reads db = elim (faults read_master) [
  | some e ↦ (some e, db)
  | none ↦
      if is_empty (stored_master db)
      then new_master faults used reads db
      else backfill_rest faults used (stored_master db) reads db
]

unfoldable pub fill_tokens : Faults → Reads → Db → Fault × Db
unfolding ensure_master
fill_tokens faults reads db = elim (faults used_tokens) [
  | some e ↦ (some e, db)
  | none ↦ ensure_master faults (tokens_of db.accounts) reads db
]

unfoldable pub on_tables : (Db → Fault × Db) → File → Migrated
on_tables run f = ((run f.tables).0, with_tables f (run f.tables).1)

unfoldable pub ensure_tokens : Faults → Reads → File → Migrated
unfolding ensure_column fill_tokens on_tables
ensure_tokens faults reads f =
    and_then (ensure_column (faults token_info) (faults token_alter) f.has_token add_token f)
      (on_tables (fill_tokens faults reads))

unfoldable pub migrate : Faults → Reads → File → Migrated
unfolding create_schema migrate_port_range migrate_expiry ensure_tokens
migrate faults reads f =
    and_then
      (and_then (and_then (guarded (faults schema) f (create_schema f)) (migrate_port_range faults))
        (migrate_expiry faults))
      (ensure_tokens faults reads)
