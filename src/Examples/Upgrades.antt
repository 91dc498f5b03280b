-- ===== src/Examples/Upgrades.antt =====
-- Examples of the theorems on the migrations of internal/store/store.go.
use nfuse.Base.{ok, some, [], ◌≡◌, refl, true, false, none, map}
use nfuse.Store.Migrate.{
  File, Faults, migrate, create_schema, migrate_port_range, migrate_expiry, ensure_tokens,
  ensure_column, add_end, add_expiry, add_token, fill_end, on_tables, fill_tokens, ensure_master,
  new_master, backfill_rest, backfill, with_draw, give_token, stored_master,
}
use nfuse.Store.{update_account}
use nfuse.Model.Token.{
  unique_token, unique_loop, retry, generate_token, fill, rejected, letter, get_or,
}
use nfuse.Base.Text.{text_eq, codes}
use nfuse.Model.{external}
use nfuse.Store.Migrate.Keeping.{without}
use nfuse.Store.Migrate.Upgrading.{IsFile, meant_port, meant_account, migrate_keeps}
use nfuse.Store.Migrate.Reopening.{IsDistinct}
use nfuse.Store.Opening.{Disk, open_store, close_store, after_migrate, open_handles, reopen}
use nfuse.Examples.{two_accounts, sixteen}

-- A file of the first version.
abbrev first_version : File
first_version = record {
  tables = record two_accounts { master = none };
  accounts_there = true;
  ports_there = true;
  has_token = true;
  has_expiry = false;
  has_end = false;
}

first_version-IsFile : IsFile first_version
first_version-IsFile = record { no_accounts = λ h. cc; no_ports = λ h. cc }

abbrev healthy : Faults
healthy s = none

first_version_migrated : (migrate healthy sixteen first_version).0 ≡ none
unfolding migrate create_schema migrate_port_range migrate_expiry ensure_tokens ensure_column
    add_end add_expiry add_token fill_end on_tables fill_tokens ensure_master new_master
    backfill_rest backfill with_draw give_token stored_master unique_token unique_loop retry
    generate_token fill rejected letter get_or text_eq update_account
first_version_migrated = refl

migrate_keeps_example :
    let after = (migrate healthy sixteen first_version).1.tables in
    (after.ports ≡ map (meant_port false) two_accounts.ports)
    × (map without after.accounts ≡ map without (map (meant_account false) two_accounts.accounts))
    × (after.counters ≡ two_accounts.counters)
migrate_keeps_example =
    migrate_keeps healthy sixteen first_version first_version-IsFile first_version_migrated

first_version-IsDistinct : IsDistinct first_version.tables
unfolding text_eq stored_master
first_version-IsDistinct = record {
  apart = (((refl, refl), tt), (tt, tt));
  others = ((λ e. e), ((λ e. e), tt));
}

abbrev full_disk : Faults
full_disk s = some (external (codes "database or disk is full"))

abbrev disk : Disk
disk = record { file = first_version; handles = 0 }

disk_opened : (open_store none healthy sixteen disk).0 ≡ ok tt
unfolding open_store after_migrate migrate create_schema migrate_port_range migrate_expiry
    ensure_tokens ensure_column add_end add_expiry add_token fill_end on_tables fill_tokens
    ensure_master new_master backfill_rest backfill with_draw give_token stored_master unique_token
    unique_loop retry generate_token fill rejected letter get_or text_eq update_account
disk_opened = refl

reopen_example :
    let closed = close_store (open_store none healthy sixteen disk).1 in
    ((open_store none full_disk [] closed).1.file ≡ closed.file)
    × ((open_store none full_disk [] closed).1.handles
        ≡ open_handles 0 (open_store none full_disk [] closed).0)
    × ((open_store none (λ s. none) [] closed).0 ≡ ok tt)
reopen_example =
    reopen none healthy sixteen disk first_version-IsDistinct disk_opened none full_disk []
