-- ===== src/Store.antt =====
-- internal/store/store.go: the tables, and each method as the effect of its SQL statement. A fault
-- is an error that the driver or SQLite reports; a statement or transaction that fails leaves the
-- tables as they were.
pub mod Rows
pub mod Keeps
pub mod Changes
pub mod Intervals
pub mod Migrate
pub mod Opening
use nfuse.Base.{
  ℕ, suc, ◌%◌, ◌^◌, Bool, true, false, ◌&&◌, not, Option, none, some, List, [], ◌∷◌, ◌++◌, map,
  ◌==◌, if◌then◌else◌, keep, any, update_where, Result, ok, err,
}
use nfuse.Base.Int.{ℤ}
use nfuse.Base.Map.{Map, insert}
use nfuse.Base.Sort.{sort_by}
use nfuse.Base.Text.{Text, text_eq}
use nfuse.Base.Float64.{Float64}
use nfuse.Model.{
  Account, Port, Counter, CounterKey, Snapshot, Tier, Error, dir_in, dir_out, dir_eq,
  unique_constraint, foreign_key_constraint, key_eq_instance,
}

-- The rows stand in the order of their insertion. `last_account` and `last_port` are the largest
-- ids ever given (AUTOINCREMENT).
pub record Db : Type 0 where
  pub accounts : List Account
  pub last_account : ℕ
  pub ports : List Port
  pub last_port : ℕ
  pub counters : List Counter
  pub master : Option Text

abbrev pub Fault : Type 0
Fault = Option Error

abbrev checked {ℓ} : {A : Type ℓ} → Fault → Result Error A → Result Error A
checked (some e) r = err e
checked none r = r

-- The columns `port` and "end" are converted by uint16(…).
pub scan_port : Port → Port
scan_port p = record p { start = p.start % 2 ^ 16; end = p.end % 2 ^ 16 }

scan_counters : List Counter → Map CounterKey Counter → Map CounterKey Counter
scan_counters [] m = m
scan_counters (c ∷ rows) m =
    scan_counters rows (insert (record { port_id = c.port_id; dir = c.dir }) c m)

unfoldable pub load_rows : Db → Snapshot
unfolding scan_port scan_counters
load_rows db = record {
  accounts = sort_by (λ (a : Account). a.id) db.accounts;
  ports = sort_by (λ (p : Port). p.start) (map scan_port db.ports);
  counters = scan_counters db.counters [];
  now = none;
}

unfoldable pub load : Fault → Db → Result Error Snapshot
load fault db = checked fault (ok (load_rows db))

-- The row that CreateAccount inserts under a new id: usage starts at 0, the cycle starts now.
new_row : ℕ → ℤ → Account → Account
new_row id now a = record a { id = id; used_bytes = 0; last_reset_unix = now }

pub create_account : Fault → ℤ → Account → Db → Result Error (ℕ × Db)
unfolding new_row
create_account fault now a db = checked fault (
    if any (λ (b : Account). text_eq b.name a.name) db.accounts
    then err unique_constraint
    else ok (
      suc db.last_account,
      record db {
        accounts = db.accounts ++ new_row (suc db.last_account) now a ∷ [];
        last_account = suc db.last_account;
      },
    ))

-- `UPDATE accounts SET … WHERE id = ?`
unfoldable pub update_account : ℕ → (Account → Account) → Db → Db
update_account id f db = record db {
  accounts = update_where (λ (a : Account). a.id == id) f db.accounts;
}

unfoldable pub set_token : Fault → ℕ → Text → Db → Result Error Db
set_token fault id token db =
    checked fault (ok (update_account id (λ a. record a { token = token }) db))

unfoldable pub set_tier : Fault → ℕ → Tier → Float64 → ℤ → Db → Result Error Db
set_tier fault id tier limit anchor db = checked fault (
    ok (
      update_account id
        (λ a. record a { tier = tier; limit_gib = limit; billing_anchor_day = anchor }) db))

unfoldable pub set_expiry : Fault → ℕ → ℤ → Db → Result Error Db
set_expiry fault id expires db =
    checked fault (ok (update_account id (λ a. record a { expires_unix = expires }) db))

unfoldable pub set_usage : Fault → ℕ → ℕ → Db → Result Error Db
set_usage fault id used db =
    checked fault (ok (update_account id (λ a. record a { used_bytes = used }) db))

unfoldable pub mark_reset : Fault → ℕ → ℤ → Db → Result Error Db
mark_reset fault id now db =
    checked fault
      (ok (update_account id (λ a. record a { used_bytes = 0; last_reset_unix = now }) db))

-- "" if no row has the key.
unfoldable pub master_token : Fault → Db → Result Error Text
master_token fault db = checked fault (ok (elim db.master [ none ↦ [] | some t ↦ t ]))

unfoldable pub set_master_token : Fault → Text → Db → Result Error Db
set_master_token fault token db = checked fault (ok (record db { master = some token }))

-- The schema deletes the account's ports and their counters with it (ON DELETE CASCADE).
unfoldable pub delete_account : Fault → ℕ → Db → Result Error Db
delete_account fault id db = checked fault (
    ok (record db {
      accounts = keep (λ (a : Account). not (a.id == id)) db.accounts;
      ports = keep (λ (p : Port). not (p.account_id == id)) db.ports;
      counters =
          keep
            (λ (c : Counter).
              not (any (λ (p : Port). p.account_id == id && p.id == c.port_id) db.ports))
            db.counters;
    }))

-- The port and its two counters, in one transaction.
pub create_port : Fault → Port → Db → Result Error (ℕ × Db)
create_port fault p db = checked fault (
    if any (λ (a : Account). a.id == p.account_id) db.accounts
    then ok (
      suc db.last_port,
      record db {
        ports = db.ports ++ record p { id = suc db.last_port } ∷ [];
        last_port = suc db.last_port;
        counters =
            db.counters
            ++ record { port_id = suc db.last_port; dir = dir_in; packets = 0; bytes = 0 }
              ∷ record { port_id = suc db.last_port; dir = dir_out; packets = 0; bytes = 0 }
              ∷ [];
      },
    )
    else err foreign_key_constraint)

unfoldable pub delete_port : Fault → ℕ → Db → Result Error Db
delete_port fault id db = checked fault (
    ok (record db {
      ports = keep (λ (p : Port). not (p.id == id)) db.ports;
      counters = keep (λ (c : Counter). not (c.port_id == id)) db.counters;
    }))

-- `UPDATE ports SET … WHERE id = ?`
pub update_port : ℕ → (Port → Port) → Db → Db
update_port id f db = record db { ports = update_where (λ (p : Port). p.id == id) f db.ports }

-- The foreign key refuses an unknown account, if there is a row to change.
unfoldable pub move_port : Fault → ℕ → ℕ → Db → Result Error Db
move_port fault id account_id db = checked fault (
    if any (λ (p : Port). p.id == id) db.ports
      && not (any (λ (a : Account). a.id == account_id) db.accounts)
    then err foreign_key_constraint
    else ok (update_port id (λ p. record p { account_id = account_id }) db))

unfoldable pub edit_port : Fault → ℕ → ℕ → ℕ → Db → Result Error Db
edit_port fault id start end db =
    checked fault (ok (update_port id (λ p. record p { start = start; end = end }) db))

-- Go leaves the order of a range over a map open; the entries have different keys.
unfoldable pub persist_accounts : Map ℕ ℕ → List Account → List Account
persist_accounts [] rows = rows
persist_accounts ((id, used) ∷ m) rows =
    update_where (λ a. a.id == id) (λ a. record a { used_bytes = used }) (persist_accounts m rows)

unfoldable pub persist_counters : Map CounterKey Counter → List Counter → List Counter
persist_counters [] rows = rows
persist_counters ((key, c) ∷ m) rows =
    update_where (λ r. r.port_id == key.port_id && dir_eq r.dir key.dir)
      (λ r. record r { packets = c.packets; bytes = c.bytes }) (persist_counters m rows)

unfoldable pub persist_usage : Fault → Map ℕ ℕ → Map CounterKey Counter → Db → Result Error Db
unfolding persist_accounts persist_counters
persist_usage fault used counters db = checked fault (
    ok (record db {
      accounts = persist_accounts used db.accounts;
      counters = persist_counters counters db.counters;
    }))
