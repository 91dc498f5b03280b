-- ===== src/Examples.antt =====
-- A small installation for the examples: a kernel that keeps what it is given, a database of two
-- accounts and one port, and the controller over them.
pub mod Engines
pub mod Rows
pub mod Wire
pub mod Plain
pub mod Loopback
pub mod Clients
pub mod Shells
pub mod Ticks
pub mod Upgrades
pub mod Hosts
pub mod Daemons
pub mod Tables
pub mod Sockets
pub mod Stops
use nfuse.Base.{
  ℕ, ◌<◌, ◌≡◌, refl, sym, Bool, true, false, Option, none, some, List, [], ◌∷◌, map, arith, Result,
  ok, err,
}
use nfuse.Base.Int.{ℤ, pos}
use nfuse.Base.Text.{Text, codes}
use nfuse.Base.Float64.{Float64, fin, le_zero}
use nfuse.Model.{
  Account, Port, Counter, CounterKey, Snapshot, Tier, one_shot, unlimited, dir_in, dir_out, Error,
  external, valid, has_quota, valid_range,
}
use nfuse.Store.{Db, Fault, load_rows}
use nfuse.Store.Rows.{DbIsValid, ports-load_rows}
use nfuse.Base.Sort.{sort_by, insert_by}
use nfuse.Engine.{Manager, State, Controller, Env, Sample}
use nfuse.Engine.Invariant.{Inv}

-- A kernel with its table, and whether it refuses rulesets.
pub record FakeKernel : Type 0 where
  pub table : Option Sample
  pub refuses : Bool

abbrev pub seeded : Snapshot → Sample
seeded s = record {
  counters = s.counters;
  account_used = map (λ (a : Account). (a.id, a.used_bytes)) s.accounts;
}

abbrev fake_apply : Snapshot → FakeKernel → Fault × FakeKernel
fake_apply s k = elim k.refuses [
  | true ↦ (some (external (codes "refused")), k)
  | false ↦ (none, record { table = some (seeded s); refuses = false })
]

abbrev pub fake_sample : FakeKernel → Result Error Sample
fake_sample k = elim k.table [ none ↦ err (external (codes "no table")) | some r ↦ ok r ]

abbrev pub fake_exists : FakeKernel → Result Error Bool
fake_exists k = elim k.table [ none ↦ ok false | some r ↦ ok true ]

abbrev pub fake : Manager
fake = record {
  Kernel = FakeKernel;
  apply = fake_apply;
  sample = fake_sample;
  table_exists = fake_exists;
  teardown = λ k. (none, record { table = none; refuses = k.refuses });
}

abbrev pub alice : Account
alice = record {
  id = 1;
  name = codes "alice";
  tier = one_shot;
  limit_gib = fin false 1 (pos 0);
  billing_anchor_day = pos 1;
  used_bytes = 10;
  last_reset_unix = pos 0;
  token = codes "abc";
  expires_unix = pos 0;
}

abbrev pub bob : Account
bob = record {
  id = 2;
  name = codes "bob";
  tier = unlimited;
  limit_gib = fin false 0 (pos 0);
  billing_anchor_day = pos 1;
  used_bytes = 0;
  last_reset_unix = pos 0;
  token = codes "xyz";
  expires_unix = pos 0;
}

abbrev pub web : Port
web = record { id = 1; account_id = 1; start = 80; end = 90 }

abbrev pub two_accounts : Db
two_accounts = record {
  accounts = alice ∷ bob ∷ [];
  last_account = 2;
  ports = web ∷ [];
  last_port = 1;
  counters = [];
  master = some (codes "master");
}

abbrev pub reading : Sample
reading = record { counters = []; account_used = (1, 500) ∷ [] }

abbrev pub running : FakeKernel
running = record { table = some reading; refuses = false }

abbrev pub refusing : FakeKernel
refusing = record { table = some reading; refuses = true }

abbrev pub controller_on : FakeKernel → Controller fake
controller_on k = record {
  db = two_accounts;
  kernel = k;
  snap = record {
    accounts = alice ∷ bob ∷ [];
    ports = web ∷ [];
    counters = [];
    now = some (pos 1500);
  };
  live = record { counters = []; account_used = [] };
  last_err = [];
  started_at = pos 1000;
  last_persist = none;
  master_token = codes "master";
  gen = 0;
  expired = [];
  unsynced = false;
}

-- Sixteen random bytes, each an "A".
abbrev sixteen : List (Result Error ℕ)
sixteen =
    ok 0
    ∷ ok 0
    ∷ ok 0
    ∷ ok 0
    ∷ ok 0
    ∷ ok 0
    ∷ ok 0
    ∷ ok 0
    ∷ ok 0
    ∷ ok 0
    ∷ ok 0
    ∷ ok 0
    ∷ ok 0
    ∷ ok 0
    ∷ ok 0
    ∷ ok 0
    ∷ []

abbrev pub calm : Env
calm = record {
  now = pos 2000;
  apply_now = pos 2000;
  persist_fault = none;
  write_fault = none;
  load_fault = none;
  reads = sixteen;
}

pub two_accounts-DbIsValid : DbIsValid two_accounts
unfolding valid has_quota le_zero valid_range
two_accounts-DbIsValid = record {
  accounts_ascend = ground arith;
  ports_ascend = ground arith;
  accounts_valid = ((refl, refl), ((refl, refl), tt));
  ports_valid = ((refl, refl, ground arith), tt);
  disjoint = (tt, tt);
}

pub controller_on-Inv : (k : FakeKernel) → Inv (controller_on k)
unfolding sort_by insert_by
controller_on-Inv k = record {
  db_valid = two_accounts-DbIsValid;
  ports_synced = sym (ports-load_rows two_accounts two_accounts-DbIsValid);
}
