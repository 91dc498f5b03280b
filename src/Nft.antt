-- ===== src/Nft.antt =====
-- internal/nft/nft.go: the ruleset that a snapshot is rendered into, and the names of its objects.
pub mod Reading
pub mod Names
pub mod Rules
pub mod Treatment
pub mod Running
use nfuse.Base.{
  ℕ, ◌+◌, ◌-◌, ◌^◌, ◌<◌, Bool, true, false, ◌&&◌, ◌||◌, Option, none, some, List, [], ◌∷◌, ◌++◌,
  map, ltb, leb, ◌==◌, if◌then◌else◌, Result, ok, err,
}
use nfuse.Base.Int.{ℤ}
use nfuse.Base.Map.{Map, lookup, insert, nat_eq}
use nfuse.Base.Text.{Text, codes}
use nfuse.Base.Decimal.{itoa, scan_int}
use nfuse.Base.Float64.{Float64}
use nfuse.Base.Sort.{sort_by}
use nfuse.Model.{
  Account, Port, Counter, CounterKey, Direction, dir_in, dir_out, Snapshot, Error, key_eq_instance,
  expired_at, has_quota, limit_bytes, validate,
}
use nfuse.Engine.{Sample}

dir_text : Direction → Text
dir_text dir_in = codes "in"
dir_text dir_out = codes "out"

pub counter_name : CounterKey → Text
unfolding dir_text
counter_name k = codes "p" ++ (itoa k.port_id ++ (codes "_" ++ dir_text k.dir))

pub quota_name : ℕ → Text
quota_name id = codes "acct" ++ itoa id

-- What a rule does with the packets that it matches.
pub data Verdict : Type 0 where
  drops : Verdict
  quota_drops : ℕ → Verdict
  counts : CounterKey → Verdict

-- The lines of a script. A chain is that of a direction: ingress or egress.
pub data Command : Type 0 where
  add_table delete_table : Command
  add_quota : ℕ → ℕ → ℕ → Command
  add_counter : CounterKey → ℕ → ℕ → Command
  add_chain : Direction → Command
  add_rule : Direction → Port → Verdict → Command

unfoldable pub port_text : Port → Text
port_text p = if p.start == p.end then itoa p.start else itoa p.start ++ (codes "-" ++ itoa p.end)

-- The match on the destination port for ingress, on the source port for egress.
port_match : Direction → Port → Text
unfolding port_text
port_match dir_in p = codes "meta l4proto { tcp, udp } th dport " ++ port_text p
port_match dir_out p = codes "meta l4proto { tcp, udp } th sport " ++ port_text p

chain_text : Direction → Text
chain_text dir_in = codes "ingress"
chain_text dir_out = codes "egress"

verdict_text : Verdict → Text
unfolding counter_name quota_name
verdict_text drops = codes "drop"
verdict_text (quota_drops id) = codes "quota name \"" ++ (quota_name id ++ codes "\" drop")
verdict_text (counts k) = codes "counter name \"" ++ (counter_name k ++ codes "\"")

-- One line for a table and an interface.
render_command : Text → Text → Command → Text
unfolding counter_name quota_name port_match chain_text verdict_text
render_command table iface add_table = codes "add table netdev " ++ (table ++ codes "\n")
render_command table iface delete_table = codes "delete table netdev " ++ (table ++ codes "\n")
render_command table iface (add_quota id limit used) =
    codes "add quota netdev "
    ++ (table
        ++ (codes " "
            ++ (quota_name id
                ++ (codes " { over "
                    ++ (itoa limit
                        ++ (codes " bytes used " ++ (itoa used ++ codes " bytes }\n")))))))
render_command table iface (add_counter k packets bytes) =
    codes "add counter netdev "
    ++ (table
        ++ (codes " "
            ++ (counter_name k
                ++ (codes " { packets "
                    ++ (itoa packets ++ (codes " bytes " ++ (itoa bytes ++ codes " }\n")))))))
render_command table iface (add_chain d) =
    codes "add chain netdev "
    ++ (table
        ++ (codes " "
            ++ (chain_text d
                ++ (codes " { type filter hook "
                    ++ (chain_text d
                        ++ (codes " device \"" ++ (iface ++ codes "\" priority -500; }\n")))))))
render_command table iface (add_rule d p v) =
    codes "add rule netdev "
    ++ (table
        ++ (codes " "
            ++ (chain_text d
                ++ (codes " "
                    ++ (port_match d p ++ (codes " " ++ (verdict_text v ++ codes "\n")))))))

render : Text → Text → List Command → Text
unfolding render_command
render table iface [] = []
render table iface (c ∷ rest) = render_command table iface c ++ render table iface rest

-- The map from ids to accounts: the last account of an id.
pub last_account : ℕ → List Account → Option Account
last_account id [] = none
last_account id (a ∷ rest) =
    let here = if a.id == id then some a else none in
    elim (last_account id rest) [ some b ↦ some b | none ↦ here ]

counter_command : Map CounterKey Counter → ℕ → Direction → Command
counter_command counters port_id dir =
    let key : CounterKey = record { port_id = port_id; dir = dir } in
    elim (lookup key counters) [
      | some c ↦ add_counter key c.packets c.bytes
      | none ↦ add_counter key 0 0
    ]

pub counter_commands : Map CounterKey Counter → List Port → List Command
unfolding counter_command
counter_commands counters [] = []
counter_commands counters (p ∷ rest) =
    counter_command counters p.id dir_in
    ∷ counter_command counters p.id dir_out
    ∷ counter_commands counters rest

-- The verdicts of a port's rules in a direction: the breaker before the counter, or a drop alone for
-- an expired account. A port without an account has the zero account.
pub verdicts : Option ℤ → List Account → Port → Direction → List Verdict
unfolding last_account
verdicts now accounts p dir =
    let key : CounterKey = record { port_id = p.id; dir = dir } in
    elim (last_account p.account_id accounts) [
      | none ↦ counts key ∷ []
      | some a ↦
          if expired_at a now
          then drops ∷ []
          else if has_quota a.tier
          then quota_drops a.id ∷ counts key ∷ []
          else counts key ∷ []
    ]

port_rules : Option ℤ → List Account → Port → Direction → List Command
unfolding verdicts
port_rules now accounts p dir = map (add_rule dir p) (verdicts now accounts p dir)

pub rule_commands : Option ℤ → List Account → List Port → List Command
unfolding port_rules
rule_commands now accounts [] = []
rule_commands now accounts (p ∷ rest) =
    port_rules now accounts p dir_in
    ++ (port_rules now accounts p dir_out ++ rule_commands now accounts rest)

module _ (convert : Float64 → ℕ) where
  pub quota_commands : List Account → List Command
  quota_commands [] = []
  quota_commands (a ∷ rest) =
      let others = quota_commands rest in
      if has_quota a.tier
      then add_quota a.id (limit_bytes convert a) a.used_bytes ∷ others
      else others

  pub build_commands : Snapshot → List Command
  unfolding quota_commands counter_commands rule_commands
  build_commands s =
      let ports = sort_by (λ (p : Port). p.start) s.ports in
      add_table
      ∷ delete_table
      ∷ add_table
      ∷ (quota_commands s.accounts
          ++ (counter_commands s.counters ports
              ++ (add_chain dir_in ∷ add_chain dir_out ∷ rule_commands s.now s.accounts ports)))

  pub build_script : Text → Text → Snapshot → Text
  unfolding build_commands render
  build_script table iface s = render table iface (build_commands s)
