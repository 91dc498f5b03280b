-- ===== src/Engine/Views.antt =====
-- The views of internal/engine/engine.go: desired state merged with the latest reading, and the
-- query by token.
use nfuse.Base.{
  ℕ, ◌+◌, ◌%◌, ◌^◌, Bool, true, false, ◌&&◌, not, Option, none, some, List, [], ◌∷◌, map, is_empty,
  find, any, ◌==◌, if◌then◌else◌,
}
use nfuse.Base.Map.{Map, lookup, nat_eq}
use nfuse.Base.Text.{Text, text_eq}
use nfuse.Model.{
  Account, Port, Counter, CounterKey, Direction, dir_in, dir_out, key_eq_instance, ports_for,
  has_quota,
}
use nfuse.Engine.{Manager, Controller, Sample}

pub record PortView : Type 0 where
  pub port_id : ℕ
  pub start : ℕ
  pub end : ℕ
  pub in_bytes : ℕ
  pub out_bytes : ℕ

pub record AccountView : Type 0 where
  pub account : Account
  pub used_bytes : ℕ
  pub expired : Bool
  pub ports : List PortView

-- A missing counter reads as 0.
live_bytes : Map CounterKey Counter → ℕ → Direction → ℕ
live_bytes counters port_id dir = elim (lookup (record { port_id = port_id; dir = dir }) counters) [
  | some c ↦ c.bytes
  | none ↦ 0
]

view_port : Map CounterKey Counter → Port → PortView
unfolding live_bytes
view_port counters p = record {
  port_id = p.id;
  start = p.start;
  end = p.end;
  in_bytes = live_bytes counters p.id dir_in;
  out_bytes = live_bytes counters p.id dir_out;
}

-- The sum of a uint64 wraps around.
pub sum_bytes : List PortView → ℕ
sum_bytes [] = 0
sum_bytes (v ∷ rest) = (v.in_bytes + v.out_bytes + sum_bytes rest) % 2 ^ 64

live_used : Map ℕ ℕ → Account → ℕ
live_used used a = elim (lookup a.id used) [ some u ↦ u | none ↦ a.used_bytes ]

unfoldable pub view_account : Sample → List ℕ → List Port → Account → AccountView
unfolding view_port live_used
view_account live expired ports a =
    let views = map (view_port live.counters) (ports_for ports a.id) in
    record {
      account = a;
      used_bytes = if has_quota a.tier then live_used live.account_used a else sum_bytes views;
      expired = any (λ id. id == a.id) expired;
      ports = views;
    }

-- What a token gives access to: the views, and whether they are all.
abbrev pub Grant : Type 0
Grant = List AccountView × Bool

unfoldable pub first_view : ℕ → List AccountView → Option AccountView
first_view id = find (λ v. v.account.id == id)

-- An account that has the token gives the view of its id.
unfoldable pub account_grant : Text → List AccountView → List Account → Option Grant
unfolding first_view
account_grant token views [] = none
account_grant token views (a ∷ rest) =
    let next = account_grant token views rest in
    if not (is_empty a.token) && text_eq token a.token
    then elim (first_view a.id views) [ some v ↦ some (v ∷ [], false) | none ↦ next ]
    else next

module _ (m : Manager) where
  unfoldable pub view_locked : Controller m → List AccountView
  view_locked c = map (view_account c.live c.expired c.snap.ports) c.snap.accounts

  pub view : Controller m → List AccountView × Text
  view c = (view_locked c, c.last_err)

  -- `none` for an empty or unknown token.
  unfoldable pub query_by_token : Controller m → Text → Option Grant
  unfolding account_grant
  query_by_token c token =
      if is_empty token
      then none
      else if not (is_empty c.master_token) && text_eq token c.master_token
      then some (view_locked c, true)
      else account_grant token (view_locked c) c.snap.accounts
