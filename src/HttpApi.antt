-- ===== src/HttpApi.antt =====
-- internal/httpapi/httpapi.go: the read-only query of usage by token. net/http, net/url and the
-- encoding of JSON are not modelled: a request has its parsed query.
pub mod Paths
pub mod Queries
use nfuse.Base.{
  ℕ, ◌+◌, Bool, true, false, not, ◌&&◌, ◌||◌, Option, none, some, List, [], ◌∷◌, map, is_empty, any,
  ltb, leb, ◌==◌, if◌then◌else◌,
}
use nfuse.Base.Int.{ℤ, pos}
use nfuse.Base.Map.{Map, lookup}
use nfuse.Base.Text.{Text, codes, text_eq, text_eq_instance}
use nfuse.Base.Float64.{Float64}
use nfuse.Model.{Tier, has_quota, has_expiry, limit_bytes, describe}
use nfuse.Engine.Views.{PortView, AccountView, Grant}

pub record HttpRequest : Type 0 where
  pub method : Text
  pub path : Text
  pub query : Map Text (List Text)

pub record PortJson : Type 0 where
  pub start : ℕ
  pub end : ℕ
  pub in_bytes : ℕ
  pub out_bytes : ℕ

pub record AccountJson : Type 0 where
  pub name : Text
  pub tier : Tier
  pub limit_gib : Float64
  pub limit_bytes : ℕ
  pub used_bytes : ℕ
  pub breached : Bool
  pub expires_unix : ℤ
  pub expired : Bool
  pub ports : List PortJson

-- The text report of an account: the percentage of the quota, a float, is left out, and byte counts
-- and times stand as numbers.
pub data Mark : Type 0 where
  no_mark expired_mark breached_mark : Mark

pub data Block : Type 0 where
  limited : Text → Tier → (used limit : ℕ) → Option ℤ → Mark → List PortView → Block
  unmetered : Text → Tier → (used : ℕ) → List PortView → Block

pub data Body : Type 0 where
  not_allowed usage unknown_token : Body
  json : List AccountJson → Body
  report : List Block → Body

pub record HttpResponse : Type 0 where
  pub status : ℕ
  pub body : Body

-- strings.Trim(path, "/")
unfoldable pub drop_slashes : Text → Text
drop_slashes [] = []
drop_slashes (c ∷ s) = let rest = drop_slashes s in if c == b'/' then rest else c ∷ s

unfoldable pub trim_end : Text → Text
trim_end [] = []
trim_end (c ∷ s) = let rest = trim_end s in if is_empty rest && c == b'/' then [] else c ∷ rest

unfoldable pub first_segment : Text → Text
first_segment [] = []
first_segment (c ∷ s) = let rest = first_segment s in if c == b'/' then [] else c ∷ rest

unfoldable pub path_token : Text → Text
unfolding drop_slashes trim_end first_segment
path_token path = first_segment (trim_end (drop_slashes path))

-- q.Get: the first value of the key.
get_first : Text → Map Text (List Text) → Text
get_first key query = elim (lookup key query) [
  | none ↦ []
  | some values ↦ elim values [ [] ↦ [] | value ∷ rest ↦ value ]
]

-- strings.ToLower on ASCII letters.
lower : Text → Text
lower = map λ c. if leb b'A' c && leb c b'Z' then c + 32 else c

pub query_format : HttpRequest → Text
unfolding get_first lower
query_format r =
    if not (is_empty (get_first (codes "format") r.query))
    then lower (get_first (codes "format") r.query)
    else elim (lookup (codes "json") r.query) [ some v ↦ codes "json" | none ↦ codes "text" ]

unfoldable pub port_json : PortView → PortJson
port_json p = record {
  start = p.start;
  end = p.end;
  in_bytes = p.in_bytes;
  out_bytes = p.out_bytes;
}

module _ (convert : Float64 → ℕ) where
  -- By the live usage of the view.
  unfoldable pub breached : AccountView → Bool
  breached v = has_quota v.account.tier && leb (limit_bytes convert v.account) v.used_bytes

  unfoldable pub account_json : AccountView → AccountJson
  unfolding port_json breached
  account_json v = record {
    name = v.account.name;
    tier = v.account.tier;
    limit_gib = v.account.limit_gib;
    limit_bytes = limit_bytes convert v.account;
    used_bytes = v.used_bytes;
    breached = breached v;
    expires_unix = if has_expiry v.account then v.account.expires_unix else pos 0;
    expired = v.expired;
    ports = map port_json v.ports;
  }

  unfoldable pub block : AccountView → Block
  unfolding breached
  block v =
      if has_quota v.account.tier
      then limited v.account.name v.account.tier v.used_bytes (limit_bytes convert v.account)
          (if has_expiry v.account then some v.account.expires_unix else none)
          (if v.expired then expired_mark else if breached v then breached_mark else no_mark)
          v.ports
      else unmetered v.account.name v.account.tier v.used_bytes v.ports

  pub render_views : Text → List AccountView → Body
  unfolding account_json block
  render_views format views =
      if text_eq format (codes "json")
      then json (map account_json views)
      else report (map block views)

  -- One request, with what a token gives access to.
  unfoldable pub answer : (Text → Option Grant) → HttpRequest → HttpResponse
  unfolding render_views query_format path_token
  answer query r =
      if not (text_eq r.method (codes "GET")) && not (text_eq r.method (codes "HEAD"))
      then record { status = 405; body = not_allowed }
      else if is_empty (path_token r.path)
      then record { status = 404; body = usage }
      else elim (query (path_token r.path)) [
        | none ↦ record { status = 404; body = unknown_token }
        | some g ↦ record { status = 200; body = render_views (query_format r) g.0 }
      ]
