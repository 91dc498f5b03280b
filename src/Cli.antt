-- ===== src/Cli.antt =====
-- internal/cli/commands.go: how the commands read their arguments and find the account that is
-- meant.
pub mod Intervals
pub mod Resolve
pub mod Arguments
pub mod Report
pub mod Shell
pub mod Commands
pub mod Run
pub mod Exits
pub mod Effects
pub mod Lifecycle
use nfuse.Base.{
  ℕ, zero, suc, ◌+◌, ◌-◌, ◌^◌, Bool, true, false, not, ◌&&◌, ◌||◌, Option, none, some, List, [],
  ◌∷◌, ◌++◌, map, is_empty, keep, any, length, ltb, ◌==◌, if◌then◌else◌, Result, ok, err,
}
use nfuse.Base.Int.{ℤ, pos, negsuc, ltb_ℤ, leb_ℤ}
use nfuse.Base.Text.{Text, text_eq, trim_space}
use nfuse.Base.Decimal.{itoa, atoi}
use nfuse.Base.Float64.{Float64, le_zero}
use nfuse.Model.{Tier, valid, has_quota}
use nfuse.Rpc.{tier_of}
use nfuse.Engine.Views.{AccountView}

-- The messages of the commands.
pub data CliError : Type 0 where
  tier_required empty_port empty_reference : CliError
  invalid_tier no_limit : Tier → CliError
  invalid_port_id invalid_range invalid_bounds invalid_port : Text → CliError
  unreadable_list : Text → CliError
  ambiguous : Text → ℕ → CliError
  no_account_id : ℤ → CliError
  no_account_name : Text → CliError

-- The i-th positional argument, or the empty text.
unfoldable pub arg : List Text → ℕ → Text
arg [] i = []
arg (t ∷ rest) zero = t
arg (t ∷ rest) (suc i) = arg rest i

unfoldable pub exact_args : List Text → ℕ → Bool
exact_args args n = length args == n

pub parse_tier : Text → Result CliError Tier
parse_tier s =
    if is_empty s
    then err tier_required
    else if not (valid (tier_of s))
    then err (invalid_tier (tier_of s))
    else ok (tier_of s)

pub check_limit : Tier → Float64 → Option CliError
check_limit tier limit = if has_quota tier && le_zero limit then some (no_limit tier) else none

pub parse_port_id : Text → Result CliError ℤ
parse_port_id s = elim (atoi (trim_space s)) [
  | none ↦ err (invalid_port_id s)
  | some id ↦ if leb_ℤ id (pos 0) then err (invalid_port_id s) else ok id
]

-- What stands before and behind the first byte that is `c`.
cut : ℕ → Text → Option (Text × Text)
cut c [] = none
cut c (d ∷ s) =
    let later = cut c s in
    if d == c
    then some ([], s)
    else elim later [ none ↦ none | some (before, behind) ↦ some (d ∷ before, behind) ]

-- The conversion to uint16 of a number in the range that the code has tested.
to_uint16 : ℤ → ℕ
to_uint16 (pos n) = n
to_uint16 (negsuc n) = 0

-- Both ends of a range are numbers within 1 to 65535, in their order.
interval : Text → Option ℤ → Option ℤ → Result CliError (ℕ × ℕ)
unfolding to_uint16
interval s (some lo) (some hi) =
    if ltb_ℤ lo (pos 1) || ltb_ℤ (pos 65535) hi || ltb_ℤ hi lo
    then err (invalid_bounds s)
    else ok (to_uint16 lo, to_uint16 hi)
interval s (some lo) none = err (invalid_range s)
interval s none hi = err (invalid_range s)

single : Text → Option ℤ → Result CliError (ℕ × ℕ)
unfolding to_uint16
single s none = err (invalid_port s)
single s (some p) =
    if ltb_ℤ p (pos 1) || ltb_ℤ (pos 65535) p
    then err (invalid_port s)
    else ok (to_uint16 p, to_uint16 p)

parse_trimmed : Text → Result CliError (ℕ × ℕ)
unfolding cut interval single
parse_trimmed s = if is_empty s then err empty_port else elim (cut b'-' s) [
  | some (lo, hi) ↦ interval s (atoi (trim_space lo)) (atoi (trim_space hi))
  | none ↦ single s (atoi s)
]

pub parse_port_spec : Text → Result CliError (ℕ × ℕ)
unfolding parse_trimmed
parse_port_spec s = parse_trimmed (trim_space s)

-- An account list as the client has it: `none` for a list that could not be read.
abbrev Listing : Type 0
Listing = Option (List AccountView) × Text

pub views_of : Option (List AccountView) → List AccountView
views_of none = []
views_of (some l) = l

unfoldable pub named : Text → List AccountView → List ℕ
named ref accounts =
    map (λ (v : AccountView). v.account.id)
      (keep (λ (v : AccountView). text_eq v.account.name ref) accounts)

-- The id of a view that a numeral gives.
pub has_id : ℤ → List AccountView → Option ℕ
has_id (pos n) accounts =
    if any (λ (v : AccountView). v.account.id == n) accounts then some n else none
has_id (negsuc n) accounts = none

by_id : Text → List AccountView → Option ℤ → Result CliError ℕ
unfolding has_id
by_id ref accounts none = err (no_account_name ref)
by_id ref accounts (some id) = elim (has_id id accounts) [
  | some n ↦ ok n
  | none ↦ err (no_account_id id)
]

-- One match of the name, several, or none.
unfoldable pub pick : Text → List AccountView → List ℕ → Result CliError ℕ
unfolding by_id
pick ref accounts [] = by_id ref accounts (atoi ref)
pick ref accounts (id ∷ []) = ok id
pick ref accounts (id ∷ other ∷ rest) = err (ambiguous ref (length (id ∷ other ∷ rest)))

unfoldable pub resolve_trimmed : Listing → Text → Result CliError ℕ
unfolding pick
resolve_trimmed (none, c ∷ status) ref =
    if is_empty ref then err empty_reference else err (unreadable_list (c ∷ status))
resolve_trimmed (none, []) ref = if is_empty ref then err empty_reference else pick ref [] []
resolve_trimmed (some accounts, status) ref =
    if is_empty ref then err empty_reference else pick ref accounts (named ref accounts)

unfoldable pub resolve_account : Listing → Text → Result CliError ℕ
unfolding resolve_trimmed
resolve_account listing ref = resolve_trimmed listing (trim_space ref)
