-- ===== src/Model.antt =====
-- internal/model/model.go: tiers, accounts, ports, counters, the snapshot and its validation.
pub mod Ports
pub mod Validation
pub mod Size
pub mod Token
pub mod Expiry
use nfuse.Base.{
  ℕ, ◌+◌, ◌-◌, ◌^◌, ◌≡◌, ◌↔◌, arith, Bool, true, false, ◌&&◌, ◌||◌, not, Option, none, some, List,
  [], ◌∷◌, ◌++◌, ltb, leb, ◌==◌, if◌then◌else◌, keep, find, any, is_empty, Result, ok, err,
}
use nfuse.Base.Int.{ℤ, pos, negsuc, ltb_ℤ, leb_ℤ}
use nfuse.Base.Map.{Map, Eq, lookup, nat_eq}
use nfuse.Base.Text.{Text, codes, trim_space}
use nfuse.Base.Float64.{Float64, nan, inf, fin, le_zero, truncate}

-- A tier is a string; `other` is any string but "a", "b" and "c".
pub data Tier : Type 0 where
  monthly one_shot unlimited : Tier
  other : Text → Tier

unfoldable pub has_quota : Tier → Bool
has_quota monthly = true
has_quota one_shot = true
has_quota _ = false

pub resets : Tier → Bool
resets monthly = true
resets _ = false

unfoldable pub valid : Tier → Bool
valid (other s) = false
valid _ = true

pub describe : Tier → Text
describe monthly = codes "monthly"
describe one_shot = codes "one-shot"
describe unlimited = codes "unlimited"
describe (other s) = codes "unknown"

pub data Direction : Type 0 where
  dir_in dir_out : Direction

-- Ids are the positive row ids of SQLite.
pub record Account : Type 0 where
  pub id : ℕ
  pub name : Text
  pub tier : Tier
  pub limit_gib : Float64
  pub billing_anchor_day : ℤ
  pub used_bytes : ℕ
  pub last_reset_unix : ℤ
  pub token : Text
  pub expires_unix : ℤ

unfoldable pub has_expiry : Account → Bool
has_expiry a = has_quota a.tier && ltb_ℤ (pos 0) a.expires_unix

-- `none` is the zero time.
unfoldable pub expired_at : Account → Option ℤ → Bool
expired_at a none = false
expired_at a (some now) = has_expiry a && leb_ℤ a.expires_unix now

scale30 : ℤ → ℤ
scale30 (pos e) = pos (e + 30)
scale30 (negsuc e) = if leb e 29 then pos (29 - e) else negsuc (e - 30)

-- `convert` is what the platform makes of a value outside the range of uint64, which Go leaves open.
module _ (convert : Float64 → ℕ) where
  pub gib_to_bytes : Float64 → ℕ
  unfolding scale30
  gib_to_bytes nan = convert nan
  gib_to_bytes (inf b) = convert (inf b)
  gib_to_bytes (fin negative m e) =
      let n = truncate m (scale30 e) in
      if negative && not (n == 0) || leb (2 ^ 64) n then convert (fin negative m (scale30 e)) else n

  pub limit_bytes : Account → ℕ
  limit_bytes a = if not (has_quota a.tier) then 0 else gib_to_bytes a.limit_gib

  unfoldable pub breached : Account → Bool
  breached a = if not (has_quota a.tier) then false else leb (limit_bytes a) a.used_bytes

-- A port or a closed range of ports.
pub record Port : Type 0 where
  pub id : ℕ
  pub account_id : ℕ
  pub start : ℕ
  pub end : ℕ

unfoldable pub overlaps : Port → Port → Bool
overlaps p q = leb p.start q.end && leb q.start p.end

unfoldable pub valid_range : Port → Bool
valid_range p = leb 1 p.start && leb p.start p.end

pub record Counter : Type 0 where
  pub port_id : ℕ
  pub dir : Direction
  pub packets : ℕ
  pub bytes : ℕ

pub record CounterKey : Type 0 where
  pub port_id : ℕ
  pub dir : Direction

abbrev pub dir_eq : Direction → Direction → Bool
dir_eq dir_in dir_in = true
dir_eq dir_out dir_out = true
dir_eq _ _ = false

abbrev key_eq : CounterKey → CounterKey → Bool
key_eq j k = j.port_id == k.port_id && dir_eq j.dir k.dir

pub key_eq_iff : (j k : CounterKey) → (key_eq j k ≡ true) ↔ (j ≡ k)
key_eq_iff j k = ground arith

instance abbrev pub key_eq_instance : Eq CounterKey
key_eq_instance = record { beq = key_eq; beq_iff = key_eq_iff }

pub record Snapshot : Type 0 where
  pub accounts : List Account
  pub ports : List Port
  pub counters : Map CounterKey Counter
  pub now : Option ℤ

pub ports_for : List Port → ℕ → List Port
ports_for ports account_id = keep (λ p. p.account_id == account_id) ports

unfoldable pub account : List Account → ℕ → Option Account
account accounts id = find (λ a. a.id == id) accounts

-- The errors of the model, the store and the engine. `external` is a message of SQLite, of nft or of
-- the random source; the stages are the prefixes that the engine puts before the error of a step.
pub data Stage : Type 0 where
  load_state load_master probe_kernel sample_live persist_adopted apply_initial : Stage
  probe_table fresh_sample pre_persist reload apply_retried migrating : Stage

pub data Error : Type 0 where
  external : Text → Error
  unique_constraint foreign_key_constraint : Error
  account_tier : Text → Tier → Error
  account_limit : Text → Tier → Error
  unknown_account : Port → Error
  port_range : Port → Error
  port_overlap : Port → Port → Error
  empty_name : Error
  invalid_tier : Tier → Error
  limit_required : Tier → Error
  anchor_day : ℤ → Error
  still_owns : ℕ → Error
  no_account : ℕ → Error
  no_port : ℕ → Error
  overlaps_existing : Port → Port → Error
  invalid_expiry : ℤ → Error
  unlimited_expiry unlimited_usage no_quota : Text → Error
  wrapped : Stage → Error → Error
  -- No error of the program: the model's list of random reads has ended, and the loop reads on.
  out_of_reads : Error

-- Trims an account name, which must not be empty.
pub normalize_name : Text → Result Error Text
normalize_name name = let s = trim_space name in if is_empty s then err empty_name else ok s

validate_account : Account → Option Error
validate_account a =
    if not (valid a.tier)
    then some (account_tier a.name a.tier)
    else if has_quota a.tier && le_zero a.limit_gib
    then some (account_limit a.name a.tier)
    else none

pub validate_accounts : List Account → Option Error
unfolding validate_account
validate_accounts [] = none
validate_accounts (a ∷ rest) =
    let later = validate_accounts rest in
    elim (validate_account a) [ some e ↦ some e | none ↦ later ]

-- `seen` holds the ports before `p`, in order.
validate_port : List Account → List Port → Port → Option Error
validate_port accounts seen p =
    if not (any (λ a. a.id == p.account_id) accounts)
    then some (unknown_account p)
    else if not (valid_range p)
    then some (port_range p)
    else elim (find (overlaps p) seen) [ some q ↦ some (port_overlap p q) | none ↦ none ]

pub validate_ports : List Account → List Port → List Port → Option Error
unfolding validate_port
validate_ports accounts seen [] = none
validate_ports accounts seen (p ∷ rest) =
    let later = validate_ports accounts (seen ++ p ∷ []) rest in
    elim (validate_port accounts seen p) [ some e ↦ some e | none ↦ later ]

pub validate : Snapshot → Option Error
unfolding validate_accounts validate_ports
validate s = elim (validate_accounts s.accounts) [
  | some e ↦ some e
  | none ↦ validate_ports s.accounts [] s.ports
]
