-- ===== src/Nft/Reading.antt =====
-- Sample and TableExists of internal/nft/nft.go: what is read from the output of the nft command,
-- which and whose output are not the program's.
use nfuse.Base.{
  ℕ, ◌+◌, Bool, true, false, ◌&&◌, ◌||◌, Option, none, some, List, [], ◌∷◌, map, leb, ◌==◌,
  if◌then◌else◌, Result, ok, err,
}
use mathlib.Core.List.{reverse}
use nfuse.Base.Map.{insert, nat_eq}
use nfuse.Base.Text.{Text, codes}
use nfuse.Base.Decimal.{scan_int}
use nfuse.Model.{CounterKey, dir_in, dir_out, key_eq_instance, Error}
use nfuse.Engine.{Sample}

-- strings.HasPrefix, with what follows the prefix.
unfoldable pub strip_prefix : Text → Text → Option Text
strip_prefix [] s = some s
strip_prefix (c ∷ p) [] = none
strip_prefix (c ∷ p) (d ∷ s) = let rest = strip_prefix p s in if c == d then rest else none

-- strings.HasSuffix and TrimSuffix.
unfoldable pub strip_suffix : Text → Text → Option Text
unfolding strip_prefix
strip_suffix suffix s = elim (strip_prefix (reverse suffix) (reverse s)) [
  | none ↦ none
  | some r ↦ some (reverse r)
]

unfoldable pub with_dir : CounterKey → Option ℕ → Option CounterKey
with_dir k none = none
with_dir k (some id) = some (record k { port_id = id })

unfoldable pub parse_counter_name : Text → Option CounterKey
unfolding strip_prefix strip_suffix with_dir
parse_counter_name name = elim (strip_prefix (codes "p") name) [
  | none ↦ none
  | some rest ↦ elim (strip_suffix (codes "_in") rest) [
    | some id ↦ with_dir (record { port_id = 0; dir = dir_in }) (scan_int id)
    | none ↦ elim (strip_suffix (codes "_out") rest) [
      | some id ↦ with_dir (record { port_id = 0; dir = dir_out }) (scan_int id)
      | none ↦ none
    ]
  ]
]

unfoldable pub parse_quota_name : Text → Option ℕ
unfolding strip_prefix
parse_quota_name name = elim (strip_prefix (codes "acct") name) [
  | none ↦ none
  | some rest ↦ scan_int rest
]

-- An entry of the parsed JSON list: a counter, a quota, or another object.
pub data Item : Type 0 where
  counter : Text → ℕ → ℕ → Item
  quota : Text → ℕ → Item
  other : Item

read_item : Item → Sample → Sample
unfolding parse_counter_name parse_quota_name
read_item (counter name packets bytes) s = elim (parse_counter_name name) [
  | none ↦ s
  | some key ↦ record s {
    counters =
        insert key
          (record { port_id = key.port_id; dir = key.dir; packets = packets; bytes = bytes })
          s.counters;
  }
]
read_item (quota name used) s = elim (parse_quota_name name) [
  | none ↦ s
  | some id ↦ record s { account_used = insert id used s.account_used }
]
read_item other s = s

read_items : List Item → Sample → Sample
unfolding read_item
read_items [] s = s
read_items (i ∷ rest) s = read_items rest (read_item i s)

pub read_list : List Item → Sample
unfolding read_items
read_list items = read_items items (record { counters = []; account_used = [] })

-- strings.ToLower on ASCII letters.
to_lower : Text → Text
to_lower = map λ c. if leb b'A' c && leb c b'Z' then c + 32 else c

-- strings.Contains.
contains : Text → Text → Bool
unfolding strip_prefix
contains p [] = elim (strip_prefix p []) [ some r ↦ true | none ↦ false ]
contains p (c ∷ s) =
    let later = contains p s in elim (strip_prefix p (c ∷ s)) [ some r ↦ true | none ↦ later ]

table_absent : Text → Bool
unfolding to_lower contains
table_absent stderr =
    contains (codes "no such file or directory") (to_lower stderr)
    || contains (codes "does not exist") (to_lower stderr)

-- A failed listing: only a non-zero exit that says that the table is absent is no error.
pub classify_table_exists : Bool → Text → Error → Result Error Bool
unfolding table_absent
classify_table_exists exit_error stderr e =
    if exit_error && table_absent stderr then ok false else err e
