-- ===== src/Model/Expiry.antt =====
-- ParseExpiry and FormatExpiry of internal/model/model.go. How package time reads a layout and
-- shows a time in a location are parameters.
use nfuse.Base.{
  ℕ, ◌+◌, ◌≡◌, Bool, true, ◌&&◌, ◌||◌, Option, none, some, List, [], ◌∷◌, map, leb, ◌==◌,
  if◌then◌else◌, is_empty, Bool-cases, Option-cases, inl, inr, arith,
}
use nfuse.Base.Int.{ℤ, pos, leb_ℤ}
use nfuse.Base.Text.{Text, codes, text_eq, trim_space}

-- A location of package time: time.ParseInLocation to a unix second, the hour, minute and second of
-- a unix second, and Format.
pub record Location : Type 0 where
  pub parse : Text → Text → Option ℤ
  pub clock : ℤ → ℕ × ℕ × ℕ
  pub format : Text → ℤ → Text

abbrev expiry_layouts : List Text
expiry_layouts =
    codes "2006-01-02"
    ∷ codes "2006-01-02 15:04"
    ∷ codes "2006-01-02T15:04"
    ∷ codes "2006-01-02 15:04:05"
    ∷ codes "2006-01-02T15:04:05"
    ∷ []

-- strings.ToLower on ASCII. No other letter has a lower case in the words that are asked for.
lower : ℕ → ℕ
lower c = if leb b'A' c && leb c b'Z' then c + 32 else c

is_never : Text → Bool
unfolding lower
is_never s =
    let word = map lower s in
    is_empty s
    || text_eq word (codes "0")
    || text_eq word (codes "never")
    || text_eq word (codes "none")

-- The first layout that reads the text decides; a time before 1970 is refused.
try_layouts : Location → Text → List Text → Option ℤ
try_layouts loc s [] = none
try_layouts loc s (layout ∷ rest) =
    let later = try_layouts loc s rest in
    elim (loc.parse layout s) [ none ↦ later | some t ↦ if leb_ℤ t (pos 0) then none else some t ]

-- `none` for a text that is no expiry; 0 for never.
pub parse_expiry : Location → Text → Option ℤ
unfolding is_never try_layouts
parse_expiry loc s =
    if is_never (trim_space s) then some (pos 0) else try_layouts loc (trim_space s) expiry_layouts

shown : Location → ℤ → ℕ × ℕ × ℕ → Text
shown loc unix (hour, minute, second) =
    if hour == 0 && minute == 0 && second == 0
    then loc.format (codes "2006-01-02") unix
    else if second == 0
    then loc.format (codes "2006-01-02 15:04") unix
    else loc.format (codes "2006-01-02 15:04:05") unix

pub format_expiry : Location → ℤ → Text
unfolding shown
format_expiry loc unix =
    if leb_ℤ unix (pos 0) then codes "never" else shown loc unix (loc.clock unix)

try_layouts-positive :
    (loc : Location) (s : Text) (layouts : List Text) (t : ℤ)
    → try_layouts loc s layouts ≡ some t
    → leb_ℤ (pos 0) t ≡ true
unfolding try_layouts
try_layouts-positive loc s [] t h = cc
try_layouts-positive loc s (layout ∷ rest) t h = elim (Option-cases (loc.parse layout s)) [
  | inl unread ↦ try_layouts-positive loc s rest t (rw (try_layouts, unread) at h)
  | inr (u, read) ↦ elim (Bool-cases (leb_ℤ u (pos 0))) [
    | inl early ↦ ground (arith, read, early)
    | inr late ↦ ground (arith, read, late)
  ]
]

-- An expiry that is read is never negative, whatever package time makes of the text: it is 0 for
-- never, or a time after 1970.
parse_expiry_bounds :
    (loc : Location) (s : Text) (t : ℤ) → parse_expiry loc s ≡ some t → leb_ℤ (pos 0) t ≡ true
unfolding parse_expiry
parse_expiry_bounds loc s t h = elim (Bool-cases (is_never (trim_space s))) [
  | inl never ↦ ground (arith, never)
  | inr timed ↦
      try_layouts-positive loc (trim_space s) expiry_layouts t (rw (parse_expiry, timed) at h)
]
