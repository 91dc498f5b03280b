-- ===== src/Base/Decimal.antt =====
-- Decimal numerals: what fmt's %d prints, and how fmt's Sscanf and strconv read it back.
use Prim.Native.Nat.{ℕ, zero, suc, ◌+◌, ◌-◌, ◌*◌, ◌/◌, ◌%◌, ◌^◌, ◌<◌}
use mathlib.Core.Path.{◌≡◌, refl, ◌∙◌, sym, ap}
use mathlib.Core.Bool.{Bool, true, false, ◌&&◌}
use mathlib.Core.Option.{Option, none, some}
use mathlib.Core.List.{[], ◌∷◌, ◌++◌, append-nil}
use mathlib.Core.Logic.{inl, inr}
use native.Mathlib.Omega.{arith}
use nfuse.Base.Tests.{ltb, leb, ◌==◌, lt→ltb, if◌then◌else◌, Bool-cases}
use nfuse.Base.Lists.{All, All-append}
use nfuse.Base.Int.{ℤ, pos, negsuc}
use nfuse.Base.Text.{Text}

-- The digits of a number, with fuel above it.
unfoldable pub digits : ℕ → ℕ → Text
digits zero n = []
digits (suc fuel) n =
    let rest = digits fuel (n / 10) ++ (b'0' + n % 10) ∷ [] in
    if ltb n 10 then (b'0' + n) ∷ [] else rest

unfoldable pub itoa : ℕ → Text
unfolding digits
itoa n = digits (suc n) n

unfoldable pub is_digit : ℕ → Bool
is_digit c = leb b'0' c && leb c b'9'

-- The number that a text begins with, and what follows its digits; `seen` holds the digits so far.
unfoldable pub read_digits : ℕ → Text → ℕ × Text
unfolding is_digit
read_digits n [] = (n, [])
read_digits n (c ∷ s) =
    let next = read_digits (n * 10 + (c - b'0')) s in if is_digit c then next else (n, c ∷ s)

abbrev pub IsDigit : ℕ → Type 0
IsDigit c = is_digit c ≡ true

abbrev pub NoDigit : Text → Type 0
NoDigit [] = Unit {0}
NoDigit (c ∷ s) = is_digit c ≡ false

digits-IsDigit : (fuel n : ℕ) → All IsDigit (digits fuel n)
unfolding digits is_digit
digits-IsDigit zero n = tt
digits-IsDigit (suc fuel) n = elim (Bool-cases (ltb n 10)) [
  | inl small ↦ rw small (ground arith, tt)
  | inr big ↦ rw big (
      All-append (λ c. is_digit c ≡ true) (digits fuel (n / 10)) _ (digits-IsDigit fuel (n / 10))
        (ground arith, tt))
]

-- The value of a run of digits after `n`.
value : ℕ → Text → ℕ
value n [] = n
value n (c ∷ s) = value (n * 10 + (c - b'0')) s

value-append : (n : ℕ) (s t : Text) → value n (s ++ t) ≡ value (value n s) t
unfolding value
value-append n [] t = refl
value-append n (c ∷ s) t = value-append (n * 10 + (c - b'0')) s t

value-digits : (fuel n : ℕ) → n < fuel → value 0 (digits fuel n) ≡ n
unfolding value digits
value-digits zero n h = absurd (omega arith)
value-digits (suc fuel) n h = elim (Bool-cases (ltb n 10)) [
  | inl small ↦ rw small (omega arith)
  | inr big ↦ rw big (
      value-append 0 (digits fuel (n / 10)) ((b'0' + n % 10) ∷ [])
      ∙ ground (arith, value-digits fuel (n / 10)))
]

read_digits-append :
    (n : ℕ) (s t : Text) → All IsDigit s → NoDigit t → read_digits n (s ++ t) ≡ (value n s, t)
unfolding read_digits value
read_digits-append n [] [] h k = refl
read_digits-append n [] (c ∷ t) h k = rw k refl
read_digits-append n (c ∷ s) t h k = rw h.0 (read_digits-append (n * 10 + (c - b'0')) s t h.1 k)

-- What %d prints is read back, up to a following text that begins with no digit.
read_digits-itoa : (n : ℕ) (t : Text) → NoDigit t → read_digits 0 (itoa n ++ t) ≡ (n, t)
unfolding itoa
read_digits-itoa n t k =
    read_digits-append 0 (digits (suc n) n) t (digits-IsDigit (suc n) n) k
    ∙ ap (λ (m : ℕ). (m, t)) (value-digits (suc n) n (omega arith))

digits_first : (fuel n : ℕ) → n < fuel → (c : ℕ) × (s : Text) × (digits fuel n ≡ c ∷ s) × IsDigit c
unfolding digits is_digit
digits_first zero n h = absurd (omega arith)
digits_first (suc fuel) n h = elim (Bool-cases (ltb n 10)) [
  | inl small ↦ (b'0' + n, [], rw small refl, ground arith)
  | inr big ↦
      let (c, s, e, d) = digits_first fuel (n / 10) (ground arith) in
      (c, s ++ (b'0' + n % 10) ∷ [], rw (big, e) refl, d)
]

-- A numeral begins with a digit.
pub itoa_first : (n : ℕ) → (c : ℕ) × (s : Text) × (itoa n ≡ c ∷ s) × IsDigit c
unfolding itoa
itoa_first n = digits_first (suc n) n (omega arith)

-- What Sscanf reads by %d into an int64: leading spaces and a plus sign are skipped, at least one
-- digit follows, and what stands behind the digits is left alone. Ids are positive: a minus sign is
-- refused here, where the code reads an id that no row has.
skip_spaces : Text → Text
skip_spaces [] = []
skip_spaces (c ∷ s) = let rest = skip_spaces s in if c == b' ' then rest else c ∷ s

skip_plus : Text → Text
skip_plus [] = []
skip_plus (c ∷ s) = if c == b'+' then s else c ∷ s

scan_number : Text → Option ℕ
scan_number [] = none
scan_number (c ∷ s) =
    let n = (read_digits 0 (c ∷ s)).0 in
    if is_digit c then (if ltb n (2 ^ 63) then some n else none) else none

pub scan_int : Text → Option ℕ
unfolding skip_spaces skip_plus scan_number
scan_int s = scan_number (skip_plus (skip_spaces s))

skips_lem : (c : ℕ) (s : Text) → IsDigit c → skip_plus (skip_spaces (c ∷ s)) ≡ c ∷ s
unfolding is_digit skip_spaces skip_plus
skips_lem c s d = ground arith

scan_number_lem :
    (c : ℕ) (s : Text) (n : ℕ) (t : Text)
    → IsDigit c
    → read_digits 0 (c ∷ s) ≡ (n, t)
    → n < 2 ^ 63
    → scan_number (c ∷ s) ≡ some n
unfolding scan_number
scan_number_lem c s n t d e h = rw (e, d, lt→ltb n (2 ^ 63) h, scan_number) refl

-- Sscanf reads back what Sprintf prints for an int64 that is not negative.
pub scan_int-itoa : (n : ℕ) (t : Text) → n < 2 ^ 63 → NoDigit t → scan_int (itoa n ++ t) ≡ some n
unfolding scan_int
scan_int-itoa n t h k =
    let (c, s, e, d) = itoa_first n in
    rw e (
      ap scan_number (skips_lem c (s ++ t) d)
      ∙ scan_number_lem c (s ++ t) n t d (rw e at (read_digits-itoa n t k)) h)

-- strconv.Atoi and ParseInt by base 10: a sign or none, then digits alone, in the range of an int64.
all_read : ℕ × Text → Option ℕ
all_read (n, []) = some n
all_read (n, c ∷ rest) = none

whole_number : Text → Option ℕ
unfolding all_read
whole_number [] = none
whole_number (c ∷ s) = all_read (read_digits 0 (c ∷ s))

non_negative : Option ℕ → Option ℤ
non_negative none = none
non_negative (some n) = if ltb n (2 ^ 63) then some (pos n) else none

negative : Option ℕ → Option ℤ
negative none = none
negative (some zero) = some (pos 0)
negative (some (suc n)) = if ltb n (2 ^ 63) then some (negsuc n) else none

pub atoi : Text → Option ℤ
unfolding whole_number non_negative negative
atoi [] = none
atoi (c ∷ s) =
    if c == b'-'
    then negative (whole_number s)
    else if c == b'+'
    then non_negative (whole_number s)
    else non_negative (whole_number (c ∷ s))

pub itoa-IsDigit : (n : ℕ) → All IsDigit (itoa n)
unfolding itoa
itoa-IsDigit n = digits-IsDigit (suc n) n

atoi_digits :
    (c : ℕ) (s : Text) (n : ℕ)
    → IsDigit c
    → read_digits 0 (c ∷ s) ≡ (n, [])
    → n < 2 ^ 63
    → atoi (c ∷ s) ≡ some (pos n)
unfolding atoi is_digit whole_number all_read non_negative
atoi_digits c s n d e h =
    let small = lt→ltb n (2 ^ 63) h in let read = ap all_read e in ground (arith, small, read)

-- Atoi reads back what Itoa prints for an int64 that is not negative.
pub atoi-itoa : (n : ℕ) → n < 2 ^ 63 → atoi (itoa n) ≡ some (pos n)
atoi-itoa n h =
    let (c, s, e, d) = itoa_first n in
    rw e (
      atoi_digits c s n d
        (rw e at (ap (λ t. read_digits 0 t) (sym (append-nil (itoa n))) ∙ read_digits-itoa n [] tt))
        h)
