-- ===== src/Cli/Intervals.antt =====
-- The port numbers and ranges of internal/cli/commands.go: parsePortSpec and portSpecString.
use nfuse.Base.{
  ℕ, ◌^◌, ◌≤◌, ◌<◌, ◌≡◌, refl, ap, ◌∙◌, inl, inr, true, false, Option, none, some, [], ◌∷◌, ◌++◌,
  is_empty, ◌==◌, ==_iff, arith, Result, ok, All, All-mono, All-append, Bool-cases, Option-cases,
}
use nfuse.Base.Int.{ℤ, pos, negsuc}
use nfuse.Base.Text.{Text, trim_space, trim_space_lem, is_space}
use nfuse.Base.Decimal.{itoa, atoi, atoi-itoa, IsDigit, is_digit, itoa-IsDigit, itoa_first}
use nfuse.Model.{Port, valid_range}
use nfuse.Nft.{port_text}
use nfuse.Cli.{CliError, cut, interval, single, to_uint16, parse_trimmed, parse_port_spec}

digit_no_space : (c : ℕ) → IsDigit c → is_space c ≡ false
unfolding is_digit is_space
digit_no_space c h = ground arith

itoa_no_space : (n : ℕ) → All (λ c. is_space c ≡ false) (itoa n)
itoa_no_space n = All-mono digit_no_space (itoa n) (itoa-IsDigit n)

cut-digits : (s t : Text) → All IsDigit s → cut b'-' (s ++ b'-' ∷ t) ≡ some (s, t)
unfolding cut is_digit
cut-digits [] t h = refl
cut-digits (c ∷ s) t h = let ih = cut-digits s t h.1 in ground (arith, ih, h.0)

cut-none : (s : Text) → All IsDigit s → cut b'-' s ≡ none
unfolding cut is_digit
cut-none [] h = refl
cut-none (c ∷ s) h = let ih = cut-none s h.1 in ground (arith, ih, h.0)

interval_bounds :
    (s : Text) (lo hi : Option ℤ) (a b : ℕ)
    → interval s lo hi ≡ ok (a, b)
    → (1 ≤ a) × (a ≤ b) × (b ≤ 65535)
unfolding interval to_uint16
interval_bounds s (some (pos lo)) (some (pos hi)) a b h = ground (arith, h)
interval_bounds s (some (negsuc lo)) (some hi) a b h = ground (arith, h)
interval_bounds s (some (pos lo)) (some (negsuc hi)) a b h = ground (arith, h)
interval_bounds s (some lo) none a b h = cc
interval_bounds s none hi a b h = cc

single_bounds :
    (s : Text) (p : Option ℤ) (a b : ℕ) → single s p ≡ ok (a, b) → (1 ≤ a) × (a ≤ b) × (b ≤ 65535)
unfolding single to_uint16
single_bounds s (some (pos p)) a b h = ground (arith, h)
single_bounds s (some (negsuc p)) a b h = ground (arith, h)
single_bounds s none a b h = cc

-- Whatever parsePortSpec accepts is a range of port numbers from 1 to 65535 in their order.
parse_port_spec_bounds :
    (s : Text) (a b : ℕ) → parse_port_spec s ≡ ok (a, b) → (1 ≤ a) × (a ≤ b) × (b ≤ 65535)
unfolding parse_port_spec parse_trimmed
parse_port_spec_bounds s a b h = elim (Bool-cases (is_empty (trim_space s))) [
  | inl empty ↦ cc
  | inr full ↦ elim (Option-cases (cut b'-' (trim_space s))) [
    | inl one ↦ single_bounds (trim_space s) (atoi (trim_space s)) a b (rw (full, one) at h)
    | inr ((lo, hi), range) ↦
        interval_bounds (trim_space s) (atoi (trim_space lo)) (atoi (trim_space hi)) a b
          (rw (full, range) at h)
  ]
]

range_no_space : (a b : ℕ) → All (λ c. is_space c ≡ false) (itoa a ++ b'-' ∷ itoa b)
unfolding is_space
range_no_space a b =
    All-append (λ c. is_space c ≡ false) (itoa a) (b'-' ∷ itoa b) (itoa_no_space a)
      (refl, itoa_no_space b)

itoa_full : (n : ℕ) → is_empty (itoa n) ≡ false
itoa_full n = let (c, s, e, d) = itoa_first n in rw e refl

range_full : (s : Text) (c : ℕ) (t : Text) → is_empty (s ++ c ∷ t) ≡ false
range_full [] c t = refl
range_full (d ∷ s) c t = refl

trimmed_single : (n : ℕ) → 1 ≤ n → n < 2 ^ 16 → parse_trimmed (itoa n) ≡ ok (n, n)
unfolding parse_trimmed single to_uint16
trimmed_single n h k =
    rw (itoa_full n, cut-none (itoa n) (itoa-IsDigit n), atoi-itoa n (omega arith))
      (ground (arith, h, k))

trimmed_range :
    (a b : ℕ) → 1 ≤ a → a ≤ b → b < 2 ^ 16 → parse_trimmed (itoa a ++ b'-' ∷ itoa b) ≡ ok (a, b)
unfolding parse_trimmed interval to_uint16
trimmed_range a b h k l =
    rw
      (
        range_full (itoa a) b'-' (itoa b),
        cut-digits (itoa a) (itoa b) (itoa-IsDigit a),
        trim_space_lem (itoa a) (itoa_no_space a),
        trim_space_lem (itoa b) (itoa_no_space b),
        atoi-itoa a (omega arith),
        atoi-itoa b (omega arith),
      )
      (ground (arith, h, k, l))

parse_untrimmed :
    (t : Text) (r : Result CliError (ℕ × ℕ))
    → All (λ c. is_space c ≡ false) t
    → parse_trimmed t ≡ r
    → parse_port_spec t ≡ r
unfolding parse_port_spec
parse_untrimmed t r h e = ap parse_trimmed (trim_space_lem t h) ∙ e

port_text-single : (p : Port) → (p.start == p.end) ≡ true → port_text p ≡ itoa p.start
unfolding port_text
port_text-single p h = rw h refl

port_text-range :
    (p : Port) → (p.start == p.end) ≡ false → port_text p ≡ itoa p.start ++ b'-' ∷ itoa p.end
unfolding port_text
port_text-range p h = rw h refl

-- The text of a well-formed range of uint16 port numbers is read back to the range.
pub parse_port_spec-port_text :
    (p : Port)
    → valid_range p ≡ true
    → p.end < 2 ^ 16
    → parse_port_spec (port_text p) ≡ ok (p.start, p.end)
unfolding valid_range
parse_port_spec-port_text p h k = elim (Bool-cases (p.start == p.end)) [
  | inl same ↦ rw (port_text-single p same) (
      parse_untrimmed (itoa p.start) (ok (p.start, p.end)) (itoa_no_space p.start) (
        trimmed_single p.start (ground (arith, h)) (ground (arith, h, k))
        ∙ ap (λ e. ok (p.start, e)) ((==_iff p.start p.end).0 same)))
  | inr other ↦ rw (port_text-range p other) (
      parse_untrimmed (itoa p.start ++ b'-' ∷ itoa p.end) (ok (p.start, p.end))
        (range_no_space p.start p.end)
        (trimmed_range p.start p.end (ground (arith, h)) (ground (arith, h)) k))
]
