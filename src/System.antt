-- ===== src/System.antt =====
-- internal/system/system.go: the kernel version and the check that it has the egress hook. The contents of
-- /proc/sys/kernel/osrelease are a parameter.
use nfuse.Base.{
  ℕ, ◌^◌, ◌≤◌, ◌<◌, ◌≡◌, ◌↔◌, sym, ap, ◌∙◌, ◌⊎◌, refl, Bool, not, ◌&&◌, ◌||◌, Option, none, some,
  [], ◌∷◌, ◌++◌, arith, ◌==◌, if◌then◌else◌, Result, ok, err, All, Bool-cases, inl, inr,
}
use mathlib.Core.Path.{subst}
use nfuse.Base.Int.{ℤ, pos, ltb_ℤ}
use nfuse.Base.Text.{Text, trim_space}
use nfuse.Base.Decimal.{atoi, itoa, is_digit, IsDigit, NoDigit, itoa-IsDigit, atoi-itoa}
use nfuse.Model.{Error}

pub data SystemError : Type 0 where
  unreadable : Error → SystemError
  unrecognized bad_major bad_minor too_old : Text → SystemError

-- The parts of strings.SplitN(s, ".", 3): up to the first dot, and between it and the second.
before_dot : Text → Text
before_dot [] = []
before_dot (c ∷ s) = let rest = before_dot s in if c == b'.' then [] else c ∷ rest

after_dot : Text → Option Text
after_dot [] = none
after_dot (c ∷ s) = let later = after_dot s in if c == b'.' then some s else later

-- Up to the first character that is no digit.
leading_digits : Text → Text
leading_digits [] = []
leading_digits (c ∷ s) = let rest = leading_digits s in if is_digit c then c ∷ rest else []

versions : Text → Text → Option ℤ → Option ℤ → Result SystemError (ℤ × ℤ)
versions raw minor none n = err (bad_major raw)
versions raw minor (some major) none = err (bad_minor raw)
versions raw minor (some major) (some n) = ok (major, n)

version_of : Text → Result SystemError (ℤ × ℤ)
unfolding before_dot after_dot leading_digits versions
version_of raw = elim (after_dot raw) [
  | none ↦ err (unrecognized raw)
  | some rest ↦
      versions raw (before_dot rest) (atoi (before_dot raw))
        (atoi (leading_digits (before_dot rest)))
]

with_text : Text → Result SystemError (ℤ × ℤ) → Result SystemError ((ℤ × ℤ) × Text)
with_text raw (err e) = err e
with_text raw (ok v) = ok (v, raw)

-- KernelVersion: the version with its text.
pub kernel_version : Result Error Text → Result SystemError ((ℤ × ℤ) × Text)
unfolding version_of with_text
kernel_version (err e) = err (unreadable e)
kernel_version (ok contents) = let raw = trim_space contents in with_text raw (version_of raw)

old : ℤ × ℤ → Bool
old (major, minor) = ltb_ℤ major (pos 5) || not (ltb_ℤ (pos 5) major) && ltb_ℤ minor (pos 16)

judged : Result SystemError ((ℤ × ℤ) × Text) → Option SystemError
unfolding old
judged (err e) = some e
judged (ok v) = if old v.0 then some (too_old v.1) else none

-- CheckNetdevEgress.
pub check_netdev_egress : Result Error Text → Option SystemError
unfolding kernel_version judged
check_netdev_egress contents = judged (kernel_version contents)

-- Digits are no dots.
cut_digits :
    (s t : Text)
    → All IsDigit s
    → (before_dot (s ++ b'.' ∷ t) ≡ s) × (after_dot (s ++ b'.' ∷ t) ≡ some t)
unfolding before_dot after_dot is_digit
cut_digits [] t h = (refl, refl)
cut_digits (c ∷ s) t h =
    let ih = cut_digits s t h.1 in
    let digit = h.0 in (ground (arith, digit, ih.0), ground (arith, digit, ih.1))

minor_digits : (s t : Text) → All IsDigit s → NoDigit t → leading_digits (before_dot (s ++ t)) ≡ s
unfolding before_dot leading_digits is_digit
minor_digits [] [] h k = refl
minor_digits [] (c ∷ t) h k = elim (Bool-cases (c == b'.')) [
  | inl dot ↦ rw dot refl
  | inr other ↦ ground (arith, k, other)
]
minor_digits (c ∷ s) t h k =
    let ih = minor_digits s t h.1 k in let digit = h.0 in ground (arith, digit, ih)

version_lem :
    (a b : ℕ) (tail : Text)
    → a < 2 ^ 63
    → b < 2 ^ 63
    → NoDigit tail
    → version_of (itoa a ++ (b'.' ∷ (itoa b ++ tail))) ≡ ok (pos a, pos b)
unfolding version_of versions
version_lem a b tail ha hb k =
    let first = cut_digits (itoa a) (itoa b ++ tail) (itoa-IsDigit a) in
    rw
      (
        version_of,
        first.1,
        first.0,
        atoi-itoa a ha,
        minor_digits (itoa b) tail (itoa-IsDigit b) k,
        atoi-itoa b hb,
      )
      refl

judged_iff :
    (a b : ℕ) (raw : Text)
    → (judged (ok ((pos a, pos b), raw)) ≡ none) ↔ ((5 < a) ⊎ (a ≡ 5) × (16 ≤ b))
unfolding judged old
judged_iff a b raw = ground arith

-- A kernel that calls itself "A.B", with anything behind that is no digit, passes the check exactly if
-- its version is at least 5.16.
pub check_netdev_egress_iff :
    (a b : ℕ) (tail contents : Text)
    → a < 2 ^ 63
    → b < 2 ^ 63
    → NoDigit tail
    → trim_space contents ≡ itoa a ++ (b'.' ∷ (itoa b ++ tail))
    → (check_netdev_egress (ok contents) ≡ none) ↔ ((5 < a) ⊎ (a ≡ 5) × (16 ≤ b))
unfolding check_netdev_egress kernel_version with_text
check_netdev_egress_iff a b tail contents ha hb k trimmed =
    subst (λ r. (judged r ≡ none) ↔ ((5 < a) ⊎ (a ≡ 5) × (16 ≤ b)))
      (sym (
        ap (with_text (trim_space contents))
          (ap version_of trimmed ∙ version_lem a b tail ha hb k)))
      (judged_iff a b (trim_space contents))
