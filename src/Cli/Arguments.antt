-- ===== src/Cli/Arguments.antt =====
-- parseArgs of internal/cli/cli.go: flags and positional arguments in any order. One flag.Parse, up
-- to the next positional argument, is a parameter.
use nfuse.Base.{
  ℕ, zero, suc, ◌≤◌, ◌<◌, ◌≡◌, ◌≢◌, refl, ap, Option, none, some, List, [], ◌∷◌, length, arith,
  Option-cases, inl, inr,
}
use nfuse.Base.Text.{Text}

-- flag.Parse sets flags and leaves the arguments from the first positional one on; `none` is an
-- error.
abbrev pub FlagParser : Type 0 → Type 0
FlagParser F = List Text → F → Option (F × List Text)

pub data Parsed (F : Type 0) : Type 0 where
  refused : Parsed F
  parsed : F → List Text → Parsed F
  -- No outcome of the program: the loop's fuel has ended.
  out_of_fuel : Parsed F

unfoldable pub prepend : {F : Type 0} → Text → Parsed F → Parsed F
prepend t refused = refused
prepend t (parsed flags args) = parsed flags (t ∷ args)
prepend t out_of_fuel = out_of_fuel

prepend_ends : {F : Type 0} (t : Text) (p : Parsed F) → p ≢ out_of_fuel → prepend t p ≢ out_of_fuel
unfolding prepend
prepend_ends t refused h e = cc
prepend_ends t (parsed flags args) h e = cc
prepend_ends t out_of_fuel h e = h e

module _ {F : Type 0} (parse : FlagParser F) where
  unfoldable pub parse_loop : ℕ → List Text → F → Parsed F
  parse_loop zero args flags = out_of_fuel
  parse_loop (suc fuel) args flags = elim (parse args flags) [
    | none ↦ refused
    | some (set, left) ↦ elim left [
      | [] ↦ parsed set []
      | t ∷ rest ↦ prepend t (parse_loop fuel rest set)
    ]
  ]

  -- Each round takes an argument, so one round more than there are arguments is enough.
  unfoldable pub parse_args : List Text → F → Parsed F
  unfolding parse_loop
  parse_args args flags = parse_loop (suc (length args)) args flags

  -- flag.Parse leaves no more arguments than it is given.
  abbrev pub Shrinks : Type 0
  Shrinks =
      (args : List Text) (flags set : F) (left : List Text)
      → parse args flags ≡ some (set, left)
      → length left ≤ length args

  module _ (shrinks : Shrinks) where
    loop_ends :
        (fuel : ℕ) (args : List Text) (flags : F)
        → length args < fuel
        → parse_loop fuel args flags ≢ out_of_fuel
    unfolding parse_loop
    loop_ends zero args flags h = absurd (omega arith)
    loop_ends (suc fuel) args flags h = elim (Option-cases (parse args flags)) [
      | inl failed ↦ rw (parse_loop, failed) λ e. cc
      | inr ((set, []), read) ↦ rw (parse_loop, read) λ e. cc
      | inr ((set, t ∷ rest), read) ↦
          let less = shrinks args flags set (t ∷ rest) read in
          rw (parse_loop, read)
            (prepend_ends t (parse_loop fuel rest set) (loop_ends fuel rest set (omega arith)))
    ]

    loop_same :
        (m n : ℕ) (args : List Text) (flags : F)
        → length args < m
        → length args < n
        → parse_loop m args flags ≡ parse_loop n args flags
    unfolding parse_loop
    loop_same zero n args flags h k = absurd (omega arith)
    loop_same (suc m) zero args flags h k = absurd (omega arith)
    loop_same (suc m) (suc n) args flags h k = elim (Option-cases (parse args flags)) [
      | inl failed ↦ rw (parse_loop, failed) refl
      | inr ((set, []), read) ↦ rw (parse_loop, read) refl
      | inr ((set, t ∷ rest), read) ↦
          let less = shrinks args flags set (t ∷ rest) read in
          rw (parse_loop, read)
            (ap (prepend t) (loop_same m n rest set (omega arith) (omega arith)))
    ]

    -- The loop over flag.Parse ends, within one round more than there are arguments: it returns
    -- the positional arguments or the error of flag.Parse, and more rounds would change nothing,
    -- if flag.Parse never leaves more arguments than it is given.
    pub parse_args_ends :
        (args : List Text) (flags : F)
        → (parse_args args flags ≢ out_of_fuel)
          × ((fuel : ℕ) → length args < fuel → parse_loop fuel args flags ≡ parse_args args flags)
    unfolding parse_args
    parse_args_ends args flags = (
      loop_ends (suc (length args)) args flags (omega arith),
      λ fuel h. loop_same fuel (suc (length args)) args flags h (omega arith),
    )
