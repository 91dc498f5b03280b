-- ===== src/Model/Token.antt =====
-- Query tokens: GenerateToken of internal/model/model.go, and the loop that draws until the token
-- is new (uniqueToken of internal/store/store.go, uniqueTokenLocked of internal/engine/engine.go).
-- The reads of crypto/rand are a list: a byte or an error for each call, in order.
pub mod Fresh
use nfuse.Base.{
  ℕ, zero, suc, ◌+◌, ◌-◌, ◌%◌, ◌≤◌, ◌<◌, ◌≡◌, refl, ◌⊎◌, inl, inr, Bool, true, false, ◌&&◌, not,
  Option, none, some, List, [], ◌∷◌, ◌++◌, arith, ltb, leb, ◌==◌, if◌then◌else◌, length,
  length-append, any, All, All-append, Result, ok, err,
}
use nfuse.Base.Text.{Text, codes, text_eq}
use nfuse.Model.{Error}

abbrev token_length : ℕ
token_length = 16

abbrev pub token_alphabet : Text
token_alphabet = codes "ABCDEFGHIJKLMNOPQRSTUVWXYZabcdefghijklmnopqrstuvwxyz"

-- The largest multiple of the alphabet's size that fits in a byte.
abbrev max_byte : ℕ
max_byte = 256 - 256 % 52

unfoldable pub get_or : Text → ℕ → ℕ
get_or [] i = 0
get_or (c ∷ s) zero = c
get_or (c ∷ s) (suc i) = get_or s i

-- The reads that would make some letters likelier than others.
unfoldable pub rejected : ℕ → Bool
rejected b = leb max_byte b

abbrev pub Reads : Type 0
Reads = List (Result Error ℕ)

-- A token with the reads that are left, the error of a read, or a loop that still waits for reads.
pub data Draw : Type 0 where
  drew : Text → Reads → Draw
  failed : Error → Draw
  waiting : Draw

unfoldable pub letter : ℕ → ℕ
unfolding get_or
letter b = get_or token_alphabet (b % 52)

-- The loop of GenerateToken: `out` holds the letters so far, `left` counts those that are missing.
unfoldable pub fill : ℕ → Text → Reads → Draw
unfolding letter rejected
fill zero out reads = drew out reads
fill (suc left) out [] = waiting
fill (suc left) out (err e ∷ reads) = failed e
fill (suc left) out (ok b ∷ reads) =
    let again = fill (suc left) out reads in
    let next = fill left (out ++ letter b ∷ []) reads in if rejected b then again else next

unfoldable pub generate_token : Reads → Draw
unfolding fill
generate_token reads = fill token_length [] reads

-- One round of the loop on its draw: a token in use is drawn `again`.
unfoldable pub retry : List Text → (Reads → Draw) → Draw → Draw
retry used again (drew t rest) = elim (any (text_eq t) used) [
  | true ↦ again rest
  | false ↦ drew t rest
]
retry used again (failed e) = failed e
retry used again waiting = waiting

-- With one round of fuel for each draw.
unfoldable pub unique_loop : ℕ → List Text → Reads → Draw
unfolding generate_token retry
unique_loop zero used reads = waiting
unique_loop (suc fuel) used reads = retry used (unique_loop fuel used) (generate_token reads)

-- Every draw takes a read, so this fuel lasts as long as the reads.
unfoldable pub unique_token : List Text → Reads → Draw
unfolding unique_loop
unique_token used reads = unique_loop (suc (length reads)) used reads
