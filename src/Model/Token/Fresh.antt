-- ===== src/Model/Token/Fresh.antt =====
-- What a drawn token is: sixteen unbiased letters, and not one of the tokens in use.
use nfuse.Base.{
  ℕ, zero, suc, ◌+◌, ◌%◌, ◌∙◌, ◌≤◌, ◌<◌, ◌≡◌, refl, ◌⊎◌, Bool, true, false, ◌&&◌, not, List, [],
  ◌∷◌, ◌++◌, arith, leb, ◌==◌, ==_iff, if◌then◌else◌, length, length-append, any, All, All-append,
  ok, err, inl, inr, Bool-cases,
}
use nfuse.Base.Text.{Text, text_eq}
use nfuse.Model.Token.{
  Reads, Draw, drew, failed, waiting, get_or, token_alphabet, letter, rejected, fill,
  generate_token, retry, unique_loop, unique_token,
}

abbrev IsLetter : ℕ → Type 0
IsLetter c = ((leb b'A' c && leb c b'Z') ≡ true) ⊎ ((leb b'a' c && leb c b'z') ≡ true)

-- How many of the numbers below the bound fail a test.
failures : (ℕ → Bool) → ℕ → ℕ
failures test zero = 0
failures test (suc i) = (if test i then 0 else 1) + failures test i

no_failure : (test : ℕ → Bool) (bound i : ℕ) → failures test bound ≡ 0 → i < bound → test i ≡ true
unfolding failures
no_failure test zero i none_fails small = absurd (omega arith)
no_failure test (suc bound) i none_fails small =
    let below = no_failure test bound i in ground (arith, none_fails, small, below)

is_letter : ℕ → Bool
is_letter i =
    let c = get_or token_alphabet i in
    if leb b'A' c && leb c b'Z' then true else leb b'a' c && leb c b'z'

is_letter_table : failures is_letter 52 ≡ 0
unfolding failures is_letter get_or
is_letter_table = refl

letter-IsLetter : (b : ℕ) → IsLetter (letter b)
unfolding letter is_letter
letter-IsLetter b =
    let h = no_failure is_letter 52 (b % 52) is_letter_table (omega arith) in ground arith

-- The number of accepted bytes below `n` that give the letter `c`.
abbrev count_bytes : ℕ → ℕ → ℕ
count_bytes zero c = 0
count_bytes (suc n) c = count_bytes n c + (if not (rejected n) && letter n == c then 1 else 0)

unbiased_table : failures (λ i. count_bytes 256 (get_or token_alphabet i) == 4) 52 ≡ 0
unfolding failures rejected letter get_or
unbiased_table = refl

-- Each of the 52 letters is the letter of exactly four of the bytes that are not rejected.
letter_unbiased : (i : ℕ) → i < 52 → count_bytes 256 (get_or token_alphabet i) ≡ 4
letter_unbiased i h =
    (==_iff _ 4).0
      (no_failure (λ k. count_bytes 256 (get_or token_alphabet k) == 4) 52 i unbiased_table h)

-- A finished loop has filled all the letters and has used a read for each.
record IsFilled (left : ℕ) (out : Text) (reads : Reads) (t : Text) (rest : Reads) : Type 0 where
  size : length t ≡ length out + left
  letters : All IsLetter out → All IsLetter t
  reads_used : length rest + left ≤ length reads

fill-IsFilled :
    (left : ℕ) (out : Text) (reads : Reads) {t : Text} {rest : Reads}
    → fill left out reads ≡ drew t rest
    → IsFilled left out reads t rest
unfolding fill
fill-IsFilled zero out reads e = ground arith
fill-IsFilled (suc left) out [] e = cc
fill-IsFilled (suc left) out (err x ∷ reads) e = cc
fill-IsFilled (suc left) out (ok b ∷ reads) {t} {rest} e = elim (Bool-cases (rejected b)) [
  | inl r ↦
      let ih = fill-IsFilled (suc left) out reads {t = t} {rest = rest} (ground arith) in
      record { size = ih.size; letters = ih.letters; reads_used = omega arith }
  | inr r ↦
      let ih =
        fill-IsFilled left (out ++ letter b ∷ []) reads {t = t} {rest = rest} (ground arith) in
      record {
        size = omega (arith, ih.size, length-append out (letter b ∷ []));
        letters =
            λ h. ih.letters (All-append IsLetter out (letter b ∷ []) h (letter-IsLetter b, tt));
        reads_used = omega (arith, ih.reads_used);
      }
]

-- A token that GenerateToken returns has sixteen characters, all of them ASCII letters.
generate_token_shape :
    (reads rest : Reads) (t : Text)
    → generate_token reads ≡ drew t rest
    → (length t ≡ 16) × All IsLetter t
unfolding generate_token
generate_token_shape reads rest t e =
    let filled = fill-IsFilled 16 [] reads e in (filled.size ∙ omega arith, filled.letters tt)

-- What a draw that ends owes: a token that is not in use.
abbrev pub IsFresh : List Text → Draw → Type 0
IsFresh used (drew t rest) = (any (text_eq t) used ≡ false) × (length t ≡ 16) × All IsLetter t
IsFresh used (failed e) = Unit {0}
IsFresh used waiting = Unit {0}

retry-IsFresh :
    (used : List Text) (again : Reads → Draw) (d : Draw)
    → ((r : Reads) → IsFresh used (again r))
    → ((t : Text) (rest : Reads) → d ≡ drew t rest → (length t ≡ 16) × All IsLetter t)
    → IsFresh used (retry used again d)
unfolding retry
retry-IsFresh used again (failed e) ih shape = tt
retry-IsFresh used again waiting ih shape = tt
retry-IsFresh used again (drew t rest) ih shape = elim (Bool-cases (any (text_eq t) used)) [
  | inl known ↦ rw (known, IsFresh, retry) (ih rest)
  | inr new ↦ rw (new, IsFresh, retry) (new, (shape t rest refl).0, (shape t rest refl).1)
]

unique_loop-IsFresh :
    (fuel : ℕ) (used : List Text) (reads : Reads) → IsFresh used (unique_loop fuel used reads)
unfolding unique_loop
unique_loop-IsFresh zero used reads = tt
unique_loop-IsFresh (suc fuel) used reads =
    retry-IsFresh used (unique_loop fuel used) (generate_token reads)
      (λ r. unique_loop-IsFresh fuel used r) (λ t rest e. generate_token_shape reads rest t e)

-- A token that the uniqueness loop returns is none of the tokens in use, and has sixteen ASCII
-- letters.
pub unique_token-IsFresh :
    (used : List Text) (reads : Reads) → IsFresh used (unique_token used reads)
unfolding unique_token
unique_token-IsFresh used reads = unique_loop-IsFresh (suc (length reads)) used reads

generate_token_reads :
    (reads rest : Reads) (t : Text)
    → generate_token reads ≡ drew t rest
    → length rest + 16 ≤ length reads
unfolding generate_token
generate_token_reads reads rest t e = (fill-IsFilled 16 [] reads e).reads_used

-- One draw after the other: tokens that are in use, then one that is not.
pub data Draws (used : List Text) : Reads → Text → Reads → Type 0 where
  new :
      {reads left : Reads} {t : Text}
      → generate_token reads ≡ drew t left
      → any (text_eq t) used ≡ false
      → Draws used reads t left
  again :
      {reads rest left : Reads} {u t : Text}
      → generate_token reads ≡ drew u rest
      → any (text_eq u) used ≡ true
      → Draws used rest t left
      → Draws used reads t left

unique_loop-Draws :
    (used : List Text) (fuel : ℕ) {reads left : Reads} {t : Text}
    → length reads < fuel
    → Draws used reads t left
    → unique_loop fuel used reads ≡ drew t left
unfolding unique_loop retry
unique_loop-Draws used zero h d = absurd (omega (arith, h))
unique_loop-Draws used (suc fuel) h (new drawn free) = rw (drawn, retry, free) refl
unique_loop-Draws used (suc fuel) h (again {reads} {rest} {left} {u} {t} drawn taken d) =
    let shorter = generate_token_reads reads rest u drawn in
    rw (drawn, retry, taken) (unique_loop-Draws used fuel (omega (arith, h, shorter)) d)

-- Whatever number of tokens that are in use the random source gives first, the loop ends with the first
-- token that is not in use, and has read no further.
pub unique_token-Draws :
    (used : List Text) (reads left : Reads) (t : Text)
    → Draws used reads t left
    → unique_token used reads ≡ drew t left
unfolding unique_token
unique_token-Draws used reads left t d = unique_loop-Draws used (suc (length reads)) (omega arith) d
