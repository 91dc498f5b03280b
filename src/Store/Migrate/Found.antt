-- ===== src/Store/Migrate/Found.antt =====
-- What the queries of ensureTokens in internal/store/store.go find: the tokens in use, and the accounts without one.
use nfuse.Base.{
  ℕ, ◌≡◌, refl, sym, true, false, List, [], ◌∷◌, is_empty, ==_iff, All, All-mono, Bool-cases, inl,
  inr, arith,
}
use mathlib.Core.Path.{subst}
use nfuse.Base.Text.{Text, text_eq, text_eq_iff}
use nfuse.Model.{Account}
use nfuse.Store.Migrate.{tokens_of, without_token}
use nfuse.Store.Migrate.Tokens.{IsKnown, IsPending, any_intro}

pub text_eq_sym : (s t : Text) → text_eq s t ≡ false → text_eq t s ≡ false
text_eq_sym s t h = elim (Bool-cases (text_eq t s)) [
  | inr e ↦ e
  | inl e ↦
      (let same : t ≡ s = (text_eq_iff t s).0 e in
        absurd (ground (arith, (text_eq_iff s t).1 (sym same), h)))
]

pub IsKnown-mono :
    (t : Text) (used : List Text) (accounts : List Account)
    → All (IsKnown used) accounts
    → All (IsKnown (t ∷ used)) accounts
IsKnown-mono t used accounts h = All-mono (λ a k. ground (arith, k)) accounts h

pub tokens_of-IsKnown : (accounts : List Account) → All (IsKnown (tokens_of accounts)) accounts
tokens_of-IsKnown [] = tt
tokens_of-IsKnown (a ∷ rest) = elim (Bool-cases (is_empty a.token)) [
  | inl empty ↦
      let same : tokens_of (a ∷ rest) ≡ tokens_of rest = rw empty refl in
      subst (λ u. All (IsKnown u) (a ∷ rest)) (sym same)
        (ground (arith, empty), tokens_of-IsKnown rest)
  | inr there ↦
      let same : tokens_of (a ∷ rest) ≡ a.token ∷ tokens_of rest = rw there refl in
      subst (λ u. All (IsKnown u) (a ∷ rest)) (sym same)
        (
          ground (arith, any_intro a.token (tokens_of rest)),
          IsKnown-mono a.token (tokens_of rest) rest (tokens_of-IsKnown rest),
        )
]

IsPending-mono :
    (id : ℕ) (ids : List ℕ) (accounts : List Account)
    → All (IsPending ids) accounts
    → All (IsPending (id ∷ ids)) accounts
IsPending-mono id ids accounts h = All-mono (λ a k. ground (arith, k)) accounts h

pub without_token-IsPending :
    (accounts : List Account) → All (IsPending (without_token accounts)) accounts
without_token-IsPending [] = tt
without_token-IsPending (a ∷ rest) = elim (Bool-cases (is_empty a.token)) [
  | inr there ↦
      let same : without_token (a ∷ rest) ≡ without_token rest = rw there refl in
      subst (λ u. All (IsPending u) (a ∷ rest)) (sym same)
        (ground (arith, there), without_token-IsPending rest)
  | inl empty ↦
      let same : without_token (a ∷ rest) ≡ a.id ∷ without_token rest = rw empty refl in
      subst (λ u. All (IsPending u) (a ∷ rest)) (sym same)
        (
          ground (arith, ==_iff a.id a.id),
          IsPending-mono a.id (without_token rest) rest (without_token-IsPending rest),
        )
]

pub differs_stored :
    (t master : Text)
    → is_empty master ≡ false
    → (text_eq t master ≡ true → is_empty t ≡ true)
    → text_eq t master ≡ false
differs_stored t master there h = elim (Bool-cases (text_eq t master)) [
  | inr e ↦ e
  | inl e ↦
      (let same : t ≡ master = (text_eq_iff t master).0 e in
        let empty = h e in absurd (ground (arith, there, rw same at empty)))
]
