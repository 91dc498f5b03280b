-- ===== src/Engine/Access.antt =====
-- Who sees what by a query token: QueryByToken and RegenerateToken of internal/engine/engine.go.
use nfuse.Base.{
  ℕ, ◌≡◌, ◌≢◌, refl, ◌⊎◌, inl, inr, true, false, ◌&&◌, not, none, some, List, [], ◌∷◌, is_empty,
  any, All, arith, Bool-cases, Option-cases, and-true, ◌==◌, ==_iff,
}
use nfuse.Base.Text.{Text, text_eq, text_eq_iff}
use nfuse.Model.{Account}
use nfuse.Engine.{Manager, Controller}
use nfuse.Engine.Views.{AccountView, Grant, view_locked, first_view, account_grant, query_by_token}

-- An account of the list has the id and the token.
abbrev Holder : Text → ℕ → List Account → Type 0
Holder token id accounts = any (λ a. text_eq token a.token && a.id == id) accounts ≡ true

first_view-id :
    (id : ℕ) (views : List AccountView) (v : AccountView)
    → first_view id views ≡ some v
    → v.account.id ≡ id
unfolding first_view
first_view-id id [] v h = cc
first_view-id id (w ∷ views) v h = ground (arith, first_view-id id views v)

abbrev pub IsHeld : Text → List Account → Grant → Type 0
IsHeld token accounts g =
    (v : AccountView) × (g ≡ (v ∷ [], false)) × Holder token v.account.id accounts

IsHeld-cons :
    (token : Text) (a : Account) (rest : List Account) (g : Grant)
    → IsHeld token rest g
    → IsHeld token (a ∷ rest) g
IsHeld-cons token a rest g (v, e, h) = (v, e, ground (arith, h))

account_grant_sound :
    (token : Text) (views : List AccountView) (accounts : List Account) (g : Grant)
    → account_grant token views accounts ≡ some g
    → IsHeld token accounts g
unfolding account_grant
account_grant_sound token views [] g h = cc
account_grant_sound token views (a ∷ rest) g h =
    elim (Bool-cases (not (is_empty a.token) && text_eq token a.token)) [
      | inr other ↦
          IsHeld-cons token a rest g
            (account_grant_sound token views rest g (rw (other, account_grant) at h))
      | inl holds ↦ elim (Option-cases (first_view a.id views)) [
        | inl missing ↦
            IsHeld-cons token a rest g
              (account_grant_sound token views rest g (rw (holds, missing, account_grant) at h))
        | inr (v, found) ↦ (
          v,
          ground (arith, h, holds, found),
          ground (arith, holds, first_view-id a.id views v found, ==_iff a.id v.account.id),
        )
      ]
    ]

-- A token that no account holds gives nothing.
account_grant_unknown :
    (token : Text) (views : List AccountView) (accounts : List Account)
    → All (λ a. a.token ≢ token) accounts
    → account_grant token views accounts ≡ none
unfolding account_grant
account_grant_unknown token views [] h = refl
account_grant_unknown token views (a ∷ rest) h =
    ground (arith, h.0, text_eq_iff token a.token, account_grant_unknown token views rest h.1)

module _ (m : Manager) (c : Controller m) where
  -- A token that QueryByToken accepts is not empty. If all accounts are granted it is the master
  -- token, and the views are all the views; otherwise the grant is one view, of an account that
  -- holds the token.
  pub query_by_token_sound :
      (token : Text) (g : Grant)
      → query_by_token m c token ≡ some g
      → (token ≢ [])
        × ((token ≡ c.master_token) × (g ≡ (view_locked m c, true))
            ⊎ IsHeld token c.snap.accounts g)
  unfolding query_by_token
  query_by_token_sound [] g h = cc
  query_by_token_sound (x ∷ token) g h = (
    λ e. cc,
    elim (Bool-cases (not (is_empty c.master_token) && text_eq (x ∷ token) c.master_token)) [
      | inl master ↦ inl (
        (text_eq_iff (x ∷ token) c.master_token).0 (and-true _ _ master).1,
        ground (arith, h, master),
      )
      | inr other ↦ inr (
          account_grant_sound (x ∷ token) (view_locked m c) c.snap.accounts g
            (rw (other, query_by_token) at h))
    ],
  )

  -- A token that is neither the master token nor the token of an account gives nothing, and neither
  -- does the empty token.
  pub query_by_token_unknown :
      (token : Text)
      → (token ≡ []) ⊎ (token ≢ c.master_token) × All (λ a. a.token ≢ token) c.snap.accounts
      → query_by_token m c token ≡ none
  unfolding query_by_token
  query_by_token_unknown token (inl e) = rw (e, query_by_token) refl
  query_by_token_unknown [] (inr h) = refl
  query_by_token_unknown (x ∷ token) (inr h) = ground (
    arith,
    h.0,
    text_eq_iff (x ∷ token) c.master_token,
    account_grant_unknown (x ∷ token) (view_locked m c) c.snap.accounts h.1,
  )
