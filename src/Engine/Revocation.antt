-- ===== src/Engine/Revocation.antt =====
-- RegenerateToken of internal/engine/engine.go: the new token is new, and the old one stops working.
use mathlib.Core.Path.{subst}
use nfuse.Base.{
  ℕ, ◌≤◌, ◌≡◌, ◌≢◌, ◌⊎◌, is_empty-nil, sym, ◌∙◌, inl, inr, false, not, none, some, List, [], ◌∷◌,
  map, is_empty, keep, find, any, any-append, All, Result, Result-cases, ok, err, arith, Bool-cases,
  or-false, if◌then◌else◌, ◌==◌, ==_iff,
}
use nfuse.Base.Text.{Text, text_eq, text_eq_iff}
use nfuse.Base.Sort.{Ascending}
use nfuse.Model.{Account, Error, account}
use nfuse.Model.Token.{Draw, drew, failed, waiting, unique_token}
use nfuse.Model.Token.Fresh.{IsFresh, unique_token-IsFresh}
use nfuse.Store.{Db, set_token}
use nfuse.Store.Rows.{account_ids}
use nfuse.Engine.{Manager, Controller, Env}
use nfuse.Engine.Mutations.{used_tokens, token_of, unique_token_locked}
use nfuse.Engine.Tokens.{set_first, keep_token, regenerate_token}
use nfuse.Engine.Views.{query_by_token}
use nfuse.Engine.Access.{query_by_token_unknown}

token_of_fresh :
    (used : List Text) (d : Draw) (t : Text)
    → IsFresh used d
    → token_of d ≡ ok t
    → any (text_eq t) used ≡ false
unfolding token_of
token_of_fresh used (drew s rest) t h e = ground (arith, h.0, e)
token_of_fresh used (failed x) t h e = cc
token_of_fresh used waiting t h e = cc

abbrev kept_tokens : List Account → List Text
kept_tokens accounts = keep (λ s. not (is_empty s)) (map (λ (a : Account). a.token) accounts)

abbrev master_tokens : Text → List Text
master_tokens master = if is_empty master then [] else master ∷ []

not_kept :
    (t : Text) (accounts : List Account)
    → any (text_eq t) (kept_tokens accounts) ≡ false
    → All (λ a. (a.token ≡ []) ⊎ (a.token ≢ t)) accounts
not_kept t [] h = tt
not_kept t (a ∷ rest) h = elim (Bool-cases (is_empty a.token)) [
  | inl empty ↦ (inl (is_empty-nil a.token empty), not_kept t rest (rw empty at h))
  | inr full ↦
      let parts =
        or-false (text_eq t a.token) (any (text_eq t) (kept_tokens rest)) (rw full at h) in
      (inr (λ e. ground (arith, parts, text_eq_iff t a.token, e)), not_kept t rest parts.1)
]

module _ (m : Manager) where
  -- What a fresh token differs from.
  unique_token_locked_fresh :
      (env : Env) (c : Controller m) (t : Text)
      → unique_token_locked m env c ≡ ok t
      → All (λ a. (a.token ≡ []) ⊎ (a.token ≢ t)) c.snap.accounts
  unfolding unique_token_locked used_tokens
  unique_token_locked_fresh env c t h =
      let used = used_tokens c.master_token c.snap.accounts in
      let fresh =
        token_of_fresh used (unique_token used env.reads) t (unique_token-IsFresh used env.reads)
          h in
      not_kept t c.snap.accounts
        (or-false (any (text_eq t) (master_tokens c.master_token))
          (any (text_eq t) (kept_tokens c.snap.accounts))
          (sym (any-append (text_eq t) (master_tokens c.master_token) (kept_tokens c.snap.accounts))
            ∙ fresh)).1

others_revoked :
    (id : ℕ) (old : Text) (low : ℕ) (accounts : List Account) (high : ℕ)
    → id ≤ low
    → Ascending low (account_ids accounts) high
    → All (λ a. a.token ≡ old → a.id ≡ id) accounts
    → All (λ a. a.token ≢ old) accounts
others_revoked id old low [] high h asc own = tt
others_revoked id old low (a ∷ rest) high h asc own = (
  λ e. absurd (omega (arith, own.0 e)),
  others_revoked id old a.id rest high (omega arith) asc.1 own.1,
)

-- After the change no account holds the old token.
set_first_revoked :
    (id : ℕ) (old new : Text) (low : ℕ) (accounts : List Account) (high : ℕ)
    → Ascending low (account_ids accounts) high
    → old ≢ new
    → All (λ a. a.token ≡ old → a.id ≡ id) accounts
    → All (λ a. a.token ≢ old) (set_first id (λ a. record a { token = new }) accounts)
unfolding set_first
set_first_revoked id old new low [] high asc ne own = tt
set_first_revoked id old new low (a ∷ rest) high asc ne own = elim (Bool-cases (a.id == id)) [
  | inl hit ↦ rw hit (
    λ e. ne (sym e),
    others_revoked id old a.id rest high (omega (arith, (==_iff a.id id).0 hit)) asc.1 own.1,
  )
  | inr miss ↦
      rw miss
        (λ e. ground (arith, own.0 e), set_first_revoked id old new a.id rest high asc.1 ne own.1)
]

find_account-All :
    (id : ℕ) (P : Account → Type 0) (accounts : List Account) (a : Account)
    → find (λ b. b.id == id) accounts ≡ some a
    → All P accounts
    → P a
find_account-All id P [] a h all = cc
find_account-All id P (b ∷ rest) a h all = elim (Bool-cases (b.id == id)) [
  | inl hit ↦ let e : b ≡ a = ground (arith, h, hit) in subst P e all.0
  | inr miss ↦ find_account-All id P rest a (rw miss at h) all.1
]

module _ (m : Manager) where
  keep_token_accounts :
      (id : ℕ) (token : Text) (c c' : Controller m) (o : Result Error Db) (new : Text)
      → keep_token m id token c o ≡ (ok new, c')
      → (new ≡ token)
        × (c'.master_token ≡ c.master_token)
        × (c'.snap.accounts ≡ set_first id (λ a. record a { token = token }) c.snap.accounts)
  unfolding keep_token
  keep_token_accounts id token c c' (err e) new h = cc
  keep_token_accounts id token c c' (ok db) new h = ground (arith, h)

  -- A regenerated token stops working at once: if the old token is not empty, is held by its account
  -- alone and is not the master token, and the ids of the accounts ascend, QueryByToken gives nothing
  -- for it after a successful RegenerateToken.
  pub old_token_revoked :
      (env : Env) (id : ℕ) (c c' : Controller m) (a : Account) (new : Text) (high : ℕ)
      → regenerate_token m env id c ≡ (ok new, c')
      → account c.snap.accounts id ≡ some a
      → a.token ≢ []
      → a.token ≢ c.master_token
      → Ascending 0 (account_ids c.snap.accounts) high
      → All (λ b. b.token ≡ a.token → b.id ≡ id) c.snap.accounts
      → query_by_token m c' a.token ≡ none
  unfolding regenerate_token account
  old_token_revoked env id c c' a new high done found full other asc own =
      elim (Bool-cases (any (λ (b : Account). b.id == id) c.snap.accounts)) [
        | inr missing ↦ absurd (ground (arith, done, missing))
        | inl known ↦ elim (Result-cases (unique_token_locked m env c)) [
          | inr (e, failed_draw) ↦ absurd (ground (arith, done, known, failed_draw))
          | inl (token, drawn) ↦
              let o = set_token env.write_fault id token c.db in
              let after =
                keep_token_accounts id token c c' o new
                  (rw (known, drawn, regenerate_token) at done) in
              let fresh =
                find_account-All id (λ b. (b.token ≡ []) ⊎ (b.token ≢ token)) c.snap.accounts a
                  found (unique_token_locked_fresh m env c token drawn) in
              query_by_token_unknown m c' a.token (
                inr (
                  λ e. other (e ∙ after.1),
                  rw after.2 (
                      set_first_revoked id a.token token 0 c.snap.accounts high asc
                        (ground (arith, fresh, full)) own),
                ))
        ]
      ]
