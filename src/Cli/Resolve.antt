-- ===== src/Cli/Resolve.antt =====
-- Which account a reference means: resolveAccount of internal/cli/commands.go.
use nfuse.Base.{
  ℕ, ◌≡◌, refl, ◌⊎◌, inl, inr, true, Option, none, some, List, [], ◌∷◌, any, ◌==◌, arith, ok,
  Bool-cases,
}
use nfuse.Base.Int.{ℤ, pos, negsuc}
use nfuse.Base.Text.{Text, text_eq, trim_space}
use nfuse.Base.Decimal.{atoi}
use nfuse.Engine.Views.{AccountView}
use nfuse.Cli.{named, has_id, by_id, pick, resolve_trimmed, resolve_account}

abbrev Listed : ℕ → List AccountView → Type 0
Listed id accounts = any (λ (v : AccountView). v.account.id == id) accounts ≡ true

-- The one account of the name, or, where no account has the name, the account of the numeral.
abbrev pub IsMeant : Text → List AccountView → ℕ → Type 0
IsMeant ref accounts id =
    Listed id accounts
    × ((named ref accounts ≡ id ∷ []) ⊎ (named ref accounts ≡ []) × (atoi ref ≡ some (pos id)))

named-Listed :
    (ref : Text) (accounts : List AccountView) (id : ℕ) (rest : List ℕ)
    → named ref accounts ≡ id ∷ rest
    → Listed id accounts
unfolding named
named-Listed ref [] id rest h = cc
named-Listed ref (v ∷ accounts) id rest h = elim (Bool-cases (text_eq v.account.name ref)) [
  | inl hit ↦ ground (arith, h, hit)
  | inr miss ↦ ground (arith, miss, named-Listed ref accounts id rest (rw (named, miss) at h))
]

by_id_sound :
    (ref : Text) (accounts : List AccountView) (e : Option ℤ) (id : ℕ)
    → by_id ref accounts e ≡ ok id
    → Listed id accounts × (e ≡ some (pos id))
unfolding by_id has_id
by_id_sound ref accounts none id h = cc
by_id_sound ref accounts (some (negsuc n)) id h = cc
by_id_sound ref accounts (some (pos n)) id h = ground (arith, h)

pick_sound :
    (ref : Text) (accounts : List AccountView) (matches : List ℕ) (id : ℕ)
    → named ref accounts ≡ matches
    → pick ref accounts matches ≡ ok id
    → IsMeant ref accounts id
unfolding pick
pick_sound ref accounts [] id e h =
    let (listed, numeral) = by_id_sound ref accounts (atoi ref) id h in (listed, inr (e, numeral))
pick_sound ref accounts (n ∷ []) id e h =
    let same : n ≡ id = ground (arith, h) in
    ground (arith, same, e, named-Listed ref accounts n [] e)
pick_sound ref accounts (n ∷ k ∷ rest) id e h = cc

-- The account that a reference resolves to is in the list. It is the only one that has the
-- trimmed reference as its name, or no account has that name and the reference is its id in decimal.
pub resolve_account_sound :
    (accounts : List AccountView) (status ref : Text) (id : ℕ)
    → resolve_account (some accounts, status) ref ≡ ok id
    → IsMeant (trim_space ref) accounts id
unfolding resolve_account resolve_trimmed
resolve_account_sound accounts status ref id h =
    pick_sound (trim_space ref) accounts (named (trim_space ref) accounts) id refl
      (ground (arith, h))
