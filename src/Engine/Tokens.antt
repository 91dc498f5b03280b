-- ===== src/Engine/Tokens.antt =====
-- The query tokens of internal/engine/engine.go: they leave the kernel alone, and take no part in
-- reconcile. QueryByToken is in Engine/Views.antt.
use nfuse.Base.{ℕ, not, List, [], ◌∷◌, any, ◌==◌, if◌then◌else◌, Result, ok, err}
use nfuse.Base.Text.{Text}
use nfuse.Model.{Account, Error, no_account}
use nfuse.Store
use nfuse.Store.{Db}
use nfuse.Engine.{Manager, Controller, Env, Outcome}
use nfuse.Engine.Mutations.{unique_token_locked}

-- The first account with the id.
unfoldable pub set_first : ℕ → (Account → Account) → List Account → List Account
set_first id f [] = []
set_first id f (a ∷ rest) =
    let others = set_first id f rest in if a.id == id then f a ∷ rest else a ∷ others

module _ (m : Manager) where
  unfoldable pub keep_token : ℕ → Text → Controller m → Result Error Db → Outcome m Text
  unfolding set_first
  keep_token id token c (err e) = (err e, c)
  keep_token id token c (ok db) = (
    ok token,
    record c {
      db = db;
      snap = record c.snap {
        accounts = set_first id (λ a. record a { token = token }) c.snap.accounts;
      };
    },
  )

  unfoldable pub regenerate_token : Env → ℕ → Controller m → Outcome m Text
  unfolding keep_token
  regenerate_token env id c =
      if not (any (λ (a : Account). a.id == id) c.snap.accounts)
      then (err (no_account id), c)
      else elim (unique_token_locked m env c) [
        | err e ↦ (err e, c)
        | ok token ↦ keep_token id token c (Store.set_token env.write_fault id token c.db)
      ]

  unfoldable pub keep_master : Text → Controller m → Result Error Db → Outcome m Text
  keep_master token c (err e) = (err e, c)
  keep_master token c (ok db) = (ok token, record c { db = db; master_token = token })

  unfoldable pub regenerate_master_token : Env → Controller m → Outcome m Text
  unfolding keep_master
  regenerate_master_token env c = elim (unique_token_locked m env c) [
    | err e ↦ (err e, c)
    | ok token ↦ keep_master token c (Store.set_master_token env.write_fault token c.db)
  ]
