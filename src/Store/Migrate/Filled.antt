-- ===== src/Store/Migrate/Filled.antt =====
-- What ensureTokens of internal/store/store.go owes: a token of its own for every account and for the
-- master.
use nfuse.Base.{
  ℕ, ◌≡◌, true, false, none, some, List, [], ◌∷◌, is_empty, any, All, All-mono, Bool-cases,
  Option-cases, inl, inr, arith,
}
use nfuse.Base.Text.{Text, text_eq}
use nfuse.Model.{Account}
use nfuse.Model.Token.{Reads, unique_token}
use nfuse.Model.Token.Fresh.{unique_token-IsFresh}
use nfuse.Store.{Db, update_account}
use nfuse.Store.Migrate.{
  Faults, tokens_of, without_token, give_token, backfill, backfill_rest, stored_master, new_master,
  ensure_master, fill_tokens, write_token, write_master, empty_tokens, used_tokens, read_master,
}
use nfuse.Store.Migrate.Tokens.{
  IsKnown, Apart, any_intro, fresh_differs, IsFilling, HasTokens, pending_none, with_draw_ends,
  give-IsFilling,
}
use nfuse.Store.Migrate.Found.{
  text_eq_sym, IsKnown-mono, tokens_of-IsKnown, without_token-IsPending, differs_stored,
}

module _ (faults : Faults) where
  -- Every way to the end of the loop has filled the tokens.
  backfill_ends :
      (ids : List ℕ) (used : List Text) (reads : Reads) (db : Db)
      → is_empty (stored_master db) ≡ false
      → any (text_eq (stored_master db)) used ≡ true
      → IsFilling ids used (stored_master db) db.accounts
      → (backfill faults ids used reads db).0 ≡ none
      → HasTokens (backfill faults ids used reads db).1
  unfolding backfill give_token update_account stored_master
  backfill_ends [] used reads db m mu f h = record {
    master = m;
    tokens = pending_none db.accounts (stored_master db) f.pending f.others;
    apart = f.apart;
  }
  backfill_ends (id ∷ rest) used reads db m mu f h =
      with_draw_ends used db
        (λ t left. elim (faults (write_token id)) [
          | some e ↦ (some e, db)
          | none ↦ backfill faults rest (t ∷ used) left (give_token id t db)
        ])
        (unique_token used reads) (unique_token-IsFresh used reads)
        (λ t left new full. elim (Option-cases (faults (write_token id))) [
          | inr (e, bad) ↦ rw bad λ k. cc
          | inl fine ↦ rw fine (
              backfill_ends rest (t ∷ used) left (give_token id t db) m (ground (arith, mu))
                (give-IsFilling id t rest used (stored_master db) db.accounts new full mu f))
        ])
        h

  rest_ends :
      (used : List Text) (reads : Reads) (db : Db)
      → is_empty (stored_master db) ≡ false
      → All (IsKnown used) db.accounts
      → Apart db.accounts
      → All (λ (a : Account). text_eq a.token (stored_master db) ≡ false) db.accounts
      → (backfill_rest faults used (stored_master db) reads db).0 ≡ none
      → HasTokens (backfill_rest faults used (stored_master db) reads db).1
  unfolding backfill_rest
  rest_ends used reads db m known apart others = elim (Option-cases (faults empty_tokens)) [
    | inr (e, bad) ↦ rw (backfill_rest, bad) λ k. cc
    | inl fine ↦
        rw (backfill_rest, fine)
          (backfill_ends (without_token db.accounts) (stored_master db ∷ used) reads db m
            (any_intro (stored_master db) used)
            (record {
              known = IsKnown-mono (stored_master db) used db.accounts known;
              pending = without_token-IsPending db.accounts;
              apart = apart;
              others = others;
            }))
  ]

  new_master_ends :
      (reads : Reads) (db : Db)
      → Apart db.accounts
      → (new_master faults (tokens_of db.accounts) reads db).0 ≡ none
      → HasTokens (new_master faults (tokens_of db.accounts) reads db).1
  unfolding new_master stored_master
  new_master_ends reads db apart h =
      let used = tokens_of db.accounts in
      with_draw_ends used db
        (λ t left. elim (faults write_master) [
          | some e ↦ (some e, db)
          | none ↦ backfill_rest faults used t left (record db { master = some t })
        ])
        (unique_token used reads) (unique_token-IsFresh used reads)
        (λ t left new full. elim (Option-cases (faults write_master)) [
          | inr (e, bad) ↦ rw bad λ k. cc
          | inl fine ↦ rw fine (
              rest_ends used left (record db { master = some t }) full
                (tokens_of-IsKnown db.accounts) apart
                (All-mono
                  (λ (a : Account) k.
                    text_eq_sym t a.token (fresh_differs t a.token used full new k))
                  db.accounts (tokens_of-IsKnown db.accounts)))
        ])
        h

  -- After ensureTokens every account has a token, no two accounts share one, and none is the master
  -- token, which is there too: whatever tokens were missing, if it returns no error, from a statement or
  -- from the random source, the accounts have different ids, and the tokens that were there before
  -- and not empty were different from each other and from the master token.
  pub fill_tokens-HasTokens :
      (reads : Reads) (db : Db)
      → Apart db.accounts
      → All
          (λ (a : Account). text_eq a.token (stored_master db) ≡ true → is_empty a.token ≡ true)
          db.accounts
      → (fill_tokens faults reads db).0 ≡ none
      → HasTokens (fill_tokens faults reads db).1
  unfolding fill_tokens ensure_master
  fill_tokens-HasTokens reads db apart others = elim (Option-cases (faults used_tokens)) [
    | inr (e, bad) ↦ rw (fill_tokens, bad) λ k. cc
    | inl fine ↦ elim (Option-cases (faults read_master)) [
      | inr (e, bad) ↦ rw (fill_tokens, fine, ensure_master, bad) λ k. cc
      | inl read ↦ elim (Bool-cases (is_empty (stored_master db))) [
        | inl empty ↦
            rw (fill_tokens, fine, ensure_master, read, empty) (new_master_ends reads db apart)
        | inr there ↦
            rw (fill_tokens, fine, ensure_master, read, there)
              (rest_ends (tokens_of db.accounts) reads db there (tokens_of-IsKnown db.accounts)
                apart
                (All-mono (λ (a : Account) k. differs_stored a.token (stored_master db) there k)
                  db.accounts others))
      ]
    ]
  ]
