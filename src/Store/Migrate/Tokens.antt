-- ===== src/Store/Migrate/Tokens.antt =====
-- Accounts that get their tokens one by one, in ensureTokens of internal/store/store.go: what holds of
-- them meanwhile.
use nfuse.Base.{
  ℕ, ◌≡◌, refl, sym, true, false, ◌||◌, not, none, some, List, [], ◌∷◌, is_empty, any, ◌==◌, ==_iff,
  update_where, All, All-update_where, Bool-cases, inl, inr, arith, length,
}
use nfuse.Base.Text.{Text, text_eq, text_eq_iff}
use nfuse.Model.{Account}
use nfuse.Model.Token.{Reads, Draw, drew, failed, waiting}
use nfuse.Model.Token.Fresh.{IsFresh}
use nfuse.Store.{Db, Fault}
use nfuse.Store.Migrate.{with_draw, stored_master}

-- The token of an account is empty or known.
abbrev pub IsKnown : List Text → Account → Type 0
IsKnown used a = (is_empty a.token || any (text_eq a.token) used) ≡ true

-- The account has a token, or is still to get one.
abbrev pub IsPending : List ℕ → Account → Type 0
IsPending ids a = (not (is_empty a.token) || any (λ i. i == a.id) ids) ≡ true

-- Two accounts share no token and no id.
abbrev pub Differ : Account → Account → Type 0
Differ a b = ((is_empty a.token || not (text_eq a.token b.token)) ≡ true) × ((a.id == b.id) ≡ false)

-- No two accounts have the same token, unless it is empty, or the same id.
abbrev pub Apart : List Account → Type 0
Apart [] = Unit {0}
Apart (a ∷ rest) = All (Differ a) rest × Apart rest

-- An account that has a token, other than the master token.
abbrev pub HasToken : Text → Account → Type 0
HasToken master a = (is_empty a.token ≡ false) × (text_eq a.token master ≡ false)

abbrev with_token : Text → Account → Account
with_token t a = record a { token = t }

pub any_intro : (t : Text) (used : List Text) → any (text_eq t) (t ∷ used) ≡ true
any_intro t used = ground (arith, (text_eq_iff t t).1 refl)

any_differs :
    (s t : Text) (used : List Text)
    → any (text_eq s) used ≡ true
    → any (text_eq t) used ≡ false
    → text_eq s t ≡ false
any_differs s t used h k = elim (Bool-cases (text_eq s t)) [
  | inr e ↦ e
  | inl e ↦ (let same : s ≡ t = (text_eq_iff s t).0 e in ground (arith, rw same at h, k))
]

pub fresh_differs :
    (t s : Text) (used : List Text)
    → is_empty t ≡ false
    → any (text_eq t) used ≡ false
    → (is_empty s || any (text_eq s) used) ≡ true
    → text_eq t s ≡ false
fresh_differs t s used full new known = elim (Bool-cases (text_eq t s)) [
  | inr e ↦ e
  | inl e ↦
      (let same : s ≡ t = sym ((text_eq_iff t s).0 e) in
        absurd (ground (arith, rw same at known, full, new)))
]

module _ (id : ℕ) (t : Text) where
  give-IsKnown :
      (used : List Text) (accounts : List Account)
      → All (IsKnown used) accounts
      → All (IsKnown (t ∷ used)) (update_where (λ a. a.id == id) (with_token t) accounts)
  give-IsKnown used [] h = tt
  give-IsKnown used (a ∷ rest) h =
      (ground (arith, h.0, any_intro t used), give-IsKnown used rest h.1)

  give-IsPending :
      (ids : List ℕ) (accounts : List Account)
      → is_empty t ≡ false
      → All (IsPending (id ∷ ids)) accounts
      → All (IsPending ids) (update_where (λ a. a.id == id) (with_token t) accounts)
  give-IsPending ids [] e h = tt
  give-IsPending ids (a ∷ rest) e h =
      (ground (arith, h.0, e, ==_iff id a.id, ==_iff a.id id), give-IsPending ids rest e h.1)

  module _ (used : List Text) (new : any (text_eq t) used ≡ false) (full : is_empty t ≡ false) where
    Differ-other :
        (a : Account) (rest : List Account)
        → (a.id == id) ≡ false
        → IsKnown used a
        → All (Differ a) rest
        → All (Differ a) (update_where (λ b. b.id == id) (with_token t) rest)
    Differ-other a [] off known h = tt
    Differ-other a (b ∷ rest) off known h = (
      elim (Bool-cases (is_empty a.token)) [
        | inl empty ↦ ground (arith, h.0, empty)
        | inr there ↦
            let other = any_differs a.token t used (ground (arith, known, there)) new in
            ground (arith, h.0, other)
      ],
      Differ-other a rest off known h.1,
    )

    Differ-same :
        (a : Account) (rest : List Account)
        → (a.id == id) ≡ true
        → All (IsKnown used) rest
        → All (Differ a) rest
        → All (Differ (with_token t a)) (update_where (λ b. b.id == id) (with_token t) rest)
    Differ-same a [] hit known h = tt
    Differ-same a (b ∷ rest) hit known h = (
      elim (Bool-cases (b.id == id)) [
        | inl same ↦
            absurd (ground (arith, h.0.1, ==_iff a.id id, ==_iff b.id id, ==_iff a.id b.id))
        | inr other ↦
            rw other (ground (arith, fresh_differs t b.token used full new known.0), h.0.1)
      ],
      Differ-same a rest hit known.1 h.1,
    )

    give-Apart :
        (accounts : List Account)
        → All (IsKnown used) accounts
        → Apart accounts
        → Apart (update_where (λ a. a.id == id) (with_token t) accounts)
    give-Apart [] known h = tt
    give-Apart (a ∷ rest) known h = elim (Bool-cases (a.id == id)) [
      | inl hit ↦ rw hit (Differ-same a rest hit known.1 h.0, give-Apart rest known.1 h.1)
      | inr off ↦ rw off (Differ-other a rest off known.0 h.0, give-Apart rest known.1 h.1)
    ]

-- What holds of the accounts while they get their tokens.
pub record IsFilling (ids : List ℕ) (used : List Text) (master : Text) (accounts : List Account)
    : Type 0 where
  pub known : All (IsKnown used) accounts
  pub pending : All (IsPending ids) accounts
  pub apart : Apart accounts
  pub others : All (λ (a : Account). text_eq a.token master ≡ false) accounts

-- What ensureTokens owes: a master token, and for each account a token of its own.
pub record HasTokens (db : Db) : Type 0 where
  pub master : is_empty (stored_master db) ≡ false
  pub tokens : All (HasToken (stored_master db)) db.accounts
  pub apart : Apart db.accounts

pub pending_none :
    (accounts : List Account) (master : Text)
    → All (IsPending []) accounts
    → All (λ (a : Account). text_eq a.token master ≡ false) accounts
    → All (HasToken master) accounts
pending_none [] master h k = tt
pending_none (a ∷ rest) master h k = ((ground (arith, h.0), k.0), pending_none rest master h.1 k.1)

IsFresh-full : (t : Text) → length t ≡ 16 → is_empty t ≡ false
IsFresh-full [] h = absurd (omega (arith, h))
IsFresh-full (c ∷ t) h = refl

-- A draw that is written is a new token.
pub with_draw_ends :
    (used : List Text) (db : Db) (next : Text → Reads → Fault × Db) (d : Draw)
    → IsFresh used d
    → ((t : Text) (left : Reads)
        → any (text_eq t) used ≡ false
        → is_empty t ≡ false
        → (next t left).0 ≡ none
        → HasTokens (next t left).1)
    → (with_draw (λ e. (some e, db)) next d).0 ≡ none
    → HasTokens (with_draw (λ e. (some e, db)) next d).1
unfolding with_draw
with_draw_ends used db next (drew t left) fresh step h =
    step t left fresh.0 (IsFresh-full t fresh.1) h
with_draw_ends used db next (failed e) fresh step h = cc
with_draw_ends used db next waiting fresh step h = cc

give-others :
    (id : ℕ) (t master : Text) (accounts : List Account)
    → text_eq t master ≡ false
    → All (λ (a : Account). text_eq a.token master ≡ false) accounts
    → All
        (λ (a : Account). text_eq a.token master ≡ false)
        (update_where (λ a. a.id == id) (with_token t) accounts)
give-others id t master accounts e h =
    All-update_where (λ a. a.id == id) (λ a. text_eq a.token master ≡ false) (with_token t) accounts
      (λ a k hit. e) h

pub give-IsFilling :
    (id : ℕ) (t : Text) (ids : List ℕ) (used : List Text) (master : Text) (accounts : List Account)
    → any (text_eq t) used ≡ false
    → is_empty t ≡ false
    → any (text_eq master) used ≡ true
    → IsFilling (id ∷ ids) used master accounts
    → IsFilling ids (t ∷ used) master (update_where (λ a. a.id == id) (with_token t) accounts)
give-IsFilling id t ids used master accounts new full mu f = record {
  known = give-IsKnown id t used accounts f.known;
  pending = give-IsPending id t ids accounts full f.pending;
  apart = give-Apart id t used new full accounts f.known f.apart;
  others =
      give-others id t master accounts (fresh_differs t master used full new (ground (arith, mu)))
        f.others;
}
