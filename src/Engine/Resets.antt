-- ===== src/Engine/Resets.antt =====
-- The monthly resets of internal/engine/engine.go: nextReset and runDueResets. The calendar of package
-- time is a parameter.
use nfuse.Base.{
  ℕ, zero, suc, ◌+◌, ◌-◌, ◌≤◌, ◌<◌, ◌≡◌, refl, Bool, true, false, not, ◌&&◌, List, [], ◌∷◌, map,
  keep, if◌then◌else◌, Bool-cases, inl, inr, arith, leb, ltb,
}
use mathlib.Core.Path.{subst}
use nfuse.Base.Int.{ℤ, pos, negsuc, ltb_ℤ, leb_ℤ}
use nfuse.Model.{Account, resets}
use nfuse.Engine.{Manager, Controller, Env}
use nfuse.Engine.Mutations.{reset_account}

-- Package time in the local zone: the month of a unix second, counted from the year 0, the time
-- at 00:00 of a day of a month, and AddDate(0, 1, 0).
pub record Calendar : Type 0 where
  pub month_of : ℤ → ℕ
  pub midnight : ℕ → ℕ → ℤ
  pub add_month : ℤ → ℤ

-- The day of the month, 1 if it is none of 1 to 28.
pub anchor_or_first : ℤ → ℕ
anchor_or_first (pos n) = if leb 1 n && leb n 28 then n else 1
anchor_or_first (negsuc n) = 1

module _ (cal : Calendar) where
  pub next_reset : ℤ → ℤ → ℤ
  unfolding anchor_or_first
  next_reset last anchor =
      let c = cal.midnight (cal.month_of last) (anchor_or_first anchor) in
      if not (ltb_ℤ last c) then cal.add_month c else c

  is_due : ℤ → Account → Bool
  unfolding next_reset
  is_due now a =
      resets a.tier && not (ltb_ℤ now (next_reset a.last_reset_unix a.billing_anchor_day))

  -- The accounts that are due, under the lock.
  due_resets : ℤ → List Account → List ℕ
  unfolding is_due
  due_resets now accounts = map (λ (a : Account). a.id) (keep (is_due now) accounts)

  -- Each account is reset under a lock of its own; an error is only logged. Nothing else runs between
  -- the resets here: what may run between them are other steps of Engine/Steps.antt.
  module _ (m : Manager) where
    reset_each : (ℕ → Env) → List ℕ → Controller m → Controller m
    reset_each envs [] c = c
    reset_each envs (id ∷ rest) c =
        reset_each (λ i. envs (suc i)) rest (reset_account m (envs 0) id c).1

    run_due_resets : ℤ → (ℕ → Env) → Controller m → Controller m
    unfolding reset_each due_resets
    run_due_resets now envs c = reset_each envs (due_resets now c.snap.accounts) c

  -- What the code relies on: a time lies in its month, the days 1 to 28 of a month lie between its
  -- beginning and that of the next, and AddDate leads to the same day of the next month.
  pub record Monthly : Type 0 where
    pub from : (t : ℕ) → leb_ℤ (cal.midnight (cal.month_of (pos t)) 1) (pos t) ≡ true
    pub below : (t : ℕ) → ltb_ℤ (pos t) (cal.midnight (suc (cal.month_of (pos t))) 1) ≡ true
    pub day_from : (k d : ℕ) → 1 ≤ d → d ≤ 28 → leb_ℤ (cal.midnight k 1) (cal.midnight k d) ≡ true
    pub day_below :
        (k d : ℕ) → 1 ≤ d → d ≤ 28 → ltb_ℤ (cal.midnight k d) (cal.midnight (suc k) 1) ≡ true
    pub added :
        (k d : ℕ) → 1 ≤ d → d ≤ 28 → cal.add_month (cal.midnight k d) ≡ cal.midnight (suc k) d

anchor_bounds : (a : ℤ) → (1 ≤ anchor_or_first a) × (anchor_or_first a ≤ 28)
unfolding anchor_or_first
anchor_bounds (pos n) = ground arith
anchor_bounds (negsuc n) = (omega arith, omega arith)

lt_le_trans : (a b c : ℤ) → ltb_ℤ a b ≡ true → leb_ℤ b c ≡ true → ltb_ℤ a c ≡ true
lt_le_trans a b c h k = ground (arith, h, k)

not_lt : (a b : ℤ) → ltb_ℤ a b ≡ false → leb_ℤ b a ≡ true
not_lt a b h = ground (arith, h)

lt_le : (a b : ℤ) → ltb_ℤ a b ≡ true → leb_ℤ a b ≡ true
lt_le a b h = ground (arith, h)

le_trans : (a b c : ℤ) → leb_ℤ a b ≡ true → leb_ℤ b c ≡ true → leb_ℤ a c ≡ true
le_trans a b c h k = ground (arith, h, k)

module _ (cal : Calendar) (monthly : Monthly cal) (d : ℕ) (low : 1 ≤ d) (high : d ≤ 28) where
  midnight_next : (k : ℕ) → leb_ℤ (cal.midnight k d) (cal.midnight (suc k) d) ≡ true
  midnight_next k =
      le_trans (cal.midnight k d) (cal.midnight (suc k) 1) (cal.midnight (suc k) d)
        (lt_le (cal.midnight k d) (cal.midnight (suc k) 1) (monthly.day_below k d low high))
        (monthly.day_from (suc k) d low high)

  midnight_mono : (k j : ℕ) → leb_ℤ (cal.midnight k d) (cal.midnight (j + k) d) ≡ true
  midnight_mono k zero = ground arith
  midnight_mono k (suc j) =
      let shift : suc j + k ≡ suc (j + k) = omega arith in
      rw shift (
        le_trans (cal.midnight k d) (cal.midnight (j + k) d) (cal.midnight (suc (j + k)) d)
          (midnight_mono k j) (midnight_next (j + k)))

  midnight_le : (k n : ℕ) → k ≤ n → leb_ℤ (cal.midnight k d) (cal.midnight n d) ≡ true
  midnight_le k n h =
      subst (λ i. leb_ℤ (cal.midnight k d) (cal.midnight i d) ≡ true) (omega arith)
        (midnight_mono k (n - k))

  -- A boundary behind a time that has passed the boundary of month n is that of a later month.
  later_month :
      (last : ℤ) (k n : ℕ)
      → leb_ℤ (cal.midnight n d) last ≡ true
      → ltb_ℤ last (cal.midnight k d) ≡ true
      → n < k
  later_month last k n passed ahead = elim (Bool-cases (leb k n)) [
    | inr e ↦ ground (arith, e)
    | inl e ↦ absurd (
        ground (
          arith,
          lt_le_trans last (cal.midnight k d) last ahead (
              le_trans (cal.midnight k d) (cal.midnight n d) last
                (midnight_le k n (ground (arith, e))) passed),
        ))
  ]

-- A boundary that is ahead is not that of an earlier month.
not_earlier :
    (cal : Calendar)
    → Monthly cal
    → (d : ℕ) → 1 ≤ d
    → d ≤ 28
    → (t k : ℕ) → ltb_ℤ (pos t) (cal.midnight k d) ≡ true
    → cal.month_of (pos t) ≤ k
not_earlier cal monthly d low high t k h =
    let n = cal.month_of (pos t) in
    elim (Bool-cases (ltb k n)) [
      | inr e ↦ ground (arith, e)
      | inl e ↦
          let begun =
            le_trans (cal.midnight (suc k) 1) (cal.midnight n 1) (pos t)
              (midnight_le cal monthly 1 (omega arith) (omega arith) (suc k) n (ground (arith, e)))
              (monthly.from t) in
          let early =
            lt_le_trans (cal.midnight k d) (cal.midnight (suc k) 1) (pos t)
              (monthly.day_below k d low high) begun in
          absurd (
            ground (
              arith,
              lt_le_trans (pos t) (cal.midnight k d) (pos t) h
                  (lt_le (cal.midnight k d) (pos t) early),
            ))
    ]

-- The first of the midnights of one day of the month that comes after a time.
pub record IsFirstAfter (cal : Calendar) (d : ℕ) (last next : ℤ) : Type 0 where
  pub after : ltb_ℤ last next ≡ true
  pub boundary : (k : ℕ) × (next ≡ cal.midnight k d)
  pub first : (k : ℕ) → ltb_ℤ last (cal.midnight k d) ≡ true → leb_ℤ next (cal.midnight k d) ≡ true

-- The next reset of an account is the first midnight of its anchor day (or of the first of the month,
-- for an anchor outside 1 to 28) strictly after its last reset, for a last reset that is not
-- before 1970 and a calendar whose months and days follow each other.
pub next_reset-IsFirstAfter :
    (cal : Calendar)
    → Monthly cal
    → (t : ℕ) (anchor : ℤ)
    → IsFirstAfter cal (anchor_or_first anchor) (pos t) (next_reset cal (pos t) anchor)
unfolding next_reset
next_reset-IsFirstAfter cal monthly t anchor =
    let d = anchor_or_first anchor in
    let (low, high) = anchor_bounds anchor in
    let n = cal.month_of (pos t) in
    let c = cal.midnight n d in
    elim (Bool-cases (ltb_ℤ (pos t) c)) [
      | inl ahead ↦
          rw (next_reset, ahead)
            (record {
              after = ahead;
              boundary = (n, refl);
              first = λ k h.
                  midnight_le cal monthly d low high n k (not_earlier cal monthly d low high t k h);
            })
      | inr passed ↦
          rw (next_reset, passed, monthly.added n d low high)
            (record {
              after =
                  lt_le_trans (pos t) (cal.midnight (suc n) 1) (cal.midnight (suc n) d)
                    (monthly.below t) (monthly.day_from (suc n) d low high);
              boundary = (suc n, refl);
              first = λ k h.
                  midnight_le cal monthly d low high (suc n) k
                    (later_month cal monthly d low high (pos t) k n (not_lt (pos t) c passed) h);
            })
    ]
