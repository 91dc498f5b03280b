-- ===== src/Nft/Treatment.antt =====
-- What the rules that Apply of internal/nft/nft.go installs do with the packets of a port.
use nfuse.Base.{
  ◌↔◌, ℕ, ◌≤◌, ◌≡◌, refl, sym, ap, ◌∙◌, ◌⊎◌, inl, inr, Bool, true, false, Bool-cases, Option, none,
  some, List, [], ◌∷◌, ◌&&◌, ◌++◌, arith, any, ◌==◌, ==_iff, leb, keep, length, All,
}
use mathlib.Core.Path.{subst}
use nfuse.Base.Int.{ℤ, pos, ltb_ℤ, leb_ℤ}
use nfuse.Base.Float64.{Float64}
use nfuse.Model.{
  Account, Port, Snapshot, Direction, CounterKey, has_expiry, expired_at, has_quota, validate,
}
use nfuse.Model.Validation.{
  IsMetered, IsMetered-iff, PortIsValid, holders, validate_iff, validate_single_owner,
}
use nfuse.Nft.{Verdict, drops, quota_drops, counts, last_account, verdicts, build_commands}
use nfuse.Nft.Rules.{matched, all_verdicts, matched-build_commands}

-- The account has an expiry, and it is not later than the time.
abbrev pub IsExpired : Option ℤ → Account → Type 0
IsExpired none a = ⊥
IsExpired (some now) a =
    IsMetered a.tier × (ltb_ℤ (pos 0) a.expires_unix ≡ true) × (leb_ℤ a.expires_unix now ≡ true)

-- The rules for a packet of a port of the account: a drop alone if the account has expired; else the
-- breaker of its quota, if its tier has one, before the counter.
abbrev pub Treats : Option ℤ → Account → CounterKey → List Verdict → Type 0
Treats now a key vs =
    (IsExpired now a × (vs ≡ drops ∷ []))
    ⊎ (¬ IsExpired now a × IsMetered a.tier × (vs ≡ quota_drops a.id ∷ counts key ∷ []))
    ⊎ (¬ IsExpired now a × (¬ IsMetered a.tier) × (vs ≡ counts key ∷ []))

IsExpired-iff : (now : Option ℤ) (a : Account) → (expired_at a now ≡ true) ↔ IsExpired now a
unfolding expired_at has_expiry
IsExpired-iff none a = ground arith
IsExpired-iff (some now) a = ground (arith, IsMetered-iff a.tier)

abbrev pub IsIn : Account → List Account → Type 0
IsIn a [] = ⊥
IsIn a (b ∷ accounts) = (b ≡ a) ⊎ IsIn a accounts

-- The last account of an id is there, if one is.
last_account_lem :
    (id : ℕ) (accounts : List Account)
    → any (λ (a : Account). a.id == id) accounts ≡ true
    → (a : Account) × (last_account id accounts ≡ some a) × IsIn a accounts × (a.id ≡ id)
unfolding last_account
last_account_lem id [] h = cc
last_account_lem id (a ∷ rest) h = elim (Bool-cases (any (λ (b : Account). b.id == id) rest)) [
  | inl later ↦
      let (b, last, there, same) = last_account_lem id rest later in
      (b, rw last refl, inr there, same)
  | inr none_later ↦
      let here : (a.id == id) ≡ true = ground (arith, h, none_later) in
      (a, rw (last_none id rest none_later, here) refl, inl refl, (==_iff a.id id).0 here)
]
  where
    last_none :
        (i : ℕ) (l : List Account)
        → any (λ (b : Account). b.id == i) l ≡ false
        → last_account i l ≡ none
    last_none i [] k = refl
    last_none i (b ∷ l) k = ground (arith, k, last_none i l)

verdicts-Treats :
    (now : Option ℤ) (accounts : List Account) (p : Port) (d : Direction) (a : Account)
    → last_account p.account_id accounts ≡ some a
    → Treats now a (record { port_id = p.id; dir = d }) (verdicts now accounts p d)
unfolding verdicts
verdicts-Treats now accounts p d a last = elim (Bool-cases (expired_at a now)) [
  | inl late ↦ rw (verdicts, last, late) (inl ((IsExpired-iff now a).0 late, refl))
  | inr not_late ↦
      let current : ¬ IsExpired now a = λ h. (let late = (IsExpired-iff now a).1 h in cc) in
      elim (Bool-cases (has_quota a.tier)) [
        | inl quota ↦
            rw (verdicts, last, not_late, quota)
              (inr (inl (current, (IsMetered-iff a.tier).0 quota, refl)))
        | inr no_quota ↦
            rw (verdicts, last, not_late, no_quota)
              (inr (inr (current, λ h. (let quota = (IsMetered-iff a.tier).1 h in cc), refl)))
      ]
]

append_none : (vs : List Verdict) → vs ++ [] ≡ vs
append_none [] = refl
append_none (v ∷ vs) = ap (λ l. v ∷ l) (append_none vs)

All-keep_one :
    (P : Port → Type 0) (q : Port → Bool) (ports : List Port) (p : Port)
    → All P ports
    → keep q ports ≡ p ∷ []
    → P p
All-keep_one P q [] p h e = cc
All-keep_one P q (r ∷ ports) p h e = elim (Bool-cases (q r)) [
  | inl yes_r ↦ subst P (ground (arith, e, yes_r)) h.0
  | inr no_r ↦ All-keep_one P q ports p h.1 (ground (arith, e, no_r))
]

-- In a snapshot that Validate accepts, at most one port holds a port number. A packet with a number that no
-- port holds meets no rule. A packet with a number that a port holds meets the rules of that port's
-- account in its direction, and no other: a drop alone if the account has expired by the time of the
-- snapshot, else the breaker of the account's quota before the port's counter if the tier is a or b,
-- else the counter alone.
pub packet_rules :
    (convert : Float64 → ℕ) (s : Snapshot) (d : Direction) (n : ℕ)
    → validate s ≡ none
    → ((holders n s.ports ≡ []) × (matched d n (build_commands convert s) ≡ []))
      ⊎ ((p : Port) × (a : Account) × (holders n s.ports ≡ p ∷ [])
          × IsIn a s.accounts
          × (a.id ≡ p.account_id)
          × Treats s.now a
              (record { port_id = p.id; dir = d })
              (matched d n (build_commands convert s)))
unfolding all_verdicts
packet_rules convert s d n h = by_holders (holders n s.ports) refl (validate_single_owner s n h)
  where
    by_holders :
        (found : List Port)
        → holders n s.ports ≡ found
        → length found ≤ 1
        → ((holders n s.ports ≡ []) × (matched d n (build_commands convert s) ≡ []))
          ⊎ ((p : Port) × (a : Account) × (holders n s.ports ≡ p ∷ [])
              × IsIn a s.accounts
              × (a.id ≡ p.account_id)
              × Treats s.now a
                  (record { port_id = p.id; dir = d })
                  (matched d n (build_commands convert s)))
    by_holders [] e few =
        inl (e, matched-build_commands convert s d n h ∙ ap (all_verdicts s.now s.accounts d) e)
    by_holders (p ∷ []) e few =
        let owned =
          All-keep_one (PortIsValid s.accounts) (λ q. leb q.start n && leb n q.end) s.ports p
            ((validate_iff s).0 h).ports_valid e in
        let (a, last, there, same) = last_account_lem p.account_id s.accounts owned.1 in
        let rules : matched d n (build_commands convert s) ≡ verdicts s.now s.accounts p d =
          matched-build_commands convert s d n h
          ∙ ap (all_verdicts s.now s.accounts d) e
          ∙ append_none (verdicts s.now s.accounts p d) in
        inr (
          p,
          a,
          e,
          there,
          same,
          subst (Treats s.now a (record { port_id = p.id; dir = d })) (sym rules)
              (verdicts-Treats s.now s.accounts p d a last),
        )
    by_holders (p ∷ q ∷ rest) e few = absurd (omega (arith, few))
