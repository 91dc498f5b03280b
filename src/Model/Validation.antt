-- ===== src/Model/Validation.antt =====
-- What Snapshot.Validate of internal/model/model.go accepts.
use nfuse.Base.{
  ℕ, ◌≤◌, ◌<◌, ◌⊎◌, some, ◌≡◌, refl, ◌↔◌, sym, ◌∙◌, true, false, ◌&&◌, none, List, [], ◌∷◌, ◌++◌,
  arith, leb, ◌==◌, find, any, All, All-mono, All-append_iff, keep, length,
}
use nfuse.Model.{
  Account, Port, Tier, monthly, one_shot, unlimited, other, Snapshot, valid, has_quota, valid_range,
  overlaps, validate_account, validate_accounts, validate_port, validate_ports, validate,
}
use nfuse.Base.Float64.{Float64, nan, inf, fin, le_zero}
use nfuse.Base.Int.{ℤ}
use nfuse.Model.Ports.{overlaps_comm, Holds}

abbrev pub AccountIsAccepted : Account → Type 0
AccountIsAccepted a = (valid a.tier ≡ true) × ((has_quota a.tier && le_zero a.limit_gib) ≡ false)

abbrev pub PortIsAccepted : List Account → Port → Type 0
PortIsAccepted accounts p =
    (any (λ a. a.id == p.account_id) accounts ≡ true) × (valid_range p ≡ true)

abbrev pub Apart : Port → Port → Type 0
Apart p q = overlaps p q ≡ false

abbrev pub Disjoint : List Port → Type 0
Disjoint [] = Unit {0}
Disjoint (p ∷ ps) = All (Apart p) ps × Disjoint ps

pub record IsAccepted (s : Snapshot) : Type 0 where
  pub accounts_valid : All AccountIsAccepted s.accounts
  pub ports_valid : All (PortIsAccepted s.accounts) s.ports
  pub disjoint : Disjoint s.ports

-- No port of the list overlaps one of `seen`.
abbrev Fresh : List Port → List Port → Type 0
Fresh seen = All (λ p. All (Apart p) seen)

pub Apart-sym : (p q : Port) → Apart p q → Apart q p
Apart-sym p q h = overlaps_comm q p ∙ h

find-none_iff : (p : Port) (seen : List Port) → (find (overlaps p) seen ≡ none) ↔ All (Apart p) seen
find-none_iff p [] = ground arith
find-none_iff p (q ∷ seen) = let ih = find-none_iff p seen in ground (arith, ih)

Fresh-snoc :
    (p : Port) (seen ps : List Port)
    → Fresh (seen ++ p ∷ []) ps ↔ (Fresh seen ps × All (Apart p) ps)
Fresh-snoc p seen [] = ground arith
Fresh-snoc p seen (r ∷ ps) =
    let here = All-append_iff (Apart r) seen (p ∷ []) in
    let ih = Fresh-snoc p seen ps in
    let flip = overlaps_comm p r in
    (
      λ h. (((here.0 h.0).0, (ih.0 h.1).0), (flip ∙ (here.0 h.0).1.0, (ih.0 h.1).1)),
      λ h. (here.1 (h.0.0, (sym flip ∙ h.1.0, tt)), ih.1 (h.0.1, h.1.1)),
    )

validate_account_iff : (a : Account) → (validate_account a ≡ none) ↔ AccountIsAccepted a
unfolding validate_account
validate_account_iff a = ground arith

validate_accounts_iff : (l : List Account) → (validate_accounts l ≡ none) ↔ All AccountIsAccepted l
unfolding validate_accounts
validate_accounts_iff [] = ground arith
validate_accounts_iff (a ∷ l) = ground (arith, validate_account_iff a, validate_accounts_iff l)

validate_port_iff :
    (accounts : List Account) (seen : List Port) (p : Port)
    → (validate_port accounts seen p ≡ none) ↔ (PortIsAccepted accounts p × All (Apart p) seen)
unfolding validate_port
validate_port_iff accounts seen p = ground (arith, find-none_iff p seen)

validate_ports_iff :
    (accounts : List Account) (seen ps : List Port)
    → (validate_ports accounts seen ps ≡ none)
      ↔ (All (PortIsAccepted accounts) ps × Fresh seen ps × Disjoint ps)
unfolding validate_ports
validate_ports_iff accounts seen [] = ground arith
validate_ports_iff accounts seen (p ∷ ps) =
    let here = validate_port_iff accounts seen p in
    let ih = validate_ports_iff accounts (seen ++ p ∷ []) ps in
    let fresh = Fresh-snoc p seen ps in ground (arith, here, ih, fresh)

Fresh-nil : (ps : List Port) → Fresh [] ps
Fresh-nil [] = tt
Fresh-nil (p ∷ ps) = (tt, Fresh-nil ps)

pub validate_accepts_iff : (s : Snapshot) → (validate s ≡ none) ↔ IsAccepted s
unfolding validate
validate_accepts_iff s = ground (
  arith,
  validate_accounts_iff s.accounts,
  validate_ports_iff s.accounts [] s.ports,
  Fresh-nil s.ports,
)

-- The time plays no part.
pub validate_at : (s : Snapshot) (now : ℤ) → validate (record s { now = some now }) ≡ validate s
unfolding validate
validate_at s now = refl

abbrev pub IsMetered : Tier → Type 0
IsMetered t = (t ≡ monthly) ⊎ (t ≡ one_shot)

-- At most zero, as a comparison of floats has it: a NaN is not.
abbrev pub IsAtMostZero : Float64 → Type 0
IsAtMostZero nan = ⊥
IsAtMostZero (inf negative) = negative ≡ true
IsAtMostZero (fin negative mantissa exponent) = (negative ≡ true) ⊎ (mantissa ≡ 0)

-- The tier is known, and the limit of a tier with a quota is not at most zero.
abbrev pub AccountIsValid : Account → Type 0
AccountIsValid a =
    (IsMetered a.tier ⊎ (a.tier ≡ unlimited)) × ¬ (IsMetered a.tier × IsAtMostZero a.limit_gib)

-- The interval is not empty and starts at 1 or above, and an account has the port.
abbrev pub PortIsValid : List Account → Port → Type 0
PortIsValid accounts p =
    ((1 ≤ p.start) × (p.start ≤ p.end)) × (any (λ a. a.id == p.account_id) accounts ≡ true)

-- One of the intervals ends before the other starts.
abbrev pub IsBeside : Port → Port → Type 0
IsBeside p q = (p.end < q.start) ⊎ (q.end < p.start)

abbrev pub AreBeside : List Port → Type 0
AreBeside [] = Unit {0}
AreBeside (p ∷ ps) = All (IsBeside p) ps × AreBeside ps

pub record IsValid (s : Snapshot) : Type 0 where
  pub accounts_valid : All AccountIsValid s.accounts
  pub ports_valid : All (PortIsValid s.accounts) s.ports
  pub beside : AreBeside s.ports

IsAtMostZero-iff : (x : Float64) → (le_zero x ≡ true) ↔ IsAtMostZero x
unfolding le_zero
IsAtMostZero-iff nan = ground arith
IsAtMostZero-iff (inf negative) = ground arith
IsAtMostZero-iff (fin negative mantissa exponent) = ground arith

pub IsMetered-iff : (t : Tier) → (has_quota t ≡ true) ↔ IsMetered t
unfolding has_quota
IsMetered-iff monthly = ground arith
IsMetered-iff one_shot = ground arith
IsMetered-iff unlimited = ground arith
IsMetered-iff (other s) = ground arith

valid_iff : (t : Tier) → (valid t ≡ true) ↔ (IsMetered t ⊎ (t ≡ unlimited))
unfolding valid
valid_iff monthly = ground arith
valid_iff one_shot = ground arith
valid_iff unlimited = ground arith
valid_iff (other s) = ground arith

AccountIsValid-iff : (a : Account) → AccountIsAccepted a ↔ AccountIsValid a
AccountIsValid-iff a =
    ground (arith, valid_iff a.tier, IsMetered-iff a.tier, IsAtMostZero-iff a.limit_gib)

PortIsValid-iff :
    (accounts : List Account) (p : Port) → PortIsAccepted accounts p ↔ PortIsValid accounts p
unfolding valid_range
PortIsValid-iff accounts p = ground arith

Apart-iff : (p q : Port) → Apart p q ↔ IsBeside p q
unfolding overlaps
Apart-iff p q = ground arith

All-iff :
    {A : Type 0} {P Q : A → Type 0} (xs : List A) → ((x : A) → P x ↔ Q x) → All P xs ↔ All Q xs
All-iff xs h = (All-mono (λ x. (h x).0) xs, All-mono (λ x. (h x).1) xs)

AreBeside-iff : (ps : List Port) → Disjoint ps ↔ AreBeside ps
AreBeside-iff [] = (λ d. d, λ d. d)
AreBeside-iff (p ∷ ps) =
    let here = All-iff ps (Apart-iff p) in
    let ih = AreBeside-iff ps in (λ d. (here.0 d.0, ih.0 d.1), λ d. (here.1 d.0, ih.1 d.1))

-- Validate accepts a snapshot exactly when every account has the tier a, b or c, and under a or b a limit
-- that is not at most zero (which a NaN is not either), every port belongs to an account of the
-- snapshot and has an interval from 1 or above that is not empty, and of any two ports one ends
-- before the other starts.
pub validate_iff : (s : Snapshot) → (validate s ≡ none) ↔ IsValid s
validate_iff s =
    let accepts = validate_accepts_iff s in
    let accounts = All-iff s.accounts AccountIsValid-iff in
    let ports = All-iff s.ports (PortIsValid-iff s.accounts) in
    let beside = AreBeside-iff s.ports in
    (
      λ h.
          let v = accepts.0 h in
          record {
            accounts_valid = accounts.0 v.accounts_valid;
            ports_valid = ports.0 v.ports_valid;
            beside = beside.0 v.disjoint;
          },
      λ v. accepts.1 (record {
        accounts_valid = accounts.1 v.accounts_valid;
        ports_valid = ports.1 v.ports_valid;
        disjoint = beside.1 v.beside;
      }),
    )

-- The ports that hold a port number.
abbrev pub holders : ℕ → List Port → List Port
holders n = keep (λ p. leb p.start n && leb n p.end)

holders-Apart :
    (p : Port) (n : ℕ) (ps : List Port) → Holds p n → All (Apart p) ps → holders n ps ≡ []
unfolding overlaps
holders-Apart p n [] h apart = refl
holders-Apart p n (q ∷ ps) h apart = ground (arith, holders-Apart p n ps h apart.1)

Disjoint-holders : (n : ℕ) (ps : List Port) → Disjoint ps → length (holders n ps) ≤ 1
Disjoint-holders n [] d = omega arith
Disjoint-holders n (p ∷ ps) d = ground (arith, holders-Apart p n ps, Disjoint-holders n ps d.1)

pub validate_single_owner :
    (s : Snapshot) (n : ℕ) → validate s ≡ none → length (holders n s.ports) ≤ 1
validate_single_owner s n h = Disjoint-holders n s.ports ((validate_accepts_iff s).0 h).disjoint
