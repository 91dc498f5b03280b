-- ===== src/Model/Ports.antt =====
-- Port intervals of internal/model/model.go as sets of port numbers.
use Prim.Native.Nat.{max}
use nfuse.Base.{ℕ, ◌≤◌, ◌≡◌, ◌↔◌, true, arith}
use nfuse.Model.{Port, overlaps, valid_range}

-- The interval holds the number.
abbrev pub Holds : Port → ℕ → Type 0
Holds p n = (p.start ≤ n) × (n ≤ p.end)

-- Two well-formed intervals overlap exactly when some port number lies in both.
overlaps_iff :
    (p q : Port)
    → valid_range p ≡ true
    → valid_range q ≡ true
    → (overlaps p q ≡ true) ↔ ((n : ℕ) × Holds p n × Holds q n)
unfolding overlaps valid_range
overlaps_iff p q hp hq = (λ h. (max p.start q.start, ground arith, ground arith), λ h. ground arith)

pub overlaps_comm : (p q : Port) → overlaps p q ≡ overlaps q p
unfolding overlaps
overlaps_comm p q = ground arith
