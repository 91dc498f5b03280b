-- ===== src/Examples/Hosts.antt =====
-- Examples of the theorem on internal/system/system.go: a host with an old kernel.
use nfuse.Base.{ℕ, ◌≤◌, ◌<◌, ◌≡◌, ◌↔◌, ◌⊎◌, refl, none, [], ◌∷◌, ◌++◌, ok, arith}
use nfuse.Base.Text.{Text, codes, trim_space, trim_left, is_space}
use nfuse.Base.Decimal.{itoa, digits, is_digit}
use nfuse.System.{check_netdev_egress, check_netdev_egress_iff}

abbrev release : Text
release = codes "5.15.0-91-generic" ++ 10 ∷ []

release_trimmed : trim_space release ≡ itoa 5 ++ (b'.' ∷ (itoa 15 ++ codes ".0-91-generic"))
unfolding trim_space trim_left is_space itoa digits
release_trimmed = refl

check_netdev_egress_iff_example :
    (check_netdev_egress (ok release) ≡ none) ↔ ((5 < 5) ⊎ (◌≡◌ {A = ℕ} 5 5) × (16 ≤ 15))
unfolding is_digit
check_netdev_egress_iff_example =
    check_netdev_egress_iff 5 15 (codes ".0-91-generic") release (ground arith) (ground arith) refl
      release_trimmed
