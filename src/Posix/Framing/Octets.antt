-- ===== src/Posix/Framing/Octets.antt =====
-- Sizes in network order.
use d_app_libe.Base.{ℕ, ◌<◌, ◌^◌, ◌≡◌, refl, length, arith}
use d_app_libe.Posix.Framing.{network_order, host_order}

pub host_order-network_order : (n : ℕ) → n < 2 ^ 32 → host_order (network_order n) ≡ n
unfolding host_order network_order
host_order-network_order n h = omega arith

pub length-network_order : (n : ℕ) → length (network_order n) ≡ 4
unfolding network_order
length-network_order n = refl
