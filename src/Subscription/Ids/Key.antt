-- ===== src/Subscription/Ids/Key.antt =====
-- `make_sub_key` packs its two arguments without loss.
use Prim.Native.Nat.{bit_or}
use d_app_libe.Base.{ℕ, ◌+◌, ◌*◌, ◌%◌, ◌^◌, ◌<◌, ◌≡◌, ap, ◌∙◌, arith}
use d_app_libe.Base.Bits.{bit_or-disjoint}
use d_app_libe.Subscription.State.{make_sub_key}

make_sub_key_lem : (d r : ℕ) → d < 2 ^ 32 → r < 2 ^ 32 → make_sub_key d r ≡ d * 2 ^ 32 + r
unfolding make_sub_key
make_sub_key_lem d r hd hr =
    let fits : d * 2 ^ 32 % 2 ^ 64 ≡ d * 2 ^ 32 = omega arith in
    ap (λ k. bit_or k r) fits ∙ bit_or-disjoint 32 d r hr

-- Two pairs of 32-bit identifiers with one composite key are one pair.
pub make_sub_key-injective :
    (d r e q : ℕ)
    → d < 2 ^ 32
    → r < 2 ^ 32
    → e < 2 ^ 32
    → q < 2 ^ 32
    → make_sub_key d r ≡ make_sub_key e q
    → (d ≡ e) × (r ≡ q)
make_sub_key-injective d r e q hd hr he hq same =
    omega (arith, make_sub_key_lem d r hd hr, make_sub_key_lem e q he hq)
