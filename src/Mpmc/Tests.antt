-- ===== src/Mpmc/Tests.antt =====
-- The ring at small sizes, and its theorems there.
use d_app_libe.Base.{ℕ, ◌≡◌, ◌⊎◌, ◌*◌, ◌^◌, ◌≤◌, ◌<◌, refl, Bool, some, List, [], ◌∷◌, ltb, arith}
use d_app_libe.Mpmc.Defs.{MpmcQueue, of_capacity, round_up}
use d_app_libe.Mpmc.Capacity.{round_up-power}
use d_app_libe.Mpmc.Represents.{Represents}
use d_app_libe.Mpmc.Fifo.{
  Call, push, pop, fifo_replies, ring_replies, ring_replies_refine, of_capacity-Represents,
}

abbrev two_slots : MpmcQueue ℕ
two_slots = of_capacity 0 2

-- The third push finds the ring full, and the last pop finds it empty.
abbrev calls : List (Call ℕ)
calls = push 10 ∷ push 11 ∷ push 12 ∷ pop ∷ push 13 ∷ pop ∷ pop ∷ pop ∷ []

-- Every second round fails spuriously.
abbrev fails_at_first : ℕ → Bool
fails_at_first n = ltb 0 n

two_slots-Represents : Represents two_slots [] 8
two_slots-Represents = of_capacity-Represents 0 1 8 (omega arith) (omega arith)

ring_replies_refine_example :
    ring_replies (λ x. x) fails_at_first 2 two_slots calls ≡ some (fifo_replies 2 [] calls)
unfolding of_capacity
ring_replies_refine_example =
    ring_replies_refine (λ x. x) fails_at_first 1 0 (omega arith) refl calls two_slots []
      two_slots-Represents

round_up-power_example :
    (n : ℕ) × (round_up 63 2 1000 ≡ some (2 ^ n))
    × (1 ≤ n)
    × (n ≤ 63)
    × (1000 ≤ 2 ^ n)
    × ((n ≡ 1) ⊎ (2 ^ n < 1000 * 2))
round_up-power_example = round_up-power 1000 (omega arith)
