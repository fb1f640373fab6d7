-- ===== src/Mpmc/Fifo.antt =====
-- Sequences of calls on a ring against the bounded FIFO queue of its values.
use d_app_libe.Base.{
  ℕ, zero, suc, ◌+◌, ◌-◌, ◌%◌, ◌^◌, ◌≤◌, ◌<◌, ◌≡◌, refl, ap, Bool, false, Option, some, none, List,
  [], ◌∷◌, ◌++◌, ltb, ltb→lt, if◌then◌else◌, length, arith, inl, inr, Bool-cases,
}
use mathlib.Core.Option
use native.Mathlib.Nat.{mod-eq_of_lt, zero-add}
use d_app_libe.Base.Arrays.{get_elem?}
use d_app_libe.Mpmc.Defs.{MpmcQueue, fresh_slots, of_capacity, try_push, try_pop}
use d_app_libe.Mpmc.Represents.{Represents, Free}
use d_app_libe.Mpmc.Refine.{try_push-space, try_push-full}
use d_app_libe.Mpmc.Refine.Pop.{try_pop-cons, try_pop-nil}

pub data Call {ℓ} (A : Type ℓ) : Type ℓ where
  push : A → Call A
  pop : Call A

pub data Reply {ℓ} (A : Type ℓ) : Type ℓ where
  pushed : Bool → Reply A
  popped : Option A → Reply A

module _ {ℓ} {A : Type ℓ} where
  -- The specification: a list of at most `cap` values, oldest first.
  unfoldable pub fifo_replies : ℕ → List A → List (Call A) → List (Reply A)
  fifo_replies cap xs [] = []
  fifo_replies cap xs (push x ∷ cs) =
      let fits = ltb (length xs) cap in
      let rest = fifo_replies cap (if fits then xs ++ (x ∷ []) else xs) cs in pushed fits ∷ rest
  fifo_replies cap [] (pop ∷ cs) = popped none ∷ fifo_replies cap [] cs
  fifo_replies cap (x ∷ xs) (pop ∷ cs) = popped (some x) ∷ fifo_replies cap xs cs

  -- A new ring holds nothing.
  get_elem?-fresh_slots :
      (default : A) (n s i : ℕ)
      → i < n
      → get_elem? (fresh_slots default n s) i ≡ some (record { sequence = s + i; value = default })
  unfolding get_elem? fresh_slots
  get_elem?-fresh_slots default zero s i h = absurd (omega arith)
  get_elem?-fresh_slots default (suc n) s zero h = ground arith
  get_elem?-fresh_slots default (suc n) s (suc i) h =
      ground (arith, get_elem?-fresh_slots default n (s + 1) i)

  length-fresh_slots : (default : A) (n s : ℕ) → length (fresh_slots default n s) ≡ n
  unfolding fresh_slots
  length-fresh_slots default zero s = refl
  length-fresh_slots default (suc n) s = ap suc (length-fresh_slots default n (s + 1))

  Free-fresh_slots :
      (default : A) (cap p n : ℕ) → p + n ≤ cap → Free (fresh_slots default cap 0) cap p n
  Free-fresh_slots default cap p zero h = tt
  Free-fresh_slots default cap p (suc n) h =
      let inside : p % cap ≡ p = mod-eq_of_lt (omega arith) in
      (
        (default, rw (inside, get_elem?-fresh_slots default cap 0 p (omega arith), zero-add)),
        Free-fresh_slots default cap (p + 1) n (omega arith),
      )

  pub of_capacity-Represents :
      (default : A) (k room : ℕ)
      → 2 ≤ 2 ^ k
      → 2 ^ k + room < 2 ^ 63
      → Represents (of_capacity default (2 ^ k)) [] room
  unfolding of_capacity
  of_capacity-Represents default k room two far = record {
    exponent = k;
    at_least_two = two;
    capacity_power = refl;
    mask_ones = refl;
    slots = length-fresh_slots default (2 ^ k) 0;
    counted = refl;
    bounded = omega arith;
    far = omega arith;
    filled = tt;
    free = Free-fresh_slots default (2 ^ k) 0 (2 ^ k - 0) (omega arith);
  }

  module _ (moved_from : A → A) (spurious : ℕ → Bool) (fuel : ℕ) where
    -- The ring's answers to a lone thread's calls in order.
    unfoldable pub ring_replies : MpmcQueue A → List (Call A) → Option (List (Reply A))
    ring_replies q [] = some []
    ring_replies q (push x ∷ cs) = elim (try_push spurious fuel x q) [
      | none ↦ none
      | some (q', done) ↦ Option.map (λ rest. pushed done ∷ rest) (ring_replies q' cs)
    ]
    ring_replies q (pop ∷ cs) = elim (try_pop moved_from spurious fuel q) [
      | none ↦ none
      | some (q', out) ↦ Option.map (λ rest. popped out ∷ rest) (ring_replies q' cs)
    ]

  pub Represents-weaken :
      (q : MpmcQueue A) (xs : List A) (room : ℕ) → Represents q xs (suc room) → Represents q xs room
  Represents-weaken q xs room r = record {
    exponent = r.exponent;
    at_least_two = r.at_least_two;
    capacity_power = r.capacity_power;
    mask_ones = r.mask_ones;
    slots = r.slots;
    counted = r.counted;
    bounded = r.bounded;
    far = let far = r.far in omega arith;
    filled = r.filled;
    free = r.free;
  }

  module _ (moved_from : A → A) (spurious : ℕ → Bool) (fuel n : ℕ) (in_time : n < suc fuel)
      (works : spurious n ≡ false) where
    -- No sequence of a lone thread's calls tells a ring from the bounded FIFO queue of its values:
    -- every call returns, with the queue's answer, as long as no position reaches 2^63 and each
    -- compare-and-swap works within the rounds for which there is fuel.
    pub ring_replies_refine :
        (cs : List (Call A)) (q : MpmcQueue A) (xs : List A)
        → Represents q xs (length cs)
        → ring_replies moved_from spurious (suc fuel) q cs ≡ some (fifo_replies q.capacity xs cs)
    unfolding ring_replies fifo_replies
    ring_replies_refine [] q xs r = refl
    ring_replies_refine (push x ∷ cs) q xs r = elim (Bool-cases (ltb (length xs) q.capacity)) [
      | inl fits ↦
          let (q', e, r', same) =
            try_push-space q xs (length cs) r spurious (suc fuel) n x in_time works
              (ltb→lt (length xs) q.capacity fits) in
          rw (e, ring_replies, fits, ring_replies_refine cs q' _ r', same)
      | inr full ↦
          let bounded = r.bounded in
          let e = try_push-full q xs (length cs) r spurious fuel x (ground arith) in
          rw (e, ring_replies, full, ring_replies_refine cs q xs (Represents-weaken q xs _ r))
    ]
    ring_replies_refine (pop ∷ cs) q [] r =
        let e = try_pop-nil moved_from q (suc (length cs)) r spurious fuel in
        rw (e, ring_replies, ring_replies_refine cs q [] (Represents-weaken q [] _ r))
    ring_replies_refine (pop ∷ cs) q (x ∷ xs) r =
        let (q', e, r', same) =
          try_pop-cons moved_from q x xs (suc (length cs)) r spurious (suc fuel) n in_time works in
        rw (e, ring_replies, ring_replies_refine cs q' xs (Represents-weaken q' xs _ r'), same)
