-- ===== src/Mpmc/Refine/Pop.antt =====
-- A quiet ring behaves as a bounded FIFO queue: `try_pop`.
use Prim.Native.Nat.{bit_and}
use d_app_libe.Base.{
  ℕ, zero, suc, ◌+◌, ◌-◌, ◌%◌, ◌^◌, ◌<◌, ◌≡◌, refl, ap, ◌∙◌, Bool, false, some, none, List, [], ◌∷◌,
  if◌then◌else◌, length, arith, inl, inr, Bool-cases,
}
use native.Mathlib.Nat.{add-mod_right, mod-lt}
use d_app_libe.Base.Arrays.{get_elem?, set, get_elem?-set_self, length-set}
use d_app_libe.Mpmc.Defs.{MpmcQueue, Slot, pop_loop, try_pop, recycle_slot}
use d_app_libe.Mpmc.Represents.{Represents, Free-set, Filled-set_behind, Free-snoc}
use d_app_libe.Mpmc.Refine.{slot_of, Free-first}

module _ {ℓ} {A : Type ℓ} (moved_from : A → A) where
  pop_loop_round :
      (spurious : ℕ → Bool) (fuel : ℕ) (x : A) (q : MpmcQueue A)
      → q.tail + 1 < 2 ^ 63
      → get_elem? q.buffer (bit_and q.tail q.mask)
        ≡ some (record { sequence = q.tail + 1; value = x })
      → pop_loop moved_from spurious (suc fuel) q.tail q ≡ (
          if spurious fuel
          then pop_loop moved_from spurious fuel q.tail q
          else some (recycle_slot moved_from q.tail x q, some x))
  unfolding pop_loop
  pop_loop_round spurious fuel x q far e = rw (e, pop_loop) (ground arith)

  pop_loop_empty :
      (spurious : ℕ → Bool) (fuel : ℕ) (v : A) (q : MpmcQueue A)
      → q.tail + 1 < 2 ^ 63
      → get_elem? q.buffer (bit_and q.tail q.mask) ≡ some (record { sequence = q.tail; value = v })
      → pop_loop moved_from spurious (suc fuel) q.tail q ≡ some (q, none)
  unfolding pop_loop
  pop_loop_empty spurious fuel v q far e = rw (e, pop_loop) (ground arith)

  pop_loop_retries :
      (spurious : ℕ → Bool) (fuel n : ℕ) (x : A) (q : MpmcQueue A)
      → q.tail + 1 < 2 ^ 63
      → get_elem? q.buffer (bit_and q.tail q.mask)
        ≡ some (record { sequence = q.tail + 1; value = x })
      → n < fuel
      → spurious n ≡ false
      → pop_loop moved_from spurious fuel q.tail q
        ≡ some (recycle_slot moved_from q.tail x q, some x)
  pop_loop_retries spurious zero n x q far e h good = absurd (omega arith)
  pop_loop_retries spurious (suc fuel) n x q far e h good = elim (Bool-cases (spurious fuel)) [
    | inl fails ↦
        rw (pop_loop_round spurious fuel x q far e, fails)
          (pop_loop_retries spurious fuel n x q far e (ground arith) good)
    | inr works ↦ rw (pop_loop_round spurious fuel x q far e, works)
  ]

  module _ (q : MpmcQueue A) (x : A) (xs : List A) (room : ℕ) (r : Represents q (x ∷ xs) room) where
    abbrev popped_slot : Slot A
    popped_slot = record { sequence = q.tail + q.capacity; value = moved_from x }

    popped : List (Slot A)
    popped = set q.buffer (q.tail % q.capacity) popped_slot

    recycled : recycle_slot moved_from q.tail x q ≡ record q { buffer = popped; tail = q.tail + 1 }
    unfolding recycle_slot popped
    recycled =
        let far = r.far in
        let counted = r.counted in
        let no_wrap : (q.tail + 1) % 2 ^ 64 ≡ q.tail + 1 = omega arith in
        let no_wrap' : (q.tail + q.capacity) % 2 ^ 64 ≡ q.tail + q.capacity = omega arith in
        rw (slot_of q.tail r, no_wrap, no_wrap')

    popped-Represents : Represents (record q { buffer = popped; tail = q.tail + 1 }) xs room
    unfolding popped
    popped-Represents =
        let two = r.at_least_two in
        let far = r.far in
        let counted = r.counted in
        let slots = r.slots in
        let bounded = r.bounded in
        let left = q.capacity - length (x ∷ xs) in
        let in_range = mod-lt q.tail {m = q.capacity} (omega arith) in
        let more : q.capacity - length xs ≡ suc left = omega arith in
        let wrapped = get_elem?-set_self q.buffer (q.tail % q.capacity) popped_slot (omega arith) in
        record {
          exponent = r.exponent;
          at_least_two = r.at_least_two;
          capacity_power = r.capacity_power;
          mask_ones = r.mask_ones;
          slots = length-set q.buffer (q.tail % q.capacity) popped_slot ∙ r.slots;
          counted = omega arith;
          bounded = omega arith;
          far = omega arith;
          filled =
              Filled-set_behind q.buffer q.capacity (q.tail + 1) q.tail popped_slot xs (omega arith)
                (omega arith) r.filled.1;
          free = rw more (
              Free-snoc popped q.capacity q.head (q.tail + q.capacity) left (moved_from x)
                (omega arith) (rw (add-mod_right q.tail q.capacity) wrapped)
                (Free-set q.buffer q.capacity q.head q.tail popped_slot left (omega arith)
                  (omega arith) r.free));
        }

    -- On a ring that holds `x` in front of `xs`, a pop by a lone thread returns `x` and leaves the
    -- ring with `xs`; the compare-and-swap may fail spuriously, as long as it does not in one of
    -- the rounds for which there is fuel.
    pub try_pop-cons :
        (spurious : ℕ → Bool) (fuel n : ℕ)
        → n < fuel
        → spurious n ≡ false
        → (q' : MpmcQueue A) × (try_pop moved_from spurious fuel q ≡ some (q', some x))
          × Represents q' xs room
          × (q'.capacity ≡ q.capacity)
    unfolding try_pop
    try_pop-cons spurious fuel n h good =
        let far = r.far in
        let counted = r.counted in
        let two = r.at_least_two in
        (
          record q { buffer = popped; tail = q.tail + 1 },
          pop_loop_retries spurious fuel n x q (omega arith) (rw (slot_of q.tail r) r.filled.0) h
                good
              ∙ ap (λ k. some (k, some x)) recycled,
          popped-Represents,
          refl,
        )

  -- On an empty ring a pop fails at once and changes nothing.
  pub try_pop-nil :
      (q : MpmcQueue A) (room : ℕ)
      → Represents q [] room
      → (spurious : ℕ → Bool) (fuel : ℕ) → try_pop moved_from spurious (suc fuel) q ≡ some (q, none)
  unfolding try_pop
  try_pop-nil q room r spurious fuel =
      let far = r.far in
      let two = r.at_least_two in
      let same : q.head ≡ q.tail = omega (arith, r.counted) in
      let (v, slot) =
        Free-first q.buffer q.capacity q.tail (q.capacity - 0) (omega arith) (rw same at r.free) in
      pop_loop_empty spurious fuel v q (omega arith) (rw (slot_of q.tail r) slot)
