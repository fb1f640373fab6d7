-- ===== src/Mpmc/Refine.antt =====
-- A quiet ring behaves as a bounded FIFO queue: `try_push`.
pub mod Pop
use Prim.Native.Nat.{bit_and}
use d_app_libe.Base.{
  ℕ, zero, suc, ◌+◌, ◌-◌, ◌%◌, ◌^◌, ◌≤◌, ◌<◌, ◌≡◌, refl, sym, ap, subst, ◌∙◌, Bool, true, false,
  Option, some, none, List, [], ◌∷◌, ◌++◌, if◌then◌else◌, length, length-append, arith, inl, inr,
  Bool-cases,
}
use native.Mathlib.Nat.{add-mod_right, mod-lt}
use d_app_libe.Base.Bits.{bit_and-mask}
use d_app_libe.Base.Arrays.{get_elem?, set, get_elem?-set_self, length-set}
use d_app_libe.Mpmc.Defs.{MpmcQueue, Slot, push_loop, try_push, write_slot, size_mod, sign_of_diff}
use d_app_libe.Mpmc.Represents.{Represents, Filled, Free, Filled-set, Free-set, Filled-snoc}

module _ {ℓ} {A : Type ℓ} where
  pub Free-first :
      (buf : List (Slot A)) (cap p n : ℕ)
      → 0 < n
      → Free buf cap p n
      → (v : A) × (get_elem? buf (p % cap) ≡ some (record { sequence = p; value = v }))
  Free-first buf cap p zero h f = absurd (omega arith)
  Free-first buf cap p (suc n) h f = f.0

  pub Free-rest :
      (buf : List (Slot A)) (cap p n k : ℕ) → n ≡ suc k → Free buf cap p n → Free buf cap (p + 1) k
  Free-rest buf cap p n k e f = let g = subst (Free buf cap p) e f in g.1

  Filled-first :
      (buf : List (Slot A)) (cap p : ℕ) (xs : List A)
      → 0 < length xs
      → Filled buf cap p xs
      → (v : A) × (get_elem? buf (p % cap) ≡ some (record { sequence = p + 1; value = v }))
  Filled-first buf cap p [] h f = absurd (omega arith)
  Filled-first buf cap p (x ∷ xs) h f = (x, f.0)

  -- The masked position is its remainder by the capacity.
  pub slot_of :
      {q : MpmcQueue A} {xs : List A} {room : ℕ} (pos : ℕ)
      → Represents q xs room
      → bit_and pos q.mask ≡ pos % q.capacity
  slot_of pos r = rw (r.mask_ones, r.capacity_power) (bit_and-mask r.exponent pos)

  -- What one round of the loop does at a free slot, and at one that is still in use.
  push_loop_round :
      (spurious : ℕ → Bool) (fuel : ℕ) (x v : A) (q : MpmcQueue A)
      → get_elem? q.buffer (bit_and q.head q.mask) ≡ some (record { sequence = q.head; value = v })
      → push_loop spurious (suc fuel) q.head x q ≡ (
          if spurious fuel
          then push_loop spurious fuel q.head x q
          else some (write_slot q.head x q, true))
  unfolding push_loop
  push_loop_round spurious fuel x v q e = rw (e, push_loop) (ground arith)

  push_loop_full :
      (spurious : ℕ → Bool) (fuel s : ℕ) (x v : A) (q : MpmcQueue A)
      → get_elem? q.buffer (bit_and q.head q.mask) ≡ some (record { sequence = s; value = v })
      → s < q.head
      → q.head < 2 ^ 63
      → push_loop spurious (suc fuel) q.head x q ≡ some (q, false)
  unfolding push_loop
  push_loop_full spurious fuel s x v q e lo hi = rw (e, push_loop) (ground arith)

  -- Spurious failures are retried.
  push_loop_retries :
      (spurious : ℕ → Bool) (fuel n : ℕ) (x v : A) (q : MpmcQueue A)
      → get_elem? q.buffer (bit_and q.head q.mask) ≡ some (record { sequence = q.head; value = v })
      → n < fuel
      → spurious n ≡ false
      → push_loop spurious fuel q.head x q ≡ some (write_slot q.head x q, true)
  push_loop_retries spurious zero n x v q e h good = absurd (omega arith)
  push_loop_retries spurious (suc fuel) n x v q e h good = elim (Bool-cases (spurious fuel)) [
    | inl fails ↦
        rw (push_loop_round spurious fuel x v q e, fails)
          (push_loop_retries spurious fuel n x v q e (ground arith) good)
    | inr works ↦ rw (push_loop_round spurious fuel x v q e, works)
  ]

  module _ (q : MpmcQueue A) (xs : List A) (room : ℕ) (r : Represents q xs (suc room)) where
    abbrev at_head : ℕ
    at_head = bit_and q.head q.mask

    head_free :
        length xs < q.capacity
        → (v : A) × (get_elem? q.buffer at_head ≡ some (record { sequence = q.head; value = v }))
    head_free space =
        rw (slot_of q.head r)
          (Free-first q.buffer q.capacity q.head (q.capacity - length xs) (omega arith) r.free)

    head_taken :
        length xs ≡ q.capacity
        → (v : A) × (get_elem? q.buffer at_head
            ≡ some (record { sequence = q.tail + 1; value = v }))
    head_taken full =
        let round : q.head % q.capacity ≡ q.tail % q.capacity =
          ap (λ k. k % q.capacity) (omega (arith, r.counted)) ∙ add-mod_right q.tail q.capacity in
        let two = r.at_least_two in
        rw (slot_of q.head r, round)
          (Filled-first q.buffer q.capacity q.tail xs (omega arith) r.filled)

    -- The ring after a push.
    pushed : A → List (Slot A)
    pushed x = set q.buffer (q.head % q.capacity) (record { sequence = q.head + 1; value = x })

    written : (x : A) → write_slot q.head x q ≡ record q { buffer = pushed x; head = q.head + 1 }
    unfolding write_slot pushed
    written x =
        let far = r.far in
        let no_wrap : (q.head + 1) % 2 ^ 64 ≡ q.head + 1 = omega arith in
        rw (slot_of q.head r, no_wrap)

    pushed-Represents :
        (x : A)
        → length xs < q.capacity
        → Represents (record q { buffer = pushed x; head = q.head + 1 }) (xs ++ (x ∷ [])) room
    unfolding pushed
    pushed-Represents x space =
        let two = r.at_least_two in
        let far = r.far in
        let counted = r.counted in
        let slots = r.slots in
        let longer = length-append xs (x ∷ []) in
        let slot : Slot A = record { sequence = q.head + 1; value = x } in
        let in_range = mod-lt q.head {m = q.capacity} (omega arith) in
        record {
          exponent = r.exponent;
          at_least_two = r.at_least_two;
          capacity_power = r.capacity_power;
          mask_ones = r.mask_ones;
          slots = length-set q.buffer (q.head % q.capacity) slot ∙ r.slots;
          counted = omega arith;
          bounded = omega arith;
          far = omega arith;
          filled =
              Filled-snoc (pushed x) q.capacity q.tail q.head x xs r.counted
                (get_elem?-set_self q.buffer (q.head % q.capacity) slot (omega arith))
                (Filled-set q.buffer q.capacity q.tail q.head slot xs (omega arith) (omega arith)
                  r.filled);
          free =
              Free-set q.buffer q.capacity (q.head + 1) q.head slot
                (q.capacity - length (xs ++ (x ∷ []))) (omega arith) (omega arith)
                (Free-rest q.buffer q.capacity q.head (q.capacity - length xs)
                  (q.capacity - length (xs ++ (x ∷ []))) (omega arith) r.free);
        }

    -- On a ring that holds `xs` and has room, a push by a lone thread succeeds, and the ring then
    -- holds `xs` with the value behind it; the compare-and-swap may fail spuriously, as long as it
    -- does not in one of the rounds for which there is fuel.
    pub try_push-space :
        (spurious : ℕ → Bool) (fuel n : ℕ) (x : A)
        → n < fuel
        → spurious n ≡ false
        → length xs < q.capacity
        → (q' : MpmcQueue A) × (try_push spurious fuel x q ≡ some (q', true))
          × Represents q' (xs ++ (x ∷ [])) room
          × (q'.capacity ≡ q.capacity)
    unfolding try_push
    try_push-space spurious fuel n x h good space =
        let (v, slot) = head_free space in
        (
          record q { buffer = pushed x; head = q.head + 1 },
          push_loop_retries spurious fuel n x v q slot h good
              ∙ ap (λ k. some (k, true)) (written x),
          pushed-Represents x space,
          refl,
        )

    -- On a full ring a push fails at once and changes nothing.
    pub try_push-full :
        (spurious : ℕ → Bool) (fuel : ℕ) (x : A)
        → length xs ≡ q.capacity
        → try_push spurious (suc fuel) x q ≡ some (q, false)
    unfolding try_push
    try_push-full spurious fuel x full =
        let (v, slot) = head_taken full in
        let two = r.at_least_two in
        let far = r.far in
        let counted = r.counted in
        push_loop_full spurious fuel (q.tail + 1) x v q slot (omega arith) (omega arith)
