-- ===== src/Mpmc/Threads/Compares.antt =====
-- What a thread learns by comparing a sequence with its position.
use Prim.Native.Nat.{bit_and, Ordering}
use d_app_libe.Base.{
  ℕ, ◌+◌, ◌%◌, ◌^◌, ◌≤◌, ◌<◌, ◌≡◌, ◌⊎◌, refl, sym, ap, subst, ◌∙◌, none, List, arith, inl, inr,
}
use d_app_libe.Base.Bits.{bit_and-mask}
use d_app_libe.Mpmc.Defs.{size_mod, sign_of_diff}
use d_app_libe.Mpmc.Threads.Steps.{
  Ring, Thread, idle, push_loads_head, push_loads_sequence, push_swaps_head, push_writes_value,
  push_stores_sequence, pop_loads_tail, pop_loads_sequence, pop_swaps_tail, pop_moves_value,
  pop_stores_sequence, push_compares, pop_compares, call,
}
use d_app_libe.Mpmc.Threads.Invariant.{pushing, popping, sequence_at, Knows, Sound}

-- Where the signed difference is zero, the two are equal.
sign_eq :
    (seq pos : ℕ) → seq < 2 ^ 63 → pos < 2 ^ 63 → sign_of_diff seq pos ≡ Ordering.eq → seq ≡ pos
sign_eq seq pos a b e = ground arith

module _ {A : Type 0} {vs : List A} {r : Ring A} {room : ℕ} (h : Sound vs r room) where
  pub index : (pos : ℕ) → bit_and pos r.mask ≡ pos % r.capacity
  index pos =
      ap (bit_and pos) h.mask_ones
      ∙ bit_and-mask h.exponent pos
      ∙ ap (λ c. pos % c) (sym h.capacity_power)

  pub no_wrap : (pos : ℕ) → pos < 2 ^ 63 → (pos + 1) % size_mod ≡ pos + 1
  no_wrap pos small = omega arith

  -- What a thread knows once it has compared the sequence; it holds no position.
  pub push_compared :
      (v : A) (pos : ℕ)
      → pos ≤ r.head
      → Knows vs r (push_compares v pos r)
        × (pushing (push_compares v pos r) ≡ none)
        × (popping (push_compares v pos r) ≡ none)
  unfolding push_compares
  push_compared v pos before = go (sign_of_diff (r.slots (bit_and pos r.mask)).sequence pos) refl
    where
      go :
          (o : Ordering)
          → sign_of_diff (r.slots (bit_and pos r.mask)).sequence pos ≡ o
          → Knows vs r (push_compares v pos r)
            × (pushing (push_compares v pos r) ≡ none)
            × (popping (push_compares v pos r) ≡ none)
      go Ordering.eq e =
          let far = h.far in
          let small = h.small pos in
          let e' : sign_of_diff (sequence_at r pos) pos ≡ Ordering.eq =
            subst (λ i. sign_of_diff (r.slots i).sequence pos ≡ Ordering.eq) (index pos) e in
          rw (push_compares, e)
            ((before, (λ late. sign_eq (sequence_at r pos) pos small (omega arith) e')), refl, refl)
      go Ordering.lt e = rw (push_compares, e) (tt, refl, refl)
      go Ordering.gt e = rw (push_compares, e) (tt, refl, refl)

  pub pop_compared :
      (pos : ℕ)
      → pos ≤ r.tail
      → Knows vs r (pop_compares pos r)
        × (pushing (pop_compares pos r) ≡ none)
        × (popping (pop_compares pos r) ≡ none)
  unfolding pop_compares
  pop_compared pos before =
      go (sign_of_diff (r.slots (bit_and pos r.mask)).sequence ((pos + 1) % size_mod)) refl
    where
      go :
          (o : Ordering)
          → sign_of_diff (r.slots (bit_and pos r.mask)).sequence ((pos + 1) % size_mod) ≡ o
          → Knows vs r (pop_compares pos r)
            × (pushing (pop_compares pos r) ≡ none)
            × (popping (pop_compares pos r) ≡ none)
      go Ordering.eq e =
          let far = h.far in
          let two = h.at_least_two in
          let order = h.ordered in
          let small = h.small pos in
          let e' : sign_of_diff (sequence_at r pos) (pos + 1) ≡ Ordering.eq =
            subst (λ i. sign_of_diff (r.slots i).sequence (pos + 1) ≡ Ordering.eq) (index pos)
              (subst (λ n. sign_of_diff (r.slots (bit_and pos r.mask)).sequence n ≡ Ordering.eq)
                (no_wrap pos (omega arith)) e) in
          rw (pop_compares, e)
            (
              (before, (λ late. sign_eq (sequence_at r pos) (pos + 1) small (omega arith) e')),
              refl,
              refl,
            )
      go Ordering.lt e = rw (pop_compares, e) (tt, refl, refl)
      go Ordering.gt e = rw (pop_compares, e) (tt, refl, refl)

pub call_cases :
    {A : Type 0} (first thread : Thread A)
    → ((call first thread ≡ first) × (thread ≡ idle)) ⊎ (call first thread ≡ thread)
unfolding call
call_cases first idle = inl (refl, refl)
call_cases first (push_loads_head v) = inr refl
call_cases first (push_loads_sequence v pos) = inr refl
call_cases first (push_swaps_head v pos) = inr refl
call_cases first (push_writes_value v pos) = inr refl
call_cases first (push_stores_sequence v pos) = inr refl
call_cases first pop_loads_tail = inr refl
call_cases first (pop_loads_sequence pos) = inr refl
call_cases first (pop_swaps_tail pos) = inr refl
call_cases first (pop_moves_value pos) = inr refl
call_cases first (pop_stores_sequence pos v) = inr refl
