-- ===== src/Mpmc/Threads/Passing.antt =====
-- Each step passes on the claimed positions.
use Prim.Native.Nat.{bit_and}
use d_app_libe.Base.{
  ℕ, suc, ◌+◌, ◌%◌, ◌≡◌, refl, sym, ap, subst, ◌∙◌, none, some, arith, Bool, ◌==◌, inl, inr,
  Bool-cases,
}
use d_app_libe.Mpmc.Defs.{size_mod}
use d_app_libe.Mpmc.Threads.Steps.{
  System, Thread, idle, push_loads_head, push_loads_sequence, push_swaps_head, push_writes_value,
  push_stores_sequence, pop_loads_tail, pop_loads_sequence, pop_swaps_tail, pop_moves_value,
  pop_stores_sequence, set_value, set_sequence, silent, returns, Action, calls_push, calls_pop,
  goes_on, go_on, act, call, push_swaps, pop_swaps,
}
use d_app_libe.Mpmc.Threads.Invariant.{pushing, popping, Knows, Holds}
use d_app_libe.Mpmc.Threads.Slots.{next_slot}
use d_app_libe.Mpmc.Threads.Compares.{index, no_wrap, call_cases}
use d_app_libe.Mpmc.Threads.Accounts.{Accounts, Passes, moved-Accounts}

module _ {A : Type 0} (s : System A) (t room : ℕ) (h : Holds s (suc room)) where
  -- The ring stays, and the thread held nothing before.
  calm :
      (thread : Thread A)
      → pushing (s.threads t) ≡ none
      → popping (s.threads t) ≡ none
      → Passes s t s.ring thread silent
  calm thread no_push no_pop = record {
    pop_on = λ pos e. absurd (cc);
    push_on = λ pos e. absurd (cc);
    pop_new = λ pos behind. inl behind;
    push_new = λ pos late behind. inl (late, behind);
    filled_on = λ pos late e. e;
  }

  stay : Passes s t s.ring (s.threads t) silent
  stay = record {
    pop_on = λ pos e. inl e;
    push_on = λ pos e. inl e;
    pop_new = λ pos behind. inl behind;
    push_new = λ pos late behind. inl (late, behind);
    filled_on = λ pos late e. e;
  }

  calls_on : (first : Thread A) → Passes s t s.ring (call first (s.threads t)) silent
  calls_on first = elim (call_cases first (s.threads t)) [
    | inl (begins, out) ↦ rw begins (calm first (ap pushing out) (ap popping out))
    | inr inside ↦ rw inside stay
  ]

  push_swap_passes :
      (spurious : Bool) (v : A) (pos : ℕ)
      → s.threads t ≡ push_swaps_head v pos
      → let (r, thread, effect) = push_swaps spurious v pos s.ring in Passes s t r thread effect
  unfolding push_swaps
  push_swap_passes spurious v pos here =
      let again = calm (push_loads_sequence v s.ring.head) (ap pushing here) (ap popping here) in
      elim (Bool-cases spurious) [
        | inl failed ↦ rw (push_swaps, failed) again
        | inr works ↦ elim (Bool-cases (s.ring.head == pos)) [
          | inl same ↦
              let e : pos ≡ s.ring.head = ground arith in
              let far = h.sound.far in
              rw (push_swaps, works, same)
                (rw e (
                  rw (no_wrap h.sound s.ring.head (omega arith)) (record {
                    pop_on = λ q d. absurd (cc);
                    push_on = λ q d. absurd (cc);
                    pop_new = λ q behind. inl behind;
                    push_new = λ q late behind. ground arith;
                    filled_on = λ q late d. d;
                  })))
          | inr moved_on ↦ rw (push_swaps, works, moved_on) again
        ]
      ]

  pop_swap_passes :
      (spurious : Bool) (pos : ℕ)
      → s.threads t ≡ pop_swaps_tail pos
      → let (r, thread, effect) = pop_swaps spurious pos s.ring in Passes s t r thread effect
  unfolding pop_swaps
  pop_swap_passes spurious pos here =
      let again = calm (pop_loads_sequence s.ring.tail) (ap pushing here) (ap popping here) in
      elim (Bool-cases spurious) [
        | inl failed ↦ rw (pop_swaps, failed) again
        | inr works ↦ elim (Bool-cases (s.ring.tail == pos)) [
          | inl same ↦
              let e : pos ≡ s.ring.tail = ground arith in
              let far = h.sound.far in
              let order = h.sound.ordered in
              rw (pop_swaps, works, same)
                (rw e (
                  rw (no_wrap h.sound s.ring.tail (omega arith)) (record {
                    pop_on = λ q d. absurd (cc);
                    push_on = λ q d. absurd (cc);
                    pop_new = λ q behind. ground arith;
                    push_new = λ q late behind. inl (omega arith, behind);
                    filled_on = λ q late d. d;
                  })))
          | inr moved_on ↦ rw (pop_swaps, works, moved_on) again
        ]
      ]

  -- A step on a slot's value, in which the thread goes on holding its position.
  value_passes :
      (i : ℕ) (v : A) (thread : Thread A)
      → pushing thread ≡ pushing (s.threads t)
      → popping thread ≡ popping (s.threads t)
      → Passes s t (set_value i v s.ring) thread silent
  value_passes i v thread same_push same_pop = record {
    pop_on = λ pos e. inl (same_pop ∙ e);
    push_on = λ pos e. inl (same_push ∙ e);
    pop_new = λ pos behind. inl behind;
    push_new = λ pos late behind. inl (late, behind);
    filled_on = λ pos late e. ground arith;
  }

  publish_passes :
      (v : A) (pos : ℕ)
      → s.threads t ≡ push_stores_sequence v pos
      → Passes s t
          (set_sequence (bit_and pos s.ring.mask) ((pos + 1) % size_mod) s.ring)
          idle
          silent
  publish_passes v pos here =
      let (behind, owned, entry, written) = subst (Knows s.claimed s.ring) here (h.knows t) in
      let two = h.sound.at_least_two in
      let far = h.sound.far in
      let mine : pushing (s.threads t) ≡ some pos = ap pushing here in
      let no_pop : popping (s.threads t) ≡ none = ap popping here in
      rw (index h.sound pos) (
        rw (no_wrap h.sound pos (omega arith)) (record {
          pop_on = λ q e. absurd (cc);
          push_on = λ q e. inr (ground arith);
          pop_new = λ q late. inl late;
          push_new = λ q late before. inl (late, before);
          filled_on = λ q late e. ground (arith, next_slot q s.ring.capacity two);
        }))

  recycle_passes :
      (pos : ℕ) (v : A)
      → s.threads t ≡ pop_stores_sequence pos v
      → Passes s t
          (set_sequence (bit_and pos s.ring.mask) ((pos + s.ring.capacity) % size_mod) s.ring)
          idle
          (returns pos v)
  recycle_passes pos v here =
      let (behind, held, entry) = subst (Knows s.claimed s.ring) here (h.knows t) in
      let far = h.sound.far in
      let order = h.sound.ordered in
      let mine : popping (s.threads t) ≡ some pos = ap popping here in
      let no_push : pushing (s.threads t) ≡ none = ap pushing here in
      let no_wrap : (pos + s.ring.capacity) % size_mod ≡ pos + s.ring.capacity = omega arith in
      rw (index h.sound pos) (
        rw no_wrap (record {
          pop_on = λ q e. inr (inl (ground arith));
          push_on = λ q e. absurd (cc);
          pop_new = λ q late. inl late;
          push_new = λ q late before. inl (late, before);
          filled_on = λ q late e. ground arith;
        }))

  module _ (moved_from : A → A) (spurious : Bool) where
    go_on-Passes :
        (thread : Thread A)
        → s.threads t ≡ thread
        → let (r, thread', effect) = go_on moved_from spurious thread s.ring in
          Passes s t r thread' effect
    unfolding go_on
    go_on-Passes idle here = calm idle (ap pushing here) (ap popping here)
    go_on-Passes (push_loads_head v) here = calm _ (ap pushing here) (ap popping here)
    go_on-Passes (push_loads_sequence v pos) here = calm _ (ap pushing here) (ap popping here)
    go_on-Passes (push_swaps_head v pos) here = push_swap_passes spurious v pos here
    go_on-Passes (push_writes_value v pos) here =
        value_passes _ v (push_stores_sequence v pos) (sym (ap pushing here))
          (sym (ap popping here))
    go_on-Passes (push_stores_sequence v pos) here = publish_passes v pos here
    go_on-Passes pop_loads_tail here = calm _ (ap pushing here) (ap popping here)
    go_on-Passes (pop_loads_sequence pos) here = calm _ (ap pushing here) (ap popping here)
    go_on-Passes (pop_swaps_tail pos) here = pop_swap_passes spurious pos here
    go_on-Passes (pop_moves_value pos) here =
        value_passes _ _ (pop_stores_sequence pos _) (sym (ap pushing here)) (sym (ap popping here))
    go_on-Passes (pop_stores_sequence pos v) here = recycle_passes pos v here

pub act-Accounts :
    {A : Type 0} (moved_from : A → A) (s : System A) (t room : ℕ) (action : Action A)
    → Holds s (suc room)
    → Accounts s
    → Accounts (act moved_from t action s)
unfolding act
act-Accounts moved_from s t room (calls_push v) h a =
    moved-Accounts s t _ _ silent a (calls_on s t room h (push_loads_head v))
act-Accounts moved_from s t room calls_pop h a =
    moved-Accounts s t _ _ silent a (calls_on s t room h pop_loads_tail)
act-Accounts moved_from s t room (goes_on spurious) h a =
    moved-Accounts s t _ _ _ a (go_on-Passes s t room h moved_from spurious (s.threads t) refl)
