-- ===== src/Mpmc/Threads/Pops.antt =====
-- The steps of a pop.
use Prim.Native.Nat.{bit_and}
use d_app_libe.Base.{
  ℕ, suc, ◌+◌, ◌%◌, ◌≡◌, refl, ap, subst, ◌∙◌, some, arith, ◌==◌, inl, inr, Bool-cases, Bool,
}
use d_app_libe.Mpmc.Defs.{size_mod}
use d_app_libe.Mpmc.Threads.Steps.{
  System, idle, pop_loads_sequence, pop_swaps_tail, pop_moves_value, pop_stores_sequence, set_value,
  set_sequence, silent, returns, pop_swaps,
}
use d_app_libe.Mpmc.Threads.Invariant.{popping, sequence_at, Knows, Holds}
use d_app_libe.Mpmc.Threads.Slots.{emptied-Knows, recycled-Knows, popped-Knows, popping-owns}
use d_app_libe.Mpmc.Threads.Sound.{emptied-Sound, recycled-Sound, popped-Sound}
use d_app_libe.Mpmc.Threads.Compares.{index, no_wrap}
use d_app_libe.Mpmc.Threads.Keeps.{rests}
use d_app_libe.Mpmc.Threads.Moves.{Keeps}

module _ {A : Type 0} (s : System A) (t room : ℕ) (h : Holds s (suc room)) where
  -- A pop claims the position of tail.
  claims_tail :
      sequence_at s.ring s.ring.tail ≡ s.ring.tail + 1
      → Keeps s t
          (record s.ring { tail = s.ring.tail + 1 })
          (pop_moves_value s.ring.tail)
          silent
          room
  claims_tail held =
      let (before, entry) = h.sound.ready s.ring.tail (omega arith) held in
      record {
        sound = popped-Sound s.claimed s.ring room h.sound held;
        own = (omega arith, held, entry);
        others = λ u other. popped-Knows s.claimed s.ring (s.threads u) (h.knows u);
        push_alone = λ u pos other e. absurd (cc);
        pop_alone = λ u pos other e f.
            let (behind, owns) = popping-owns s.claimed s.ring (s.threads u) pos f (h.knows u) in
            ground arith;
        delivered = h.delivered;
        once = h.once;
        below = λ pos late. h.below pos (omega arith);
        own_not_held = λ pos e. h.below pos (ground arith);
        not_held = λ u pos other. h.not_held u pos;
      }

  pub pop_swapped :
      (spurious : Bool) (pos : ℕ)
      → s.threads t ≡ pop_swaps_tail pos
      → let (r, thread, effect) = pop_swaps spurious pos s.ring in Keeps s t r thread effect room
  unfolding pop_swaps
  pop_swapped spurious pos here =
      let again = rests s t room h (pop_loads_sequence s.ring.tail) (omega arith) refl refl in
      let (before, seen) = subst (Knows s.claimed s.ring) here (h.knows t) in
      elim (Bool-cases spurious) [
        | inl failed ↦ rw (pop_swaps, failed) again
        | inr works ↦ elim (Bool-cases (s.ring.tail == pos)) [
          | inl same ↦
              let e : pos ≡ s.ring.tail = ground arith in
              let far = h.sound.far in
              let order = h.sound.ordered in
              rw (pop_swaps, works, same)
                (rw e (
                  rw (no_wrap h.sound s.ring.tail (omega arith)) (
                    claims_tail
                      (subst (λ n. sequence_at s.ring n ≡ n + 1) e (seen (omega arith))))))
          | inr moved_on ↦ rw (pop_swaps, works, moved_on) again
        ]
      ]

  module _ (pos : ℕ) where
    -- It moves the value out of the slot.
    pub moves :
        (left : A)
        → s.threads t ≡ pop_moves_value pos
        → Keeps s t
            (set_value (bit_and pos s.ring.mask) left s.ring)
            (pop_stores_sequence pos (s.ring.slots (bit_and pos s.ring.mask)).value)
            silent
            room
    moves left here =
        let (behind, held, entry) = subst (Knows s.claimed s.ring) here (h.knows t) in
        let two = h.sound.at_least_two in
        let mine : popping (s.threads t) ≡ some pos = ap popping here in
        rw (index h.sound pos) (record {
          sound = emptied-Sound s.claimed s.ring room h.sound pos left behind held;
          own = ground arith;
          others = λ u other.
              emptied-Knows s.claimed s.ring two pos held left (s.threads u)
                (λ e. other (h.pop_alone u t pos e mine)) (h.knows u);
          push_alone = λ u q other e. absurd (cc);
          pop_alone = λ u q other e f. other (h.pop_alone u t q f (mine ∙ e));
          delivered = h.delivered;
          once = h.once;
          below = h.below;
          own_not_held = λ q e. h.not_held t q (mine ∙ e);
          not_held = λ u q other. h.not_held u q;
        })

    -- It gives the slot to the pushes of the next round, and returns the value.
    pub recycles :
        (v : A)
        → s.threads t ≡ pop_stores_sequence pos v
        → Keeps s t
            (set_sequence (bit_and pos s.ring.mask) ((pos + s.ring.capacity) % size_mod) s.ring)
            idle
            (returns pos v)
            room
    recycles v here =
        let (behind, held, entry) = subst (Knows s.claimed s.ring) here (h.knows t) in
        let two = h.sound.at_least_two in
        let far = h.sound.far in
        let order = h.sound.ordered in
        let mine : popping (s.threads t) ≡ some pos = ap popping here in
        let no_wrap : (pos + s.ring.capacity) % size_mod ≡ pos + s.ring.capacity = omega arith in
        rw (index h.sound pos) (
          rw no_wrap (record {
            sound = recycled-Sound s.claimed s.ring room h.sound pos behind held;
            own = tt;
            others = λ u other.
                recycled-Knows s.claimed s.ring two pos held behind (s.threads u)
                  (λ e. other (h.pop_alone u t pos e mine)) (h.knows u);
            push_alone = λ u q other e. absurd (cc);
            pop_alone = λ u q other e. absurd (cc);
            delivered = (entry, h.delivered);
            once = (h.not_held t pos mine, h.once);
            below = λ q late. ((λ e. omega arith), h.below q late);
            own_not_held = λ q e. absurd (cc);
            not_held = λ u q other e.
                ((λ same. other (h.pop_alone u t q e (rw (← same) mine))), h.not_held u q e);
          }))
