-- ===== src/Mpmc/Threads/Keeps.antt =====
-- The steps that begin a call, and those of a push.
use Prim.Native.Nat.{bit_and}
use d_app_libe.Base.{
  ℕ, suc, ◌+◌, ◌%◌, ◌≡◌, refl, ap, subst, ◌∙◌, none, some, arith, ◌==◌, inl, inr, Bool-cases, Bool,
}
use d_app_libe.Mpmc.Defs.{size_mod}
use d_app_libe.Mpmc.Threads.Steps.{
  System, Thread, idle, push_loads_sequence, push_swaps_head, push_writes_value,
  push_stores_sequence, set_value, set_sequence, silent, claims, push_swaps, call,
}
use d_app_libe.Mpmc.Threads.Invariant.{pushing, popping, sequence_at, Knows, Holds}
use d_app_libe.Mpmc.Threads.Slots.{
  written-Knows, published-Knows, pushed-Knows, get_elem?-snoc_last, pushing-owns,
}
use d_app_libe.Mpmc.Threads.Sound.{Sound-weaken, written-Sound, published-Sound, pushed-Sound}
use d_app_libe.Mpmc.Threads.Compares.{index, no_wrap, call_cases}
use d_app_libe.Mpmc.Threads.Moves.{Keeps, Delivered-snoc}

module _ {A : Type 0} (s : System A) (t room : ℕ) (h : Holds s (suc room)) where
  -- The ring stays, and the thread holds no position afterwards.
  pub rests :
      (thread : Thread A)
      → Knows s.claimed s.ring thread
      → pushing thread ≡ none
      → popping thread ≡ none
      → Keeps s t s.ring thread silent room
  rests thread own no_push no_pop = record {
    sound = Sound-weaken s.claimed s.ring room h.sound;
    own = own;
    others = λ u other. h.knows u;
    push_alone = λ u pos other e. absurd (cc);
    pop_alone = λ u pos other e. absurd (cc);
    delivered = h.delivered;
    once = h.once;
    below = h.below;
    own_not_held = λ pos e. absurd (cc);
    not_held = λ u pos other. h.not_held u pos;
  }

  -- Nothing happens.
  pub stays : Keeps s t s.ring (s.threads t) silent room
  stays = record {
    sound = Sound-weaken s.claimed s.ring room h.sound;
    own = h.knows t;
    others = λ u other. h.knows u;
    push_alone = λ u pos other e f. other (h.push_alone u t pos f e);
    pop_alone = λ u pos other e f. other (h.pop_alone u t pos f e);
    delivered = h.delivered;
    once = h.once;
    below = h.below;
    own_not_held = h.not_held t;
    not_held = λ u pos other. h.not_held u pos;
  }

  pub called :
      (first : Thread A)
      → Knows s.claimed s.ring first
      → pushing first ≡ none
      → popping first ≡ none
      → Keeps s t s.ring (call first (s.threads t)) silent room
  called first own no_push no_pop = elim (call_cases first (s.threads t)) [
    | inl (begins, out) ↦ rw begins (rests first own no_push no_pop)
    | inr inside ↦ rw inside stays
  ]

  module _ (v : A) where
    -- A push claims the position of head.
    pushes :
        sequence_at s.ring s.ring.head ≡ s.ring.head
        → Keeps s t
            (record s.ring { head = s.ring.head + 1 })
            (push_writes_value v s.ring.head)
            (claims v)
            room
    pushes owned = record {
      sound = pushed-Sound s.claimed s.ring room h.sound v owned;
      own = (omega arith, owned, rw (← h.sound.counted) (get_elem?-snoc_last s.claimed v));
      others = λ u other. pushed-Knows s.claimed s.ring v (s.threads u) (h.knows u);
      push_alone = λ u pos other e f.
          let (behind, owns) = pushing-owns s.claimed s.ring (s.threads u) pos f (h.knows u) in
          ground arith;
      pop_alone = λ u pos other e. absurd (cc);
      delivered = Delivered-snoc s.claimed v s.returned h.delivered;
      once = h.once;
      below = h.below;
      own_not_held = λ pos e. absurd (cc);
      not_held = λ u pos other. h.not_held u pos;
    }

    pub push_swapped :
        (spurious : Bool) (pos : ℕ)
        → s.threads t ≡ push_swaps_head v pos
        → let (r, thread, effect) = push_swaps spurious v pos s.ring in
          Keeps s t r thread effect room
    unfolding push_swaps
    push_swapped spurious pos here =
        let again = rests (push_loads_sequence v s.ring.head) (omega arith) refl refl in
        let (before, seen) = subst (Knows s.claimed s.ring) here (h.knows t) in
        elim (Bool-cases spurious) [
          | inl failed ↦ rw (push_swaps, failed) again
          | inr works ↦ elim (Bool-cases (s.ring.head == pos)) [
            | inl same ↦
                let e : pos ≡ s.ring.head = ground arith in
                let far = h.sound.far in
                rw (push_swaps, works, same)
                  (rw e (
                    rw (no_wrap h.sound s.ring.head (omega arith))
                      (pushes (subst (λ n. sequence_at s.ring n ≡ n) e (seen (omega arith))))))
            | inr moved_on ↦ rw (push_swaps, works, moved_on) again
          ]
        ]

    module _ (pos : ℕ) where
      -- It writes its value into the slot.
      pub writes :
          s.threads t ≡ push_writes_value v pos
          → Keeps s t
              (set_value (bit_and pos s.ring.mask) v s.ring)
              (push_stores_sequence v pos)
              silent
              room
      writes here =
          let (behind, owned, entry) = subst (Knows s.claimed s.ring) here (h.knows t) in
          let two = h.sound.at_least_two in
          let mine : pushing (s.threads t) ≡ some pos = ap pushing here in
          rw (index h.sound pos) (record {
            sound = written-Sound s.claimed s.ring room h.sound pos v owned;
            own = ground arith;
            others = λ u other.
                written-Knows s.claimed s.ring two pos owned v (s.threads u)
                  (λ e. other (h.push_alone u t pos e mine)) (h.knows u);
            push_alone = λ u q other e f. other (h.push_alone u t q f (mine ∙ e));
            pop_alone = λ u q other e. absurd (cc);
            delivered = h.delivered;
            once = h.once;
            below = h.below;
            own_not_held = λ q e. absurd (cc);
            not_held = λ u q other. h.not_held u q;
          })

      -- It gives the slot to the pops.
      pub publishes :
          s.threads t ≡ push_stores_sequence v pos
          → Keeps s t
              (set_sequence (bit_and pos s.ring.mask) ((pos + 1) % size_mod) s.ring)
              idle
              silent
              room
      publishes here =
          let (behind, owned, entry, written) = subst (Knows s.claimed s.ring) here (h.knows t) in
          let two = h.sound.at_least_two in
          let far = h.sound.far in
          let mine : pushing (s.threads t) ≡ some pos = ap pushing here in
          rw (index h.sound pos) (
            rw (no_wrap h.sound pos (omega arith)) (record {
              sound =
                  published-Sound s.claimed s.ring room h.sound pos v behind owned entry written;
              own = tt;
              others = λ u other.
                  published-Knows s.claimed s.ring two pos owned behind (s.threads u)
                    (λ e. other (h.push_alone u t pos e mine)) (h.knows u);
              push_alone = λ u q other e. absurd (cc);
              pop_alone = λ u q other e. absurd (cc);
              delivered = h.delivered;
              once = h.once;
              below = h.below;
              own_not_held = λ q e. absurd (cc);
              not_held = λ u q other. h.not_held u q;
            }))
