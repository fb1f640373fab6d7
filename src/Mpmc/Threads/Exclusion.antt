-- ===== src/Mpmc/Threads/Exclusion.antt =====
-- Who works on a slot.
use Prim.Native.Nat.{bit_and}
use d_app_libe.Base.{◌⊎◌, inl, inr, ℕ, ◌%◌, ◌≡◌, refl, Option, none, some, List, arith}
use d_app_libe.Mpmc.Threads.Steps.{
  Ring, System, Thread, idle, push_loads_head, push_loads_sequence, push_swaps_head,
  push_writes_value, push_stores_sequence, pop_loads_tail, pop_loads_sequence, pop_swaps_tail,
  pop_moves_value, pop_stores_sequence,
}
use d_app_libe.Mpmc.Threads.Invariant.{pushing, popping, Sound, Holds}
use d_app_libe.Mpmc.Threads.Slots.{next_slot, pushing-owns, popping-owns}
use d_app_libe.Mpmc.Threads.Compares.{index}

-- The slot that a thread works on: only it may write there.
abbrev pub works_on : {A : Type 0} → Ring A → Thread A → Option ℕ
works_on r (push_writes_value v pos) = some (bit_and pos r.mask)
works_on r (push_stores_sequence v pos) = some (bit_and pos r.mask)
works_on r (pop_moves_value pos) = some (bit_and pos r.mask)
works_on r (pop_stores_sequence pos v) = some (bit_and pos r.mask)
works_on r thread = none

-- Such a thread holds a position in the slot, for a push or for a pop.
works_held :
    {A : Type 0} (vs : List A) (r : Ring A) (room : ℕ) (h : Sound vs r room) (thread : Thread A)
    (i : ℕ)
    → works_on r thread ≡ some i
    → (pos : ℕ) × ((pushing thread ≡ some pos) ⊎ (popping thread ≡ some pos))
      × (i ≡ pos % r.capacity)
works_held vs r room h idle i e = absurd (cc)
works_held vs r room h (push_loads_head v) i e = absurd (cc)
works_held vs r room h (push_loads_sequence v pos) i e = absurd (cc)
works_held vs r room h (push_swaps_head v pos) i e = absurd (cc)
works_held vs r room h (push_writes_value v pos) i e = (pos, inl refl, cc (index h pos))
works_held vs r room h (push_stores_sequence v pos) i e = (pos, inl refl, cc (index h pos))
works_held vs r room h pop_loads_tail i e = absurd (cc)
works_held vs r room h (pop_loads_sequence pos) i e = absurd (cc)
works_held vs r room h (pop_swaps_tail pos) i e = absurd (cc)
works_held vs r room h (pop_moves_value pos) i e = (pos, inr refl, cc (index h pos))
works_held vs r room h (pop_stores_sequence pos v) i e = (pos, inr refl, cc (index h pos))

-- Two threads that work on one slot are one.
pub one_at_a_slot :
    {A : Type 0} (s : System A) (room : ℕ) (h : Holds s room) (t u i : ℕ)
    → works_on s.ring (s.threads t) ≡ some i
    → works_on s.ring (s.threads u) ≡ some i
    → t ≡ u
one_at_a_slot s room h t u i e f =
    let (p, hp, ip) = works_held s.claimed s.ring room h.sound (s.threads t) i e in
    let (q, hq, iq) = works_held s.claimed s.ring room h.sound (s.threads u) i f in
    let two = h.sound.at_least_two in
    elim hp [
      | inl push ↦
          let (before, owned) = pushing-owns s.claimed s.ring (s.threads t) p push (h.knows t) in
          elim hq [
            | inl push' ↦
                let (before', owned') =
                  pushing-owns s.claimed s.ring (s.threads u) q push' (h.knows u) in
                let same : q ≡ p = ground arith in h.push_alone t u p push (rw same at push')
            | inr pop' ↦
                let (before', owned') =
                  popping-owns s.claimed s.ring (s.threads u) q pop' (h.knows u) in
                absurd (ground (arith, next_slot q s.ring.capacity two))
          ]
      | inr pop ↦
          let (before, owned) = popping-owns s.claimed s.ring (s.threads t) p pop (h.knows t) in
          elim hq [
            | inl push' ↦
                let (before', owned') =
                  pushing-owns s.claimed s.ring (s.threads u) q push' (h.knows u) in
                absurd (ground (arith, next_slot p s.ring.capacity two))
            | inr pop' ↦
                let (before', owned') =
                  popping-owns s.claimed s.ring (s.threads u) q pop' (h.knows u) in
                let same : q ≡ p = ground arith in h.pop_alone t u p pop (rw same at pop')
          ]
    ]
