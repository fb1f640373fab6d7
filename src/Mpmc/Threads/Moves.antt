-- ===== src/Mpmc/Threads/Moves.antt =====
-- A step of one thread keeps what holds of all, if it keeps what the others know.
use d_app_libe.Base.{
  ℕ, ◌≤◌, ◌≡◌, ◌≢◌, Option, some, List, [], ◌∷◌, ◌++◌, arith, ◌==◌, inl, inr, Bool-cases,
}
use d_app_libe.Mpmc.Threads.Steps.{
  Ring, System, Thread, Effect, put_thread, note_claimed, note_returned, moved,
}
use d_app_libe.Mpmc.Threads.Invariant.{
  pushing, popping, Knows, Sound, Delivered, Absent, NoneTwice, Holds,
}
use d_app_libe.Mpmc.Threads.Slots.{get_elem?-snoc}

module _ {A : Type 0} (s : System A) (t : ℕ) (r : Ring A) (thread : Thread A) (effect : Effect A)
    (room : ℕ) where
  abbrev claimed_after : List A
  claimed_after = note_claimed effect s.claimed

  abbrev returned_after : List (ℕ × A)
  returned_after = note_returned effect s.returned

  -- What is to be shown of a step.
  pub record Keeps : Type 0 where
    pub sound : Sound claimed_after r room
    pub own : Knows claimed_after r thread
    pub others : (u : ℕ) → u ≢ t → Knows claimed_after r (s.threads u)
    pub push_alone :
        (u pos : ℕ) → u ≢ t → pushing thread ≡ some pos → pushing (s.threads u) ≢ some pos
    pub pop_alone :
        (u pos : ℕ) → u ≢ t → popping thread ≡ some pos → popping (s.threads u) ≢ some pos
    pub delivered : Delivered claimed_after returned_after
    pub once : NoneTwice returned_after
    pub below : (pos : ℕ) → r.tail ≤ pos → Absent pos returned_after
    pub own_not_held : (pos : ℕ) → popping thread ≡ some pos → Absent pos returned_after
    pub not_held :
        (u pos : ℕ) → u ≢ t → popping (s.threads u) ≡ some pos → Absent pos returned_after

  -- Two threads with one claimed position are one, also after the step; `holds` is pushing or popping.
  alone :
      (held : Thread A → Option ℕ)
      → ((u v pos : ℕ) → held (s.threads u) ≡ some pos → held (s.threads v) ≡ some pos → u ≡ v)
      → ((u pos : ℕ) → u ≢ t → held thread ≡ some pos → held (s.threads u) ≢ some pos)
      → (u v pos : ℕ) → held (put_thread t thread s.threads u) ≡ some pos
      → held (put_thread t thread s.threads v) ≡ some pos
      → u ≡ v
  alone held before new u v pos = elim (Bool-cases (u == t)) [
    | inl first ↦ elim (Bool-cases (v == t)) [
      | inl second ↦ rw (first, second) (λ e f. ground arith)
      | inr second ↦ rw (first, second) (λ e f. absurd (new v pos (ground arith) e f))
    ]
    | inr first ↦ elim (Bool-cases (v == t)) [
      | inl second ↦ rw (first, second) (λ e f. absurd (new u pos (ground arith) f e))
      | inr second ↦ rw (first, second) (before u v pos)
    ]
  ]

  pub moved-Holds : {k : ℕ} → Holds s k → Keeps → Holds (moved t r thread effect s) room
  moved-Holds h k = record {
    sound = k.sound;
    knows = λ u. elim (Bool-cases (u == t)) [
      | inl same ↦ rw same k.own
      | inr other ↦ rw other (k.others u (ground arith))
    ];
    push_alone = alone pushing h.push_alone k.push_alone;
    pop_alone = alone popping h.pop_alone k.pop_alone;
    delivered = k.delivered;
    once = k.once;
    below = k.below;
    not_held = λ u pos. elim (Bool-cases (u == t)) [
      | inl same ↦ rw same (k.own_not_held pos)
      | inr other ↦ rw other (k.not_held u pos (ground arith))
    ];
  }

pub Delivered-snoc :
    {A : Type 0} (vs : List A) (v : A) (rs : List (ℕ × A))
    → Delivered vs rs
    → Delivered (vs ++ (v ∷ [])) rs
Delivered-snoc vs v [] d = tt
Delivered-snoc vs v ((pos, w) ∷ rs) d = (get_elem?-snoc vs v w pos d.0, Delivered-snoc vs v rs d.1)
