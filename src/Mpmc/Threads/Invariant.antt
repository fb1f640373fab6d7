-- ===== src/Mpmc/Threads/Invariant.antt =====
-- What holds between the steps.
use d_app_libe.Base.{
  ℕ, ◌+◌, ◌-◌, ◌%◌, ◌^◌, ◌≤◌, ◌<◌, ◌≡◌, ◌≢◌, Option, none, some, List, [], ◌∷◌, length,
}
use d_app_libe.Base.Arrays.{get_elem?}
use d_app_libe.Mpmc.Threads.Steps.{
  Ring, System, Thread, idle, push_loads_head, push_loads_sequence, push_swaps_head,
  push_writes_value, push_stores_sequence, pop_loads_tail, pop_loads_sequence, pop_swaps_tail,
  pop_moves_value, pop_stores_sequence,
}

module _ {A : Type 0} where
  -- The position that a thread has claimed, and whose slot it has not given up yet.
  abbrev pub pushing : Thread A → Option ℕ
  pushing (push_writes_value v pos) = some pos
  pushing (push_stores_sequence v pos) = some pos
  pushing thread = none

  abbrev pub popping : Thread A → Option ℕ
  popping (pop_moves_value pos) = some pos
  popping (pop_stores_sequence pos v) = some pos
  popping thread = none

  abbrev pub sequence_at : Ring A → ℕ → ℕ
  sequence_at r pos = (r.slots (pos % r.capacity)).sequence

  abbrev pub value_at : Ring A → ℕ → A
  value_at r pos = (r.slots (pos % r.capacity)).value

  -- What a thread knows of the ring, by where it is.
  abbrev pub Knows : List A → Ring A → Thread A → Type 0
  Knows vs r idle = Unit
  Knows vs r (push_loads_head v) = Unit
  Knows vs r (push_loads_sequence v pos) = pos ≤ r.head
  Knows vs r (push_swaps_head v pos) = (pos ≤ r.head) × (r.head ≤ pos → sequence_at r pos ≡ pos)
  Knows vs r (push_writes_value v pos) =
      (pos < r.head) × (sequence_at r pos ≡ pos) × (get_elem? vs pos ≡ some v)
  Knows vs r (push_stores_sequence v pos) =
      (pos < r.head)
      × (sequence_at r pos ≡ pos)
      × (get_elem? vs pos ≡ some v)
      × (value_at r pos ≡ v)
  Knows vs r pop_loads_tail = Unit
  Knows vs r (pop_loads_sequence pos) = pos ≤ r.tail
  Knows vs r (pop_swaps_tail pos) = (pos ≤ r.tail) × (r.tail ≤ pos → sequence_at r pos ≡ pos + 1)
  Knows vs r (pop_moves_value pos) =
      (pos < r.tail) × (sequence_at r pos ≡ pos + 1) × (get_elem? vs pos ≡ some (value_at r pos))
  Knows vs r (pop_stores_sequence pos v) =
      (pos < r.tail) × (sequence_at r pos ≡ pos + 1) × (get_elem? vs pos ≡ some v)

  -- The ring alone. `room` is the number of steps after which a position might reach 2^63.
  pub record Sound (vs : List A) (r : Ring A) (room : ℕ) : Type 0 where
    pub exponent : ℕ
    pub at_least_two : 2 ≤ r.capacity
    pub capacity_power : r.capacity ≡ 2 ^ exponent
    pub mask_ones : r.mask ≡ 2 ^ exponent - 1
    pub far : r.head + r.capacity + room < 2 ^ 63
    pub counted : length vs ≡ r.head
    pub ordered : r.tail ≤ r.head
    pub bounded : r.head ≤ r.tail + r.capacity
    pub small : (pos : ℕ) → sequence_at r pos < 2 ^ 63
    pub free : (pos : ℕ) → sequence_at r pos ≡ pos → pos < r.tail + r.capacity
    pub ready :
        (pos : ℕ)
        → r.tail ≤ pos
        → sequence_at r pos ≡ pos + 1
        → (pos < r.head) × (get_elem? vs pos ≡ some (value_at r pos))

  -- What pops returned: each time the value of the position, no position twice, and none that a pop
  -- still holds.
  abbrev pub Delivered : List A → List (ℕ × A) → Type 0
  Delivered vs [] = Unit
  Delivered vs ((pos, v) ∷ rs) = (get_elem? vs pos ≡ some v) × Delivered vs rs

  abbrev pub Absent : ℕ → List (ℕ × A) → Type 0
  Absent p [] = Unit
  Absent p ((pos, v) ∷ rs) = (pos ≢ p) × Absent p rs

  abbrev pub NoneTwice : List (ℕ × A) → Type 0
  NoneTwice [] = Unit
  NoneTwice ((pos, v) ∷ rs) = Absent pos rs × NoneTwice rs

  pub record Holds (s : System A) (room : ℕ) : Type 0 where
    pub sound : Sound s.claimed s.ring room
    pub knows : (t : ℕ) → Knows s.claimed s.ring (s.threads t)
    pub push_alone :
        (t u pos : ℕ) → pushing (s.threads t) ≡ some pos → pushing (s.threads u) ≡ some pos → t ≡ u
    pub pop_alone :
        (t u pos : ℕ) → popping (s.threads t) ≡ some pos → popping (s.threads u) ≡ some pos → t ≡ u
    pub delivered : Delivered s.claimed s.returned
    pub once : NoneTwice s.returned
    pub below : (pos : ℕ) → s.ring.tail ≤ pos → Absent pos s.returned
    pub not_held : (t pos : ℕ) → popping (s.threads t) ≡ some pos → Absent pos s.returned
