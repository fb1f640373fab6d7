-- ===== src/Mpmc/Threads/Steps.antt =====
-- One access to an atomic or to a slot's data is one step, and all threads see the steps in one
-- order.
use Prim.Native.Nat.{bit_and, Ordering}
use d_app_libe.Base.{ℕ, ◌+◌, ◌-◌, ◌%◌, Bool, if◌then◌else◌, ◌==◌, List, [], ◌∷◌, ◌++◌}
use d_app_libe.Mpmc.Defs.{Slot, size_mod, sign_of_diff}

-- The members of the queue that threads share; the buffer by index.
pub record Ring {ℓ} (A : Type ℓ) : Type ℓ where
  pub slots : ℕ → Slot A
  pub capacity : ℕ
  pub mask : ℕ
  pub head : ℕ
  pub tail : ℕ

-- Where a thread is: in no call, or what it does next. A push has its value and a pop has nothing;
-- both have `pos` once it is loaded.
pub data Thread {ℓ} (A : Type ℓ) : Type ℓ where
  idle : Thread A
  push_loads_head : A → Thread A
  push_loads_sequence : A → ℕ → Thread A
  push_swaps_head : A → ℕ → Thread A
  push_writes_value : A → ℕ → Thread A
  push_stores_sequence : A → ℕ → Thread A
  pop_loads_tail : Thread A
  pop_loads_sequence : ℕ → Thread A
  pop_swaps_tail : ℕ → Thread A
  pop_moves_value : ℕ → Thread A
  pop_stores_sequence : ℕ → A → Thread A

-- What a step does besides: a push has claimed the next position, or a pop has returned the value of
-- a position.
pub data Effect {ℓ} (A : Type ℓ) : Type ℓ where
  silent : Effect A
  claims : A → Effect A
  returns : ℕ → A → Effect A

-- A thread calls, or does its next step; `true` makes a compare_exchange_weak fail spuriously.
pub data Action {ℓ} (A : Type ℓ) : Type ℓ where
  calls_push : A → Action A
  calls_pop : Action A
  goes_on : Bool → Action A

-- The ring and the threads by number. `claimed` has the values whose push has claimed a position,
-- in the order of the positions; `returned` has what pops have returned, each with its position.
pub record System {ℓ} (A : Type ℓ) : Type ℓ where
  pub ring : Ring A
  pub threads : ℕ → Thread A
  pub claimed : List A
  pub returned : List (ℕ × A)

module _ {ℓ} {A : Type ℓ} where
  abbrev pub set_sequence : ℕ → ℕ → Ring A → Ring A
  set_sequence i n r = record r {
    slots = λ j. if j == i then record (r.slots j) { sequence = n } else r.slots j;
  }

  abbrev pub set_value : ℕ → A → Ring A → Ring A
  set_value i v r = record r {
    slots = λ j. if j == i then record (r.slots j) { value = v } else r.slots j;
  }

  -- The constructor, for a capacity that its loop found.
  abbrev pub new_ring : A → ℕ → Ring A
  new_ring default capacity = record {
    slots = λ i. record { sequence = i; value = default };
    capacity = capacity;
    mask = capacity - 1;
    head = 0;
    tail = 0;
  }

  -- The comparisons of the sequence with the position, and both compare-and-swaps.
  unfoldable pub push_compares : A → ℕ → Ring A → Thread A
  push_compares v pos r = elim (sign_of_diff (r.slots (bit_and pos r.mask)).sequence pos) [
    | Ordering.eq ↦ push_swaps_head v pos
    | Ordering.lt ↦ idle
    | Ordering.gt ↦ push_loads_head v
  ]

  unfoldable pub push_swaps : Bool → A → ℕ → Ring A → Ring A × Thread A × Effect A
  push_swaps spurious v pos r =
      if spurious
      then (r, push_loads_sequence v r.head, silent)
      else if r.head == pos
      then (record r { head = (pos + 1) % size_mod }, push_writes_value v pos, claims v)
      else (r, push_loads_sequence v r.head, silent)

  unfoldable pub pop_compares : ℕ → Ring A → Thread A
  pop_compares pos r =
      elim (sign_of_diff (r.slots (bit_and pos r.mask)).sequence ((pos + 1) % size_mod)) [
        | Ordering.eq ↦ pop_swaps_tail pos
        | Ordering.lt ↦ idle
        | Ordering.gt ↦ pop_loads_tail
      ]

  unfoldable pub pop_swaps : Bool → ℕ → Ring A → Ring A × Thread A × Effect A
  pop_swaps spurious pos r =
      if spurious
      then (r, pop_loads_sequence r.tail, silent)
      else if r.tail == pos
      then (record r { tail = (pos + 1) % size_mod }, pop_moves_value pos, silent)
      else (r, pop_loads_sequence r.tail, silent)

  module _ (moved_from : A → A) where
    -- The next step of a thread inside a call. A thread in no call has none.
    unfoldable pub go_on : Bool → Thread A → Ring A → Ring A × Thread A × Effect A
    unfolding push_compares push_swaps pop_compares pop_swaps
    go_on spurious idle r = (r, idle, silent)
    go_on spurious (push_loads_head v) r = (r, push_loads_sequence v r.head, silent)
    go_on spurious (push_loads_sequence v pos) r = (r, push_compares v pos r, silent)
    go_on spurious (push_swaps_head v pos) r = push_swaps spurious v pos r
    go_on spurious (push_writes_value v pos) r =
        (set_value (bit_and pos r.mask) v r, push_stores_sequence v pos, silent)
    go_on spurious (push_stores_sequence v pos) r =
        (set_sequence (bit_and pos r.mask) ((pos + 1) % size_mod) r, idle, silent)
    go_on spurious pop_loads_tail r = (r, pop_loads_sequence r.tail, silent)
    go_on spurious (pop_loads_sequence pos) r = (r, pop_compares pos r, silent)
    go_on spurious (pop_swaps_tail pos) r = pop_swaps spurious pos r
    go_on spurious (pop_moves_value pos) r =
        let i = bit_and pos r.mask in
        let v = (r.slots i).value in
        (set_value i (moved_from v) r, pop_stores_sequence pos v, silent)
    go_on spurious (pop_stores_sequence pos v) r =
        (set_sequence (bit_and pos r.mask) ((pos + r.capacity) % size_mod) r, idle, returns pos v)

  -- A call begins; a thread inside a call begins none.
  unfoldable pub call : Thread A → Thread A → Thread A
  call first idle = first
  call first other = other

  abbrev pub put_thread : ℕ → Thread A → (ℕ → Thread A) → ℕ → Thread A
  put_thread t thread threads u = if u == t then thread else threads u

  abbrev pub note_claimed : Effect A → List A → List A
  note_claimed silent vs = vs
  note_claimed (claims v) vs = vs ++ (v ∷ [])
  note_claimed (returns pos v) vs = vs

  abbrev pub note_returned : Effect A → List (ℕ × A) → List (ℕ × A)
  note_returned silent rs = rs
  note_returned (claims v) rs = rs
  note_returned (returns pos v) rs = (pos, v) ∷ rs

  abbrev pub new_system : A → ℕ → System A
  new_system default capacity = record {
    ring = new_ring default capacity;
    threads = λ t. idle;
    claimed = [];
    returned = [];
  }

  -- Thread `t` leaves this ring, is here now, and had this effect.
  abbrev pub moved : ℕ → Ring A → Thread A → Effect A → System A → System A
  moved t r thread effect s = record {
    ring = r;
    threads = put_thread t thread s.threads;
    claimed = note_claimed effect s.claimed;
    returned = note_returned effect s.returned;
  }

  module _ (moved_from : A → A) where
    unfoldable pub act : ℕ → Action A → System A → System A
    unfolding go_on call
    act t (calls_push v) s = moved t s.ring (call (push_loads_head v) (s.threads t)) silent s
    act t calls_pop s = moved t s.ring (call pop_loads_tail (s.threads t)) silent s
    act t (goes_on spurious) s =
        let (r, thread, effect) = go_on moved_from spurious (s.threads t) s.ring in
        moved t r thread effect s

    -- A schedule: which thread acts next, and how.
    unfoldable pub run : List (ℕ × Action A) → System A → System A
    unfolding act
    run [] s = s
    run ((t, action) ∷ rest) s = run rest (act t action s)
