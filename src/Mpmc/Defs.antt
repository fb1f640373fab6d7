-- ===== src/Mpmc/Defs.antt =====
-- The queue's state, and `try_push` and `try_pop` as one thread runs them with no other between.
use Prim.Native.Nat.{bit_and}
use d_app_libe.Base.{
  ℕ, zero, suc, ◌+◌, ◌-◌, ◌*◌, ◌%◌, ◌^◌, Bool, true, false, if◌then◌else◌, ltb, leb, ◌==◌, Option,
  none, some, List, [], ◌∷◌,
}
use Prim.Native.Nat.{compare, Ordering}
use d_app_libe.Base.Arrays.{get_elem?, set}

abbrev pub size_mod : ℕ
size_mod = 2 ^ 64

pub record Slot {ℓ} (A : Type ℓ) : Type ℓ where
  pub sequence : ℕ
  pub value : A

pub record MpmcQueue {ℓ} (A : Type ℓ) : Type ℓ where
  pub buffer : List (Slot A)
  pub capacity : ℕ
  pub mask : ℕ
  pub head : ℕ
  pub tail : ℕ

-- `while (capacity_ < min_capacity) capacity_ <<= 1`; `none` if the fuel runs out.
unfoldable pub round_up : ℕ → ℕ → ℕ → Option ℕ
round_up zero capacity min_capacity = none
round_up (suc fuel) capacity min_capacity =
    let rest = round_up fuel (capacity * 2 % size_mod) min_capacity in
    if ltb capacity min_capacity then rest else some capacity

-- A `size_t` read as an `intptr_t`, moved up by 2^63 so that the order is that of ℕ.
abbrev pub as_signed : ℕ → ℕ
as_signed x = (x + 2 ^ 63) % size_mod

-- The sign of `static_cast<intptr_t>(seq) - static_cast<intptr_t>(pos)`, where the difference fits.
abbrev pub sign_of_diff : ℕ → ℕ → Ordering
sign_of_diff seq pos = compare (as_signed seq) (as_signed pos)

module _ {ℓ} {A : Type ℓ} where
  -- The slots `i`, `i + 1`, ... of a new buffer.
  unfoldable pub fresh_slots : A → ℕ → ℕ → List (Slot A)
  fresh_slots default zero i = []
  fresh_slots default (suc n) i =
      record { sequence = i; value = default } ∷ fresh_slots default n (i + 1)

  -- The constructor, for a capacity that `round_up` found.
  unfoldable pub of_capacity : A → ℕ → MpmcQueue A
  unfolding fresh_slots
  of_capacity default capacity = record {
    buffer = fresh_slots default capacity 0;
    capacity = capacity;
    mask = capacity - 1;
    head = 0;
    tail = 0;
  }

  unfoldable pub construct : A → ℕ → ℕ → Option (MpmcQueue A)
  unfolding round_up of_capacity
  construct default fuel min_capacity = elim (round_up fuel 2 min_capacity) [
    | none ↦ none
    | some capacity ↦ some (of_capacity default capacity)
  ]

  -- What a successful push or pop leaves at the position that it claimed.
  unfoldable pub write_slot : ℕ → A → MpmcQueue A → MpmcQueue A
  write_slot pos value q = record q {
    buffer =
        set q.buffer (bit_and pos q.mask)
          (record { sequence = (pos + 1) % size_mod; value = value });
    head = (pos + 1) % size_mod;
  }

  -- The loop of `try_push` from the position that was loaded. `compare_exchange_weak` may fail
  -- though head_ is `pos`: `spurious n` says whether it does with `n` rounds of fuel left. `none` is
  -- a round too many, or a slot out of range.
  unfoldable pub push_loop : (ℕ → Bool) → ℕ → ℕ → A → MpmcQueue A → Option (MpmcQueue A × Bool)
  unfolding write_slot
  push_loop spurious zero pos value q = none
  push_loop spurious (suc fuel) pos value q =
      let retry = push_loop spurious fuel q.head value q in
      elim (get_elem? q.buffer (bit_and pos q.mask)) [
        | none ↦ none
        | some slot ↦ elim (sign_of_diff slot.sequence pos) [
          | Ordering.eq ↦
              if spurious fuel
              then retry
              else if q.head == pos
              then some (write_slot pos value q, true)
              else retry
          | Ordering.lt ↦ some (q, false)
          | Ordering.gt ↦ retry
        ]
      ]

  unfoldable pub try_push : (ℕ → Bool) → ℕ → A → MpmcQueue A → Option (MpmcQueue A × Bool)
  unfolding push_loop
  try_push spurious fuel value q = push_loop spurious fuel q.head value q

  -- `moved_from` is what std::move leaves of a value.
  module _ (moved_from : A → A) where
    unfoldable pub recycle_slot : ℕ → A → MpmcQueue A → MpmcQueue A
    recycle_slot pos value q = record q {
      buffer =
          set q.buffer (bit_and pos q.mask)
            (record { sequence = (pos + q.capacity) % size_mod; value = moved_from value });
      tail = (pos + 1) % size_mod;
    }

    unfoldable pub pop_loop : (ℕ → Bool) → ℕ → ℕ → MpmcQueue A → Option (MpmcQueue A × Option A)
    unfolding recycle_slot
    pop_loop spurious zero pos q = none
    pop_loop spurious (suc fuel) pos q =
        let retry = pop_loop spurious fuel q.tail q in
        elim (get_elem? q.buffer (bit_and pos q.mask)) [
          | none ↦ none
          | some slot ↦ elim (sign_of_diff slot.sequence ((pos + 1) % size_mod)) [
            | Ordering.eq ↦
                if spurious fuel
                then retry
                else if q.tail == pos
                then some (recycle_slot pos slot.value q, some slot.value)
                else retry
            | Ordering.lt ↦ some (q, none)
            | Ordering.gt ↦ retry
          ]
        ]

    -- The option beside the queue is `data` if the call returns true.
    unfoldable pub try_pop : (ℕ → Bool) → ℕ → MpmcQueue A → Option (MpmcQueue A × Option A)
    unfolding pop_loop
    try_pop spurious fuel q = pop_loop spurious fuel q.tail q

  unfoldable pub size_approx : MpmcQueue A → ℕ
  size_approx q = if leb q.tail q.head then q.head - q.tail else 0

  unfoldable pub empty_approx : MpmcQueue A → Bool
  unfolding size_approx
  empty_approx q = size_approx q == 0
