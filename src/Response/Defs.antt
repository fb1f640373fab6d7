-- ===== src/Response/Defs.antt =====
-- The queue's methods. Each attempt on the ring is a lone thread's call, in which the
-- compare-and-swap works in the first round; `none` stands for a call that does not return.
use d_app_libe.Base.{ℕ, zero, suc, ◌+◌, Bool, true, false, if◌then◌else◌, Option, none, some}
use d_app_libe.Types.{ErrorCode, Pdu, empty_pdu}
use d_app_libe.Mpmc.Defs.{MpmcQueue, construct, try_push, try_pop, size_approx, empty_approx}

pub record ResponseQueue : Type 0 where
  pub ring : MpmcQueue Pdu
  pub shut_down : Bool

abbrev pub spin_count : ℕ
spin_count = 40

abbrev pub yield_count : ℕ
yield_count = 100

abbrev pub never : ℕ → Bool
never n = false

-- Slots of a new ring hold `Pdu()`, made at the time `clock`.
unfoldable pub create : ℕ → ℕ → Option ResponseQueue
create clock capacity = elim (construct (empty_pdu clock) 63 capacity) [
  | none ↦ none
  | some ring ↦ some (record { ring = ring; shut_down = false })
]

unfoldable pub push : Pdu → ResponseQueue → Option (ResponseQueue × ErrorCode)
push pdu q =
    if q.shut_down
    then some (q, ErrorCode.not_initialized)
    else elim (try_push never 1 pdu q.ring) [
      | none ↦ none
      | some (ring, done) ↦
          if done
          then some (record q { ring = ring }, ErrorCode.success)
          else some (record q { ring = ring }, ErrorCode.buffer_too_small)
    ]

unfoldable pub shutdown : ResponseQueue → ResponseQueue
shutdown q = record q { shut_down = true }

unfoldable pub is_shutdown : ResponseQueue → Bool
is_shutdown q = q.shut_down

unfoldable pub size : ResponseQueue → ℕ
size q = size_approx q.ring

unfoldable pub empty : ResponseQueue → Bool
empty q = empty_approx q.ring

module _ (moved_from : Pdu → Pdu) where
  unfoldable pub try_pop_once : ResponseQueue → Option (ResponseQueue × Option Pdu)
  try_pop_once q = elim (try_pop moved_from never 1 q.ring) [
    | none ↦ none
    | some (ring, out) ↦ some (record q { ring = ring }, out)
  ]

  -- `while (ring_.try_pop(pdu)) {}`
  unfoldable pub clear : ℕ → ResponseQueue → Option ResponseQueue
  clear zero q = none
  clear (suc fuel) q = elim (try_pop_once q) [
    | none ↦ none
    | some (q', none) ↦ some q'
    | some (q', some pdu) ↦ clear fuel q'
  ]

  -- How one phase of `pop` ends: with a PDU, at the shutdown, or with its rounds used up.
  pub data Polled : Type 0 where
    got : Pdu → ResponseQueue → Polled
    stopped : ResponseQueue → Polled
    used_up : ResponseQueue → Polled
    hangs : Polled

  -- `others i` is what the other threads do to the queue before its `i`-th inspection.
  module _ (others : ℕ → ResponseQueue → ResponseQueue) where
    -- The rounds of one phase: try to pop, look for the shutdown, wait.
    unfoldable pub poll : ℕ → ℕ → ResponseQueue → Polled
    poll zero i q = used_up q
    poll (suc rounds) i q = elim (try_pop_once (others i q)) [
      | none ↦ hangs
      | some (q', some pdu) ↦ got pdu q'
      | some (q', none) ↦
          let q'' = others (i + 1) q' in
          elim q''.shut_down [ true ↦ stopped q'' | false ↦ poll rounds (i + 2) q'' ]
    ]

    -- The next phase, if the one before it used up its rounds.
    unfoldable pub and_then : Polled → (ResponseQueue → Polled) → Polled
    and_then (got pdu q) next = got pdu q
    and_then (stopped q) next = stopped q
    and_then (used_up q) next = next q
    and_then hangs next = hangs

    -- `pop()`: what `clock` says when it makes an empty PDU; `fuel` rounds of the endless phase.
    unfoldable pub pop : ℕ → ℕ → ResponseQueue → Option (Pdu × ResponseQueue)
    pop clock fuel q =
        elim (and_then (and_then (poll spin_count 0 q) (poll yield_count (spin_count + spin_count)))
          (poll fuel (spin_count + spin_count + yield_count + yield_count))) [
            | got pdu q' ↦ some (pdu, q')
            | stopped q' ↦ some (empty_pdu clock, q')
            | used_up q' ↦ none
            | hangs ↦ none
          ]

    -- `pop(timeout)`: `before` is how often the third phase finds the time before the deadline.
    unfoldable pub pop_timeout : ℕ → ResponseQueue → Option (Option Pdu × ResponseQueue)
    pop_timeout before q =
        elim (and_then (and_then (poll spin_count 0 q) (poll yield_count (spin_count + spin_count)))
          (poll before (spin_count + spin_count + yield_count + yield_count))) [
            | got pdu q' ↦ some (some pdu, q')
            | stopped q' ↦ some (none, q')
            | used_up q' ↦
                let last = spin_count + spin_count + yield_count + yield_count + before + before in
                elim (try_pop_once (others last q')) [
                  | none ↦ none
                  | some (q'', out) ↦ some (out, q'')
                ]
            | hangs ↦ none
          ]
