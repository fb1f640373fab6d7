-- ===== src/Response/Contents.antt =====
-- The methods that do not wait, against the list of PDUs that the queue holds.
use d_app_libe.Base.{
  ℕ, zero, suc, ◌-◌, ◌<◌, ◌≤◌, ◌^◌, ◌≡◌, ◌↔◌, refl, ◌∙◌, Bool, true, false, if◌then◌else◌, ltb,
  ltb→lt, length, List, [], ◌∷◌, ◌++◌, some, none, arith, inl, inr, Bool-cases,
}
use native.Mathlib.Nat.{pow-le-pow_right}
use d_app_libe.Types.{ErrorCode, Pdu, empty_pdu}
use d_app_libe.Mpmc.Defs.{MpmcQueue, round_up, construct, of_capacity, size_approx, empty_approx}
use d_app_libe.Mpmc.Capacity.{round_up-power}
use d_app_libe.Mpmc.Represents.{Represents}
use d_app_libe.Mpmc.Refine.{try_push-space, try_push-full}
use d_app_libe.Mpmc.Refine.Pop.{try_pop-cons, try_pop-nil}
use d_app_libe.Mpmc.Fifo.{Represents-weaken, of_capacity-Represents}
use d_app_libe.Response.Defs.{ResponseQueue, create, push, try_pop_once, clear, never, size, empty}

-- The queue holds these PDUs, oldest first.
abbrev pub Holds : ResponseQueue → List Pdu → ℕ → Type 0
Holds q xs room = Represents q.ring xs room

-- The specification of `push`: what it answers, and what the queue holds after it.
unfoldable pub push_answer : ResponseQueue → List Pdu → ErrorCode
push_answer q xs =
    if q.shut_down
    then ErrorCode.not_initialized
    else if ltb (length xs) q.ring.capacity
    then ErrorCode.success
    else ErrorCode.buffer_too_small

unfoldable pub push_contents : Pdu → ResponseQueue → List Pdu → List Pdu
push_contents pdu q xs =
    if q.shut_down then xs else if ltb (length xs) q.ring.capacity then xs ++ (pdu ∷ []) else xs

-- The answer, the contents and the two parts that stay.
abbrev pub Pushed : Pdu → ResponseQueue → List Pdu → ℕ → Type 0
Pushed pdu q xs room =
    (q' : ResponseQueue) × (push pdu q ≡ some (q', push_answer q xs))
    × Holds q' (push_contents pdu q xs) room
    × (q'.shut_down ≡ q.shut_down)
    × (q'.ring.capacity ≡ q.ring.capacity)

push_cases :
    (pdu : Pdu) (ring : MpmcQueue Pdu) (closed : Bool) (xs : List Pdu) (room : ℕ)
    → Represents ring xs (suc room)
    → Pushed pdu (record { ring = ring; shut_down = closed }) xs room
unfolding push push_answer push_contents
push_cases pdu ring true xs room h =
    (record { ring = ring; shut_down = true }, refl, Represents-weaken ring xs room h, refl, refl)
push_cases pdu ring false xs room h = elim (Bool-cases (ltb (length xs) ring.capacity)) [
  | inl fits ↦
      let (ring', e, r, same) =
        try_push-space ring xs room h never 1 0 pdu (omega arith) refl
          (ltb→lt (length xs) ring.capacity fits) in
      (record { ring = ring'; shut_down = false }, rw (fits, e), rw fits r, refl, same)
  | inr full ↦
      let bounded = h.bounded in
      let e = try_push-full ring xs room h never 0 pdu (ground arith) in
      (
        record { ring = ring; shut_down = false },
        rw (full, e),
        rw full (Represents-weaken ring xs room h),
        refl,
        refl,
      )
]

-- push returns on every branch, on a queue with positions below 2^63: after the shutdown it answers
-- NOT_INITIALIZED and a full queue BUFFER_TOO_SMALL, both with the contents as they were; otherwise
-- it answers SUCCESS and the PDU stands behind the earlier ones.
pub push-Holds :
    (pdu : Pdu) (q : ResponseQueue) (xs : List Pdu) (room : ℕ)
    → Holds q xs (suc room)
    → Pushed pdu q xs room
push-Holds pdu q xs room h = push_cases pdu q.ring q.shut_down xs room h

module _ (moved_from : Pdu → Pdu) where
  -- One attempt takes the oldest PDU, whether or not the queue is shut down.
  pub try_pop_once-cons :
      (q : ResponseQueue) (x : Pdu) (xs : List Pdu) (room : ℕ)
      → Holds q (x ∷ xs) room
      → (q' : ResponseQueue) × (try_pop_once moved_from q ≡ some (q', some x))
        × Holds q' xs room
        × (q'.shut_down ≡ q.shut_down)
  unfolding try_pop_once
  try_pop_once-cons q x xs room h =
      let (ring, e, r, same) =
        try_pop-cons moved_from q.ring x xs room h never 1 0 (omega arith) refl in
      (record q { ring = ring }, rw (try_pop_once, e), r, refl)

  pub try_pop_once-nil :
      (q : ResponseQueue) (room : ℕ) → Holds q [] room → try_pop_once moved_from q ≡ some (q, none)
  unfolding try_pop_once
  try_pop_once-nil q room h = rw (try_pop_once, try_pop-nil moved_from q.ring room h never 0)

  -- clear ends after one attempt more than there are PDUs, with an empty queue that is open or shut
  -- down as it was.
  pub clear-Holds :
      (fuel : ℕ) (q : ResponseQueue) (xs : List Pdu) (room : ℕ)
      → length xs < fuel
      → Holds q xs room
      → (q' : ResponseQueue) × (clear moved_from fuel q ≡ some q')
        × Holds q' [] room
        × (q'.shut_down ≡ q.shut_down)
  unfolding clear
  clear-Holds zero q xs room enough h = absurd (omega arith)
  clear-Holds (suc fuel) q [] room enough h = (q, rw (clear, try_pop_once-nil q room h), h, refl)
  clear-Holds (suc fuel) q (x ∷ xs) room enough h =
      let (q1, e, h1, same) = try_pop_once-cons q x xs room h in
      let (q2, e2, h2, same2) = clear-Holds fuel q1 xs room (omega arith) h1 in
      (q2, rw (clear, e) e2, h2, same2 ∙ same)

-- size counts the PDUs that a quiet queue holds, and empty says whether there are none.
pub size-Holds :
    (q : ResponseQueue) (xs : List Pdu) (room : ℕ)
    → Holds q xs room
    → (size q ≡ length xs) × ((empty q ≡ true) ↔ (xs ≡ []))
unfolding size empty size_approx empty_approx
size-Holds q [] room h = let c = h.counted in (ground arith, ((λ e. refl), (λ e. ground arith)))
size-Holds q (x ∷ xs) room h =
    let c = h.counted in (ground arith, ((λ e. absurd (ground arith)), (λ e. cc)))

-- Through `round_up`, the constructor is that of the capacity found.
create_of :
    (clock min k : ℕ)
    → round_up 63 2 min ≡ some (2 ^ k)
    → create clock min
      ≡ some (record { ring = of_capacity (empty_pdu clock) (2 ^ k); shut_down = false })
unfolding create construct
create_of clock min k e = rw (create, construct, e)

of_capacity_enough :
    (default : Pdu) (min capacity : ℕ)
    → min ≤ capacity
    → min ≤ (of_capacity default capacity).capacity
unfolding of_capacity
of_capacity_enough default min capacity h = h

-- A queue created for a capacity of at most 2^61 is empty and open, has room for at least that many
-- PDUs, and for 2^62 - 1 pushes in all.
pub create-Holds :
    (clock capacity : ℕ)
    → capacity ≤ 2 ^ 61
    → (q : ResponseQueue) × (create clock capacity ≡ some q)
      × Holds q [] (2 ^ 62 - 1)
      × (q.shut_down ≡ false)
      × (capacity ≤ q.ring.capacity)
create-Holds clock capacity small =
    let (n, e, low, high, enough, tight) = round_up-power capacity (omega arith) in
    let two : 2 ≤ 2 ^ n = pow-le-pow_right {n = 2} (omega arith) low in
    let above : 2 ^ n < 2 ^ 62 = elim tight [
      | inl first ↦ rw first (omega arith)
      | inr double ↦ omega arith
    ] in
    (
      record { ring = of_capacity (empty_pdu clock) (2 ^ n); shut_down = false },
      create_of clock capacity n e,
      of_capacity-Represents (empty_pdu clock) n (2 ^ 62 - 1) two (omega arith),
      refl,
      of_capacity_enough (empty_pdu clock) capacity (2 ^ n) enough,
    )
