-- ===== src/Response/Waiting.antt =====
-- The methods that wait: they take the oldest PDU at once, and wake at a shutdown.
use d_app_libe.Base.{
  ℕ, zero, suc, ◌+◌, ◌*◌, ◌<◌, ◌≤◌, ◌≡◌, ◌≢◌, subst, refl, ◌∙◌, Bool, true, false, if◌then◌else◌,
  ◌==◌, List, [], ◌∷◌, some, none, arith, ◌⊎◌, inl, inr, ◌⊎◌, inl, inr,
}
use native.Mathlib.Decide.{dec_lt}
use d_app_libe.Mpmc.Defs.{MpmcQueue}
use d_app_libe.Mpmc.Represents.{Represents}
use d_app_libe.Types.{Pdu, empty_pdu}
use d_app_libe.Response.Defs.{
  ResponseQueue, shutdown, stopped, used_up, poll, and_then, pop, pop_timeout, try_pop_once,
}
use d_app_libe.Response.Contents.{Holds, try_pop_once-cons, try_pop_once-nil}

-- No other thread touches the queue, but that one shuts it down before the `n`-th inspection.
unfoldable pub shutdown_at : ℕ → ℕ → ResponseQueue → ResponseQueue
unfolding shutdown
shutdown_at n i q = if i == n then shutdown q else q

abbrev pub quiet : ℕ → ResponseQueue → ResponseQueue
quiet i q = q

shutdown_at_ne : (n i : ℕ) (q : ResponseQueue) → i ≢ n → shutdown_at n i q ≡ q
unfolding shutdown_at
shutdown_at_ne n i q h = let other : (i == n) ≡ false = ground arith in rw (shutdown_at, other)

shutdown_at_self : (n i : ℕ) (q : ResponseQueue) → n ≡ i → shutdown_at n i q ≡ shutdown q
unfolding shutdown_at
shutdown_at_self n i q e = let same : (i == n) ≡ true = ground arith in rw (shutdown_at, same)

module _ (moved_from : Pdu → Pdu) where
  module _ (q : ResponseQueue) (x : Pdu) (xs : List Pdu) (room : ℕ)
      (h : Holds q (x ∷ xs) room) where
    -- A queue that holds a PDU gives the oldest to a waiting call at once, even after a shutdown.
    pub pop-Holds :
        (clock fuel before : ℕ)
        → (q' : ResponseQueue) × (pop moved_from quiet clock fuel q ≡ some (x, q'))
          × (pop_timeout moved_from quiet before q ≡ some (some x, q'))
          × Holds q' xs room
          × (q'.shut_down ≡ q.shut_down)
    unfolding pop pop_timeout and_then poll
    pop-Holds clock fuel before =
        let (q', e, h', same) = try_pop_once-cons moved_from q x xs room h in
        (q', rw (pop, poll, e), rw (pop_timeout, poll, e), h', same)

  poll_idle :
      (others : ℕ → ResponseQueue → ResponseQueue) (rounds i : ℕ) (q q1 q2 : ResponseQueue)
      → others i q ≡ q1
      → try_pop_once moved_from q1 ≡ some (q1, none)
      → others (i + 1) q1 ≡ q2
      → poll moved_from others (suc rounds) i q
        ≡ elim q2.shut_down [ true ↦ stopped q2 | false ↦ poll moved_from others rounds (i + 2) q2 ]
  unfolding poll
  poll_idle others rounds i q q1 q2 e1 idle e2 =
      subst
        (λ r.
          poll moved_from others (suc rounds) i q
          ≡ elim r.shut_down [ true ↦ stopped r | false ↦ poll moved_from others rounds (i + 2) r ])
        e2 (rw (poll, e1, idle))

  module _ (n : ℕ) (ring : MpmcQueue Pdu) (room : ℕ) (h : Represents ring [] room) where
    abbrev opened : ResponseQueue
    opened = record { ring = ring; shut_down = false }

    abbrev closed : ResponseQueue
    closed = record { ring = ring; shut_down = true }

    -- A round of a phase, in which the shutdown does not come.
    round_later :
        (rounds i : ℕ)
        → i + 1 < n
        → poll moved_from (shutdown_at n) (suc rounds) i opened
          ≡ poll moved_from (shutdown_at n) rounds (i + 2) opened
    round_later rounds i late =
        poll_idle (shutdown_at n) rounds i opened opened opened
          (shutdown_at_ne n i opened (λ e. omega arith)) (try_pop_once-nil moved_from opened room h)
          (shutdown_at_ne n (i + 1) opened (λ e. omega arith))

    -- A round in which it comes, before the attempt or behind it.
    round_now :
        (rounds i : ℕ)
        → (n ≡ i) ⊎ (n ≡ i + 1)
        → poll moved_from (shutdown_at n) (suc rounds) i opened ≡ stopped closed
    unfolding shutdown
    round_now rounds i (inl e) =
        poll_idle (shutdown_at n) rounds i opened closed closed (shutdown_at_self n i opened e)
          (try_pop_once-nil moved_from closed room h)
          (shutdown_at_ne n (i + 1) closed (λ d. omega arith))
    round_now rounds i (inr e) =
        poll_idle (shutdown_at n) rounds i opened opened closed
          (shutdown_at_ne n i opened (λ d. omega arith)) (try_pop_once-nil moved_from opened room h)
          (shutdown_at_self n (i + 1) opened e)

    poll_late :
        (rounds i : ℕ)
        → i + rounds * 2 ≤ n
        → poll moved_from (shutdown_at n) rounds i opened ≡ used_up opened
    unfolding poll
    poll_late zero i late = refl
    poll_late (suc rounds) i late =
        round_later rounds i (omega arith) ∙ poll_late rounds (i + 2) (omega arith)

    poll_wakes :
        (rounds i : ℕ)
        → i ≤ n
        → n < i + rounds * 2
        → poll moved_from (shutdown_at n) rounds i opened ≡ stopped closed
    poll_wakes zero i early soon = absurd (omega arith)
    poll_wakes (suc rounds) i early soon = elim (dec_lt (i + 1) n) [
      | yes later ↦
          round_later rounds i later ∙ poll_wakes rounds (i + 2) (omega arith) (omega arith)
      | no now ↦
          round_now rounds i
            (elim (dec_lt i n) [ yes behind ↦ inr (ground arith) | no before ↦ inl (ground arith) ])
    ]

    -- The three phases one after the other are one phase of all their rounds.
    phases :
        (fuel : ℕ)
        → n < 280 + fuel * 2
        → and_then moved_from
            (shutdown_at n)
            (and_then moved_from
              (shutdown_at n)
              (poll moved_from (shutdown_at n) 40 0 opened)
              (poll moved_from (shutdown_at n) 100 80))
            (poll moved_from (shutdown_at n) fuel 280)
          ≡ stopped closed
    unfolding and_then
    phases fuel soon = elim (dec_lt n 80) [
      | yes first ↦ rw (poll_wakes 40 0 (omega arith) first)
      | no past ↦ elim (dec_lt n 280) [
        | yes second ↦ rw (poll_late 40 0 (omega arith), poll_wakes 100 80 (omega arith) second)
        | no third ↦
            rw (poll_late 40 0 (omega arith), poll_late 100 80 (omega arith))
              (poll_wakes fuel 280 (omega arith) soon)
      ]
    ]

    -- While the queue is empty, a waiting pop returns with an empty PDU once another thread shuts
    -- the queue down within the rounds for which there is fuel.
    pub pop-shutdown_at :
        (clock fuel : ℕ)
        → n < 280 + fuel * 2
        → pop moved_from (shutdown_at n) clock fuel opened ≡ some (empty_pdu clock, closed)
    unfolding pop
    pop-shutdown_at clock fuel soon = rw (pop, phases fuel soon)

    -- Likewise `pop(timeout)`, with nothing.
    pub pop_timeout-shutdown_at :
        (before : ℕ)
        → n < 280 + before * 2
        → pop_timeout moved_from (shutdown_at n) before opened ≡ some (none, closed)
    unfolding pop_timeout
    pop_timeout-shutdown_at before soon = rw (pop_timeout, phases before soon)

    -- A shutdown later than the last attempt is not seen: nothing comes by the deadline.
    pub pop_timeout-deadline :
        (before : ℕ)
        → 280 + before * 2 < n
        → pop_timeout moved_from (shutdown_at n) before opened ≡ some (none, opened)
    unfolding pop_timeout and_then
    pop_timeout-deadline before late = rw (
      pop_timeout,
      poll_late 40 0 (omega arith),
      poll_late 100 80 (omega arith),
      poll_late before 280 (omega arith),
      shutdown_at_ne n (280 + before + before) opened (λ e. omega arith),
      try_pop_once-nil moved_from opened room h,
    )

  module _ (room : ℕ) where
    poll_quiet :
        (ring : MpmcQueue Pdu) (rounds i : ℕ)
        → Represents ring [] room
        → poll moved_from quiet rounds i (record { ring = ring; shut_down = false })
          ≡ used_up (record { ring = ring; shut_down = false })
    unfolding poll
    poll_quiet ring zero i h = refl
    poll_quiet ring (suc rounds) i h =
        let q : ResponseQueue = record { ring = ring; shut_down = false } in
        poll_idle quiet rounds i q q q refl (try_pop_once-nil moved_from q room h) refl
        ∙ poll_quiet ring rounds (i + 2) h

    pop_timeout_empty :
        (ring : MpmcQueue Pdu) (closed : Bool) (before : ℕ)
        → Represents ring [] room
        → pop_timeout moved_from quiet before (record { ring = ring; shut_down = closed })
          ≡ some (none, record { ring = ring; shut_down = closed })
    unfolding pop_timeout and_then poll
    pop_timeout_empty ring true before h =
        let q : ResponseQueue = record { ring = ring; shut_down = true } in
        rw (pop_timeout, poll, try_pop_once-nil moved_from q room h)
    pop_timeout_empty ring false before h =
        let q : ResponseQueue = record { ring = ring; shut_down = false } in
        rw (
          pop_timeout,
          poll_quiet ring 40 0 h,
          poll_quiet ring 100 80 h,
          poll_quiet ring before 280 h,
          try_pop_once-nil moved_from q room h,
        )

    -- While no other thread acts, an empty queue gives nothing by the deadline.
    pub pop_timeout-nil :
        (q : ResponseQueue) (before : ℕ)
        → Holds q [] room
        → pop_timeout moved_from quiet before q ≡ some (none, q)
    pop_timeout-nil q before h = pop_timeout_empty q.ring q.shut_down before h
