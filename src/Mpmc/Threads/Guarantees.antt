-- ===== src/Mpmc/Threads/Guarantees.antt =====
-- What the ring promises its threads.
use d_app_libe.Base.{ℕ, ◌+◌, ◌^◌, ◌≤◌, ◌<◌, ◌≡◌, ◌≢◌, ◌⊎◌, inl, inr, some, List, length, arith}
use d_app_libe.Base.Arrays.{get_elem?}
use native.Mathlib.Decide.{dec_lt}
use d_app_libe.Mpmc.Threads.Steps.{Action, System, idle, run, new_system}
use d_app_libe.Mpmc.Threads.Invariant.{value_at, Delivered, NoneTwice, Holds}
use d_app_libe.Mpmc.Threads.Accounts.{Accounts, Present}
use d_app_libe.Mpmc.Threads.Exclusion.{works_on, one_at_a_slot}
use d_app_libe.Mpmc.Threads.Runs.{run-Holds, run-Accounts, new-Holds, new-Accounts}

-- A ring of 2^n slots on which no thread has acted, and a schedule that keeps the positions below
-- 2^63.
module _ {A : Type 0} (moved_from : A → A) (default : A) (n : ℕ) (schedule : List (ℕ × Action A))
    (at_least_two : 1 ≤ n) (far : 2 ^ n + length schedule < 2 ^ 63) where
  abbrev pub after : System A
  after = run moved_from schedule (new_system default (2 ^ n))

  after-Holds : Holds after 0
  after-Holds =
      run-Holds moved_from schedule (new_system default (2 ^ n)) 0
        (new-Holds default n (length schedule + 0) at_least_two (omega arith))

  after-Accounts : Accounts after
  after-Accounts =
      run-Accounts moved_from schedule (new_system default (2 ^ n)) 0
        (new-Holds default n (length schedule + 0) at_least_two (omega arith))
        (new-Accounts default n)

  -- However the steps of any number of threads inside try_push and try_pop interleave, on a new
  -- ring of 2^n slots, 1 ≤ n, and in fewer than 2^63 - 2^n steps: a pop that claimed a position
  -- returns the value of the push that claimed it, no position is returned twice, the pops have
  -- claimed no more than the pushes, and these at most a capacity more.
  pub run-Delivers :
      Delivered after.claimed after.returned
      × NoneTwice after.returned
      × (length after.claimed ≡ after.ring.head)
      × (after.ring.tail ≤ after.ring.head)
      × (after.ring.head ≤ after.ring.tail + after.ring.capacity)
  run-Delivers =
      let h = after-Holds in
      (h.delivered, h.once, h.sound.counted, h.sound.ordered, h.sound.bounded)

  -- In such a run, two threads never work on one slot at once: from the claim of a position to the
  -- store of the slot's sequence, a push or pop has the slot for itself.
  pub run-Excludes :
      (t u i : ℕ)
      → t ≢ u
      → works_on after.ring (after.threads t) ≡ some i
      → works_on after.ring (after.threads u) ≢ some i
  run-Excludes t u i other e f = other (one_at_a_slot after 0 after-Holds t u i e f)

  -- After such a run in which every call has returned, no value is lost: each value that a push
  -- claimed a position for was returned by a pop, or its position is between tail and head and its
  -- slot holds it.
  pub run-Keeps_all :
      (quiet : (t : ℕ) → after.threads t ≡ idle) (pos : ℕ)
      → pos < length after.claimed
      → Present pos after.returned
        ⊎ ((after.ring.tail ≤ pos) × (get_elem? after.claimed pos ≡ some (value_at after.ring pos)))
  run-Keeps_all quiet pos claimed =
      let h = after-Holds in
      let counted = h.sound.counted in
      elim (dec_lt pos after.ring.tail) [
        | yes behind ↦ elim (after-Accounts.popped pos behind) [
          | inl (t, held) ↦ let e = rw (quiet t) at held in absurd (cc)
          | inr there ↦ inl there
        ]
        | no ahead ↦ elim (after-Accounts.pushed pos (omega arith) (omega arith)) [
          | inl (t, held) ↦ let e = rw (quiet t) at held in absurd (cc)
          | inr filled ↦ inr (omega arith, (h.sound.ready pos (omega arith) filled).1)
        ]
      ]
