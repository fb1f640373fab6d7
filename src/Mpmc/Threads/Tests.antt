-- ===== src/Mpmc/Threads/Tests.antt =====
-- Two pushes and a pop on a ring of two slots: both pushes load position 0, one of them claims it, the
-- other retries and is done first, and a pop finds the queue empty in between.
use d_app_libe.Base.{
  ℕ, ◌+◌, ◌≤◌, ◌≡◌, ◌≢◌, ◌⊎◌, refl, some, List, [], ◌∷◌, length, arith, false, true, ◌^◌,
}
use d_app_libe.Base.Arrays.{get_elem?}
use d_app_libe.Mpmc.Threads.Steps.{
  Action, calls_push, calls_pop, goes_on, System, new_system, run, idle,
}
use d_app_libe.Mpmc.Threads.Invariant.{value_at, Delivered, NoneTwice}
use d_app_libe.Mpmc.Threads.Accounts.{Present}
use d_app_libe.Mpmc.Threads.Exclusion.{works_on}
use d_app_libe.Mpmc.Threads.Guarantees.{run-Delivers, run-Excludes, run-Keeps_all}

abbrev go : ℕ → ℕ × Action ℕ
go t = (t, goes_on false)

abbrev claiming : List (ℕ × Action ℕ)
claiming = (0, calls_push 7) ∷ (1, calls_push 8) ∷ go 0 ∷ go 1 ∷ go 0 ∷ go 1 ∷ go 0 ∷ go 1 ∷ []

abbrev schedule : List (ℕ × Action ℕ)
schedule =
    (0, calls_push 7)
    ∷ (1, calls_push 8)
    ∷ go 0
    ∷ go 1
    ∷ go 0
    ∷ go 1
    ∷ go 0
    ∷ go 1
    ∷ go 1
    ∷ go 1
    ∷ go 1
    ∷ go 1
    ∷ (2, calls_pop)
    ∷ go 2
    ∷ go 2
    ∷ go 0
    ∷ go 0
    ∷ (2, calls_pop)
    ∷ go 2
    ∷ go 2
    ∷ (2, goes_on true)
    ∷ go 2
    ∷ go 2
    ∷ go 2
    ∷ go 2
    ∷ []

abbrev gone : ℕ → ℕ
gone v = 0

abbrev done : System ℕ
done = run gone schedule (new_system 0 (2 ^ 1))

done-returned : done.returned ≡ (0, 7) ∷ []
unfolding run
done-returned = refl

done-claimed : done.claimed ≡ 7 ∷ 8 ∷ []
unfolding run
done-claimed = refl

done-idle : (t : ℕ) → done.threads t ≡ idle
unfolding run
done-idle t = ground arith

run-Delivers_example :
    Delivered done.claimed done.returned
    × NoneTwice done.returned
    × (length done.claimed ≡ done.ring.head)
    × (done.ring.tail ≤ done.ring.head)
    × (done.ring.head ≤ done.ring.tail + done.ring.capacity)
run-Delivers_example = run-Delivers gone 0 1 schedule (omega arith) (omega arith)

abbrev started : System ℕ
started = run gone claiming (new_system 0 (2 ^ 1))

claimed_slot : works_on started.ring (started.threads 0) ≡ some 0
unfolding run
claimed_slot = refl

run-Excludes_example : works_on started.ring (started.threads 1) ≢ some 0
run-Excludes_example =
    run-Excludes gone 0 1 claiming (omega arith) (omega arith) 0 1 0 (omega arith) claimed_slot

run-Keeps_all_example :
    Present 1 done.returned
    ⊎ ((done.ring.tail ≤ 1) × (get_elem? done.claimed 1 ≡ some (value_at done.ring 1)))
unfolding run
run-Keeps_all_example =
    run-Keeps_all gone 0 1 schedule (omega arith) (omega arith) done-idle 1 (omega arith)
