-- ===== src/Mpmc/Threads/Runs.antt =====
-- Every schedule keeps the invariant.
use native.Mathlib.Nat.{pow-le-pow_right, mod-lt, mod-le}
use d_app_libe.Base.{
  ℕ, suc, ◌+◌, ◌^◌, ◌≤◌, ◌<◌, ◌≡◌, refl, subst, List, [], ◌∷◌, length, arith, Bool,
}
use d_app_libe.Mpmc.Threads.Steps.{
  System, Thread, idle, push_loads_head, push_loads_sequence, push_swaps_head, push_writes_value,
  push_stores_sequence, pop_loads_tail, pop_loads_sequence, pop_swaps_tail, pop_moves_value,
  pop_stores_sequence, Action, calls_push, calls_pop, goes_on, go_on, act, run, new_system,
  push_compares, pop_compares, silent,
}
use d_app_libe.Mpmc.Threads.Invariant.{Knows, Holds}
use d_app_libe.Mpmc.Threads.Compares.{push_compared, pop_compared}
use d_app_libe.Mpmc.Threads.Accounts.{Accounts}
use d_app_libe.Mpmc.Threads.Passing.{act-Accounts}
use d_app_libe.Mpmc.Threads.Keeps.{rests, called, push_swapped, writes, publishes}
use d_app_libe.Mpmc.Threads.Pops.{pop_swapped, moves, recycles}
use d_app_libe.Mpmc.Threads.Moves.{Keeps, moved-Holds}

module _ {A : Type 0} (moved_from : A → A) where
  module _ (s : System A) (t room : ℕ) (h : Holds s (suc room)) (spurious : Bool) where
    go_on-Keeps :
        (thread : Thread A)
        → s.threads t ≡ thread
        → let (r, thread', effect) = go_on moved_from spurious thread s.ring in
          Keeps s t r thread' effect room
    unfolding go_on
    go_on-Keeps idle here = rests s t room h idle tt refl refl
    go_on-Keeps (push_loads_head v) here =
        rests s t room h (push_loads_sequence v s.ring.head) (omega arith) refl refl
    go_on-Keeps (push_loads_sequence v pos) here =
        let (knows, no_push, no_pop) =
          push_compared h.sound v pos (subst (Knows s.claimed s.ring) here (h.knows t)) in
        rests s t room h (push_compares v pos s.ring) knows no_push no_pop
    go_on-Keeps (push_swaps_head v pos) here = push_swapped s t room h v spurious pos here
    go_on-Keeps (push_writes_value v pos) here = writes s t room h v pos here
    go_on-Keeps (push_stores_sequence v pos) here = publishes s t room h v pos here
    go_on-Keeps pop_loads_tail here =
        rests s t room h (pop_loads_sequence s.ring.tail) (omega arith) refl refl
    go_on-Keeps (pop_loads_sequence pos) here =
        let (knows, no_push, no_pop) =
          pop_compared h.sound pos (subst (Knows s.claimed s.ring) here (h.knows t)) in
        rests s t room h (pop_compares pos s.ring) knows no_push no_pop
    go_on-Keeps (pop_swaps_tail pos) here = pop_swapped s t room h spurious pos here
    go_on-Keeps (pop_moves_value pos) here = moves s t room h pos _ here
    go_on-Keeps (pop_stores_sequence pos v) here = recycles s t room h pos v here

  act-Holds :
      (s : System A) (t room : ℕ) (action : Action A)
      → Holds s (suc room)
      → Holds (act moved_from t action s) room
  unfolding act
  act-Holds s t room (calls_push v) h =
      moved-Holds s t _ _ silent room h (called s t room h (push_loads_head v) tt refl refl)
  act-Holds s t room calls_pop h =
      moved-Holds s t _ _ silent room h (called s t room h pop_loads_tail tt refl refl)
  act-Holds s t room (goes_on spurious) h =
      moved-Holds s t _ _ _ room h (go_on-Keeps s t room h spurious (s.threads t) refl)

  pub run-Holds :
      (schedule : List (ℕ × Action A)) (s : System A) (room : ℕ)
      → Holds s (length schedule + room)
      → Holds (run moved_from schedule s) room
  unfolding run
  run-Holds [] s room h = subst (Holds s) (omega arith) h
  run-Holds ((t, action) ∷ rest) s room h =
      run-Holds rest (act moved_from t action s) room
        (act-Holds s t (length rest + room) action (subst (Holds s) (omega arith) h))

  pub run-Accounts :
      (schedule : List (ℕ × Action A)) (s : System A) (room : ℕ)
      → Holds s (length schedule + room)
      → Accounts s
      → Accounts (run moved_from schedule s)
  unfolding run
  run-Accounts [] s room h a = a
  run-Accounts ((t, action) ∷ rest) s room h a =
      let h' : Holds s (suc (length rest + room)) = subst (Holds s) (omega arith) h in
      run-Accounts rest (act moved_from t action s) room
        (act-Holds s t (length rest + room) action h')
        (act-Accounts moved_from s t (length rest + room) action h' a)

module _ {A : Type 0} (default : A) (n : ℕ) where
  pub new-Holds :
      (room : ℕ) → 1 ≤ n → 2 ^ n + room < 2 ^ 63 → Holds (new_system default (2 ^ n)) room
  new-Holds room pos enough =
      let two : 2 ≤ 2 ^ n = pow-le-pow_right {n = 2} (omega arith) pos in
      record {
        sound = record {
          exponent = n;
          at_least_two = two;
          capacity_power = refl;
          mask_ones = refl;
          far = omega arith;
          counted = refl;
          ordered = omega arith;
          bounded = omega arith;
          small = λ p. let r = mod-lt p {m = 2 ^ n} (omega arith) in omega arith;
          free = λ p e. let r = mod-lt p {m = 2 ^ n} (omega arith) in omega arith;
          ready = λ p late e. absurd (omega (arith, mod-le p (2 ^ n)));
        };
        knows = λ t. tt;
        push_alone = λ t u p e. absurd (cc);
        pop_alone = λ t u p e. absurd (cc);
        delivered = tt;
        once = tt;
        below = λ p late. tt;
        not_held = λ t p e. tt;
      }

  pub new-Accounts : Accounts (new_system default (2 ^ n))
  new-Accounts = record {
    popped = λ p behind. absurd (omega arith);
    pushed = λ p late behind. absurd (omega arith);
  }
