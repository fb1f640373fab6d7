-- ===== src/Mpmc/Threads/Slots.antt =====
-- What a step of one thread leaves of what another knows.
use d_app_libe.Base.{
  ℕ, ◌+◌, ◌%◌, ◌≤◌, ◌<◌, ◌≡◌, ◌≢◌, refl, some, List, [], ◌∷◌, length, arith, ◌++◌, zero, suc,
}
use d_app_libe.Base.Arrays.{get_elem?, mod-ne}
use d_app_libe.Mpmc.Threads.Steps.{
  Ring, Thread, idle, push_loads_head, push_loads_sequence, push_swaps_head, push_writes_value,
  push_stores_sequence, pop_loads_tail, pop_loads_sequence, pop_swaps_tail, pop_moves_value,
  pop_stores_sequence, set_value, set_sequence,
}
use d_app_libe.Mpmc.Threads.Invariant.{pushing, popping, sequence_at, value_at, Knows}

pub next_slot : (pos cap : ℕ) → 2 ≤ cap → pos % cap ≢ (pos + 1) % cap
next_slot pos cap two = mod-ne pos (pos + 1) cap (omega arith) (omega arith)

module _ {A : Type 0} (vs : List A) (r : Ring A) (two : 2 ≤ r.capacity) (pos : ℕ) where
  -- A push writes its value.
  module _ (owned : sequence_at r pos ≡ pos) (v : A) where
    pub written-Knows :
        (thread : Thread A)
        → pushing thread ≢ some pos
        → Knows vs r thread
        → Knows vs (set_value (pos % r.capacity) v r) thread
    written-Knows idle other k = k
    written-Knows (push_loads_head w) other k = k
    written-Knows (push_loads_sequence w q) other k = k
    written-Knows (push_swaps_head w q) other k = ground arith
    written-Knows (push_writes_value w q) other k = ground arith
    written-Knows (push_stores_sequence w q) other k = ground arith
    written-Knows pop_loads_tail other k = k
    written-Knows (pop_loads_sequence q) other k = k
    written-Knows (pop_swaps_tail q) other k = ground arith
    written-Knows (pop_moves_value q) other k = ground (arith, next_slot q r.capacity)
    written-Knows (pop_stores_sequence q w) other k = ground arith

  -- A push gives its slot to the pops.
  module _ (owned : sequence_at r pos ≡ pos) (claimed : pos < r.head) where
    pub published-Knows :
        (thread : Thread A)
        → pushing thread ≢ some pos
        → Knows vs r thread
        → Knows vs (set_sequence (pos % r.capacity) (pos + 1) r) thread
    published-Knows idle other k = k
    published-Knows (push_loads_head w) other k = k
    published-Knows (push_loads_sequence w q) other k = k
    published-Knows (push_swaps_head w q) other k = ground arith
    published-Knows (push_writes_value w q) other k = ground arith
    published-Knows (push_stores_sequence w q) other k = ground arith
    published-Knows pop_loads_tail other k = k
    published-Knows (pop_loads_sequence q) other k = k
    published-Knows (pop_swaps_tail q) other k = ground (arith, next_slot q r.capacity)
    published-Knows (pop_moves_value q) other k = ground (arith, next_slot q r.capacity)
    published-Knows (pop_stores_sequence q w) other k = ground (arith, next_slot q r.capacity)

  -- A pop moves the value out.
  module _ (held : sequence_at r pos ≡ pos + 1) (v : A) where
    pub emptied-Knows :
        (thread : Thread A)
        → popping thread ≢ some pos
        → Knows vs r thread
        → Knows vs (set_value (pos % r.capacity) v r) thread
    emptied-Knows idle other k = k
    emptied-Knows (push_loads_head w) other k = k
    emptied-Knows (push_loads_sequence w q) other k = k
    emptied-Knows (push_swaps_head w q) other k = ground arith
    emptied-Knows (push_writes_value w q) other k = ground arith
    emptied-Knows (push_stores_sequence w q) other k = ground (arith, next_slot pos r.capacity)
    emptied-Knows pop_loads_tail other k = k
    emptied-Knows (pop_loads_sequence q) other k = k
    emptied-Knows (pop_swaps_tail q) other k = ground arith
    emptied-Knows (pop_moves_value q) other k = ground arith
    emptied-Knows (pop_stores_sequence q w) other k = ground arith

  -- A pop gives its slot to the pushes of the next round.
  module _ (held : sequence_at r pos ≡ pos + 1) (claimed : pos < r.tail) where
    pub recycled-Knows :
        (thread : Thread A)
        → popping thread ≢ some pos
        → Knows vs r thread
        → Knows vs (set_sequence (pos % r.capacity) (pos + r.capacity) r) thread
    recycled-Knows idle other k = k
    recycled-Knows (push_loads_head w) other k = k
    recycled-Knows (push_loads_sequence w q) other k = k
    recycled-Knows (push_swaps_head w q) other k = ground (arith, next_slot pos r.capacity)
    recycled-Knows (push_writes_value w q) other k = ground (arith, next_slot pos r.capacity)
    recycled-Knows (push_stores_sequence w q) other k = ground (arith, next_slot pos r.capacity)
    recycled-Knows pop_loads_tail other k = k
    recycled-Knows (pop_loads_sequence q) other k = k
    recycled-Knows (pop_swaps_tail q) other k = ground arith
    recycled-Knows (pop_moves_value q) other k = ground arith
    recycled-Knows (pop_stores_sequence q w) other k = ground arith

pub get_elem?-snoc {ℓ} :
    {A : Type ℓ} (xs : List A) (x y : A) (i : ℕ)
    → get_elem? xs i ≡ some y
    → get_elem? (xs ++ (x ∷ [])) i ≡ some y
unfolding get_elem?
get_elem?-snoc [] x y i e = cc
get_elem?-snoc (z ∷ xs) x y zero e = e
get_elem?-snoc (z ∷ xs) x y (suc i) e = get_elem?-snoc xs x y i e

pub get_elem?-snoc_last {ℓ} :
    {A : Type ℓ} (xs : List A) (x : A) → get_elem? (xs ++ (x ∷ [])) (length xs) ≡ some x
unfolding get_elem?
get_elem?-snoc_last [] x = refl
get_elem?-snoc_last (z ∷ xs) x = get_elem?-snoc_last xs x

module _ {A : Type 0} (vs : List A) (r : Ring A) where
  -- A push claims the next position.
  pub pushed-Knows :
      (v : A) (thread : Thread A)
      → Knows vs r thread
      → Knows (vs ++ (v ∷ [])) (record r { head = r.head + 1 }) thread
  pushed-Knows v idle k = k
  pushed-Knows v (push_loads_head w) k = k
  pushed-Knows v (push_loads_sequence w q) k = omega arith
  pushed-Knows v (push_swaps_head w q) k = ground arith
  pushed-Knows v (push_writes_value w q) k = ground (arith, get_elem?-snoc vs v w q)
  pushed-Knows v (push_stores_sequence w q) k = ground (arith, get_elem?-snoc vs v w q)
  pushed-Knows v pop_loads_tail k = k
  pushed-Knows v (pop_loads_sequence q) k = k
  pushed-Knows v (pop_swaps_tail q) k = k
  pushed-Knows v (pop_moves_value q) k = ground (arith, get_elem?-snoc vs v (value_at r q) q)
  pushed-Knows v (pop_stores_sequence q w) k = ground (arith, get_elem?-snoc vs v w q)

  -- A pop claims the next position.
  pub popped-Knows :
      (thread : Thread A) → Knows vs r thread → Knows vs (record r { tail = r.tail + 1 }) thread
  popped-Knows idle k = k
  popped-Knows (push_loads_head w) k = k
  popped-Knows (push_loads_sequence w q) k = k
  popped-Knows (push_swaps_head w q) k = k
  popped-Knows (push_writes_value w q) k = k
  popped-Knows (push_stores_sequence w q) k = k
  popped-Knows pop_loads_tail k = k
  popped-Knows (pop_loads_sequence q) k = omega arith
  popped-Knows (pop_swaps_tail q) k = ground arith
  popped-Knows (pop_moves_value q) k = ground arith
  popped-Knows (pop_stores_sequence q w) k = ground arith

  -- A claimed position lies behind, and its slot shows whose turn it is.
  pub pushing-owns :
      (thread : Thread A) (pos : ℕ)
      → pushing thread ≡ some pos
      → Knows vs r thread
      → (pos < r.head) × (sequence_at r pos ≡ pos)
  pushing-owns idle pos e k = absurd (cc)
  pushing-owns (push_loads_head w) pos e k = absurd (cc)
  pushing-owns (push_loads_sequence w q) pos e k = absurd (cc)
  pushing-owns (push_swaps_head w q) pos e k = absurd (cc)
  pushing-owns (push_writes_value w q) pos e k = ground arith
  pushing-owns (push_stores_sequence w q) pos e k = ground arith
  pushing-owns pop_loads_tail pos e k = absurd (cc)
  pushing-owns (pop_loads_sequence q) pos e k = absurd (cc)
  pushing-owns (pop_swaps_tail q) pos e k = absurd (cc)
  pushing-owns (pop_moves_value q) pos e k = absurd (cc)
  pushing-owns (pop_stores_sequence q w) pos e k = absurd (cc)

  pub popping-owns :
      (thread : Thread A) (pos : ℕ)
      → popping thread ≡ some pos
      → Knows vs r thread
      → (pos < r.tail) × (sequence_at r pos ≡ pos + 1)
  popping-owns idle pos e k = absurd (cc)
  popping-owns (push_loads_head w) pos e k = absurd (cc)
  popping-owns (push_loads_sequence w q) pos e k = absurd (cc)
  popping-owns (push_swaps_head w q) pos e k = absurd (cc)
  popping-owns (push_writes_value w q) pos e k = absurd (cc)
  popping-owns (push_stores_sequence w q) pos e k = absurd (cc)
  popping-owns pop_loads_tail pos e k = absurd (cc)
  popping-owns (pop_loads_sequence q) pos e k = absurd (cc)
  popping-owns (pop_swaps_tail q) pos e k = absurd (cc)
  popping-owns (pop_moves_value q) pos e k = ground arith
  popping-owns (pop_stores_sequence q w) pos e k = ground arith
