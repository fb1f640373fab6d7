-- ===== src/Mpmc/Threads/Accounts.antt =====
-- No claimed position is forgotten: a thread has it, or it was dealt with.
use d_app_libe.Base.{
  ℕ, ◌+◌, ◌≤◌, ◌<◌, ◌≡◌, ◌⊎◌, subst, Option, some, List, [], ◌∷◌, arith, ◌==◌, inl, inr, Bool-cases,
  true,
}
use d_app_libe.Mpmc.Threads.Steps.{
  Ring, System, Thread, Effect, silent, claims, returns, put_thread, note_returned, moved,
}
use d_app_libe.Mpmc.Threads.Invariant.{pushing, popping, sequence_at}

abbrev pub Present : {A : Type 0} → ℕ → List (ℕ × A) → Type 0
Present p [] = ⊥
Present p ((pos, v) ∷ rs) = (pos ≡ p) ⊎ Present p rs

module _ {A : Type 0} where
  abbrev pub HeldBy : (Thread A → Option ℕ) → (ℕ → Thread A) → ℕ → Type 0
  HeldBy held threads pos = (u : ℕ) × (held (threads u) ≡ some pos)

  -- A position behind tail is held by a pop or was returned; one from tail to head is held by a push
  -- or its slot is filled.
  pub record Accounts (s : System A) : Type 0 where
    pub popped :
        (pos : ℕ) → pos < s.ring.tail → HeldBy popping s.threads pos ⊎ Present pos s.returned
    pub pushed :
        (pos : ℕ)
        → s.ring.tail ≤ pos
        → pos < s.ring.head
        → HeldBy pushing s.threads pos ⊎ (sequence_at s.ring pos ≡ pos + 1)

module _ {A : Type 0} (s : System A) (t : ℕ) (r : Ring A) (thread : Thread A)
    (effect : Effect A) where
  -- What is to be shown of a step.
  pub record Passes : Type 0 where
    pub pop_on :
        (pos : ℕ)
        → popping (s.threads t) ≡ some pos
        → (popping thread ≡ some pos) ⊎ Present pos (note_returned effect s.returned)
    pub push_on :
        (pos : ℕ)
        → pushing (s.threads t) ≡ some pos
        → (pushing thread ≡ some pos) ⊎ (sequence_at r pos ≡ pos + 1)
    pub pop_new : (pos : ℕ) → pos < r.tail → (pos < s.ring.tail) ⊎ (popping thread ≡ some pos)
    pub push_new :
        (pos : ℕ)
        → r.tail ≤ pos
        → pos < r.head
        → ((s.ring.tail ≤ pos) × (pos < s.ring.head)) ⊎ (pushing thread ≡ some pos)
    pub filled_on :
        (pos : ℕ) → r.tail ≤ pos → sequence_at s.ring pos ≡ pos + 1 → sequence_at r pos ≡ pos + 1

  own :
      (held : Thread A → Option ℕ) (pos : ℕ)
      → held thread ≡ some pos
      → HeldBy held (put_thread t thread s.threads) pos
  own held pos e = let same : (t == t) ≡ true = ground arith in (t, rw same e)

  on :
      (held : Thread A → Option ℕ) (pos : ℕ) (Done : Type 0)
      → (held (s.threads t) ≡ some pos → (held thread ≡ some pos) ⊎ Done)
      → HeldBy held s.threads pos
      → HeldBy held (put_thread t thread s.threads) pos ⊎ Done
  on held pos Done next (u, e) = elim (Bool-cases (u == t)) [
    | inl same ↦
        let here : u ≡ t = ground arith in
        elim (next (subst (λ v. held (s.threads v) ≡ some pos) here e)) [
          | inl still ↦ inl (own held pos still)
          | inr done ↦ inr done
        ]
    | inr other ↦ inl (u, rw other e)
  ]

  still_present :
      (effect : Effect A) (pos : ℕ)
      → Present pos s.returned
      → Present pos (note_returned effect s.returned)
  still_present silent pos p = p
  still_present (claims v) pos p = p
  still_present (returns q v) pos p = inr p

  pub moved-Accounts : Accounts s → Passes → Accounts (moved t r thread effect s)
  moved-Accounts a p = record {
    popped = λ pos behind. elim (p.pop_new pos behind) [
      | inr new ↦ inl (own popping pos new)
      | inl old ↦ elim (a.popped pos old) [
        | inl held ↦ on popping pos _ (p.pop_on pos) held
        | inr there ↦ inr (still_present effect pos there)
      ]
    ];
    pushed = λ pos late behind. elim (p.push_new pos late behind) [
      | inr new ↦ inl (own pushing pos new)
      | inl old ↦ elim (a.pushed pos old.0 old.1) [
        | inl held ↦ on pushing pos _ (p.push_on pos) held
        | inr filled ↦ inr (p.filled_on pos late filled)
      ]
    ];
  }
