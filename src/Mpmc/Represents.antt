-- ===== src/Mpmc/Represents.antt =====
-- The queue that a quiet ring stands for: the values between tail and head, oldest first.
use d_app_libe.Base.{
  ℕ, zero, suc, ◌+◌, ◌-◌, ◌%◌, ◌^◌, ◌≤◌, ◌<◌, ◌≡◌, sym, ◌∙◌, some, List, [], ◌∷◌, ◌++◌, length,
  arith,
}
use d_app_libe.Base.Arrays.{get_elem?, set, get_elem?-set_ne, mod-ne}
use d_app_libe.Mpmc.Defs.{MpmcQueue, Slot}

module _ {ℓ} {A : Type ℓ} where
  -- The slots of the positions from `p` on hold these values for consumers.
  abbrev pub Filled : List (Slot A) → ℕ → ℕ → List A → Type ℓ
  Filled buf cap p [] = Unit
  Filled buf cap p (x ∷ xs) =
      (get_elem? buf (p % cap) ≡ some (record { sequence = p + 1; value = x }))
      × Filled buf cap (p + 1) xs

  -- The slots of the `n` positions from `p` on are free for producers.
  abbrev pub Free : List (Slot A) → ℕ → ℕ → ℕ → Type ℓ
  Free buf cap p zero = Unit
  Free buf cap p (suc n) =
      ((v : A) × (get_elem? buf (p % cap) ≡ some (record { sequence = p; value = v })))
      × Free buf cap (p + 1) n

  -- `room` is the number of pushes after which a position would reach 2^63, where the code's signed
  -- comparison would overflow.
  pub record Represents (q : MpmcQueue A) (xs : List A) (room : ℕ) : Type ℓ where
    pub exponent : ℕ
    pub at_least_two : 2 ≤ q.capacity
    pub capacity_power : q.capacity ≡ 2 ^ exponent
    pub mask_ones : q.mask ≡ 2 ^ exponent - 1
    pub slots : length q.buffer ≡ q.capacity
    pub counted : q.head ≡ q.tail + length xs
    pub bounded : length xs ≤ q.capacity
    pub far : q.head + q.capacity + room < 2 ^ 63
    pub filled : Filled q.buffer q.capacity q.tail xs
    pub free : Free q.buffer q.capacity q.head (q.capacity - length xs)

  pub Filled-set :
      (buf : List (Slot A)) (cap p h : ℕ) (s : Slot A) (xs : List A)
      → p + length xs ≤ h
      → h < p + cap
      → Filled buf cap p xs
      → Filled (set buf (h % cap) s) cap p xs
  Filled-set buf cap p h s [] lo hi f = tt
  Filled-set buf cap p h s (x ∷ xs) lo hi f = (
    get_elem?-set_ne buf (h % cap) (p % cap) s
          (λ e. mod-ne p h cap (omega arith) (omega arith) (sym e))
        ∙ f.0,
    Filled-set buf cap (p + 1) h s xs (omega arith) (omega arith) f.1,
  )

  -- The positions from `p` on lie behind `t` by less than a round.
  pub Free-set :
      (buf : List (Slot A)) (cap p t : ℕ) (s : Slot A) (n : ℕ)
      → t < p
      → p + n ≤ t + cap
      → Free buf cap p n
      → Free (set buf (t % cap) s) cap p n
  Free-set buf cap p t s zero lo hi f = tt
  Free-set buf cap p t s (suc n) lo hi f = (
    (
      f.0.0,
      get_elem?-set_ne buf (t % cap) (p % cap) s (mod-ne t p cap (omega arith) (omega arith))
          ∙ f.0.1,
    ),
    Free-set buf cap (p + 1) t s n (omega arith) (omega arith) f.1,
  )

  -- Likewise for filled slots behind `t`.
  pub Filled-set_behind :
      (buf : List (Slot A)) (cap p t : ℕ) (s : Slot A) (xs : List A)
      → t < p
      → p + length xs ≤ t + cap
      → Filled buf cap p xs
      → Filled (set buf (t % cap) s) cap p xs
  Filled-set_behind buf cap p t s [] lo hi f = tt
  Filled-set_behind buf cap p t s (x ∷ xs) lo hi f = (
    get_elem?-set_ne buf (t % cap) (p % cap) s (mod-ne t p cap (omega arith) (omega arith)) ∙ f.0,
    Filled-set_behind buf cap (p + 1) t s xs (omega arith) (omega arith) f.1,
  )

  pub Filled-snoc :
      (buf : List (Slot A)) (cap p h : ℕ) (x : A) (xs : List A)
      → h ≡ p + length xs
      → get_elem? buf (h % cap) ≡ some (record { sequence = h + 1; value = x })
      → Filled buf cap p xs
      → Filled buf cap p (xs ++ (x ∷ []))
  Filled-snoc buf cap p h x [] e g f = let same : h ≡ p = omega arith in (rw same at g, tt)
  Filled-snoc buf cap p h x (y ∷ xs) e g f =
      (f.0, Filled-snoc buf cap (p + 1) h x xs (omega arith) g f.1)

  pub Free-snoc :
      (buf : List (Slot A)) (cap p t n : ℕ) (v : A)
      → t ≡ p + n
      → get_elem? buf (t % cap) ≡ some (record { sequence = t; value = v })
      → Free buf cap p n
      → Free buf cap p (suc n)
  Free-snoc buf cap p t zero v e g f = let same : t ≡ p = omega arith in ((v, rw same at g), tt)
  Free-snoc buf cap p t (suc n) v e g f = (f.0, Free-snoc buf cap (p + 1) t n v (omega arith) g f.1)
