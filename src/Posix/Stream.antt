-- ===== src/Posix/Stream.antt =====
-- What the connector uses of a connected socket: `send` and `recv` of the operating system, which
-- give `none` for -1.
use d_app_libe.Base.{ℕ, ◌≤◌, ◌<◌, ◌≡◌, ◌⊎◌, Option, none, some, List, ◌∷◌, ◌++◌, length, take}

pub record Stream (W : Type 0) : Type 0 where
  pub send : List ℕ → W → Option ℕ × W
  pub recv : ℕ → W → Option (List ℕ) × W

-- The octets that a stream took, and those that it still holds for the reader.
pub record StreamLaws {W : Type 0} (s : Stream W) : Type 0 where
  pub outgoing : W → List ℕ
  pub incoming : W → List ℕ
  -- A call of `send` fails, or takes some of the octets, at least one.
  pub send_part :
      (octets : List ℕ) (w : W)
      → 0 < length octets
      → ((s.send octets w).0 ≡ none)
        ⊎ ((n : ℕ) × ((s.send octets w).0 ≡ some n)
            × (0 < n)
            × (n ≤ length octets)
            × (outgoing (s.send octets w).1 ≡ outgoing w ++ take n octets))
  -- While there are octets, `recv` gives the first of them, at least one and no more than asked.
  pub recv_part :
      (n : ℕ) (w : W)
      → 0 < n
      → 0 < length (incoming w)
      → (b : ℕ) × (bs : List ℕ) × ((s.recv n w).0 ≡ some (b ∷ bs))
        × (length (b ∷ bs) ≤ n)
        × (incoming w ≡ (b ∷ bs) ++ incoming (s.recv n w).1)
