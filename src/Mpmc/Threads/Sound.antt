-- ===== src/Mpmc/Threads/Sound.antt =====
-- Each step's effect on the ring leaves the ring sound.
use d_app_libe.Base.{
  ℕ, suc, ◌+◌, ◌%◌, ◌≤◌, ◌<◌, ◌≡◌, ◌≢◌, sym, some, List, [], ◌∷◌, ◌++◌, length-append, arith,
}
use d_app_libe.Base.Arrays.{get_elem?, mod-ne}
use d_app_libe.Mpmc.Threads.Steps.{Ring, set_value, set_sequence}
use d_app_libe.Mpmc.Threads.Invariant.{sequence_at, value_at, Sound}
use d_app_libe.Mpmc.Threads.Slots.{next_slot, get_elem?-snoc}

-- The position before the next round's is in another slot.
last_slot : (pos q cap : ℕ) → 2 ≤ cap → q + 1 ≡ pos + cap → q % cap ≢ pos % cap
last_slot pos q cap two e = λ same. mod-ne pos q cap (omega arith) (omega arith) (sym same)

module _ {A : Type 0} (vs : List A) (r : Ring A) (room : ℕ) (h : Sound vs r (suc room)) where
  pub Sound-weaken : Sound vs r room
  Sound-weaken = record {
    exponent = h.exponent;
    at_least_two = h.at_least_two;
    capacity_power = h.capacity_power;
    mask_ones = h.mask_ones;
    far = let far = h.far in omega arith;
    counted = h.counted;
    ordered = h.ordered;
    bounded = h.bounded;
    small = h.small;
    free = h.free;
    ready = h.ready;
  }

  module _ (pos : ℕ) where
    pub written-Sound :
        (v : A) → sequence_at r pos ≡ pos → Sound vs (set_value (pos % r.capacity) v r) room
    written-Sound v owned = record {
      exponent = h.exponent;
      at_least_two = h.at_least_two;
      capacity_power = h.capacity_power;
      mask_ones = h.mask_ones;
      far = let far = h.far in omega arith;
      counted = h.counted;
      ordered = h.ordered;
      bounded = h.bounded;
      small = λ q. ground (arith, h.small q);
      free = λ q e. ground (arith, h.free q);
      ready = λ q late e. ground (arith, h.ready q, next_slot q r.capacity h.at_least_two);
    }

    pub published-Sound :
        (v : A)
        → pos < r.head
        → sequence_at r pos ≡ pos
        → get_elem? vs pos ≡ some v
        → value_at r pos ≡ v
        → Sound vs (set_sequence (pos % r.capacity) (pos + 1) r) room
    published-Sound v claimed owned entry written = record {
      exponent = h.exponent;
      at_least_two = h.at_least_two;
      capacity_power = h.capacity_power;
      mask_ones = h.mask_ones;
      far = let far = h.far in omega arith;
      counted = h.counted;
      ordered = h.ordered;
      bounded = h.bounded;
      small = λ q. let far = h.far in ground (arith, h.small q);
      free = λ q e. ground (arith, h.free q, next_slot pos r.capacity h.at_least_two);
      ready = λ q late e. ground (arith, h.ready q);
    }

    pub emptied-Sound :
        (v : A)
        → pos < r.tail
        → sequence_at r pos ≡ pos + 1
        → Sound vs (set_value (pos % r.capacity) v r) room
    emptied-Sound v claimed held = record {
      exponent = h.exponent;
      at_least_two = h.at_least_two;
      capacity_power = h.capacity_power;
      mask_ones = h.mask_ones;
      far = let far = h.far in omega arith;
      counted = h.counted;
      ordered = h.ordered;
      bounded = h.bounded;
      small = λ q. ground (arith, h.small q);
      free = λ q e. ground (arith, h.free q);
      ready = λ q late e. ground (arith, h.ready q);
    }

    pub recycled-Sound :
        pos < r.tail
        → sequence_at r pos ≡ pos + 1
        → Sound vs (set_sequence (pos % r.capacity) (pos + r.capacity) r) room
    recycled-Sound claimed held = record {
      exponent = h.exponent;
      at_least_two = h.at_least_two;
      capacity_power = h.capacity_power;
      mask_ones = h.mask_ones;
      far = let far = h.far in omega arith;
      counted = h.counted;
      ordered = h.ordered;
      bounded = h.bounded;
      small = λ q. let far = h.far in let o = h.ordered in ground (arith, h.small q);
      free = λ q e. ground (arith, h.free q);
      ready = λ q late e. ground (arith, h.ready q, last_slot pos q r.capacity h.at_least_two);
    }

  pub pushed-Sound :
      (v : A)
      → sequence_at r r.head ≡ r.head
      → Sound (vs ++ (v ∷ [])) (record r { head = r.head + 1 }) room
  pushed-Sound v owned = record {
    exponent = h.exponent;
    at_least_two = h.at_least_two;
    capacity_power = h.capacity_power;
    mask_ones = h.mask_ones;
    far = let far = h.far in omega arith;
    counted = let c = h.counted in omega (arith, length-append vs (v ∷ []));
    ordered = let o = h.ordered in omega arith;
    bounded = let b = h.free r.head owned in omega arith;
    small = h.small;
    free = h.free;
    ready = λ q late e.
        let (before, entry) = h.ready q late e in
        (omega arith, get_elem?-snoc vs v (value_at r q) q entry);
  }

  pub popped-Sound :
      sequence_at r r.tail ≡ r.tail + 1 → Sound vs (record r { tail = r.tail + 1 }) room
  popped-Sound held = record {
    exponent = h.exponent;
    at_least_two = h.at_least_two;
    capacity_power = h.capacity_power;
    mask_ones = h.mask_ones;
    far = let far = h.far in omega arith;
    counted = h.counted;
    ordered = let (before, entry) = h.ready r.tail (omega arith) held in omega arith;
    bounded = let b = h.bounded in omega arith;
    small = h.small;
    free = λ q e. let f = h.free q e in omega arith;
    ready = λ q late e. h.ready q (omega arith) e;
  }
