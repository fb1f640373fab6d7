-- ===== src/Posix/Framing/Sent.antt =====
-- However the system splits a message, all of it is sent.
use d_app_libe.Base.{
  ℕ, zero, suc, ◌+◌, ◌-◌, ◌%◌, ◌^◌, ◌≤◌, ◌<◌, ◌≡◌, refl, sym, ap, subst, ◌∙◌, ◌⊎◌, inl, inr, ltb,
  ltb→lt, le→ltb_false, ◌==◌, Bool-cases, List, [], ◌++◌, length, take, drop, length-take,
  length-drop, drop-length, drop-drop, take-append-drop, take-split, append_assoc, append_nil,
  arith,
}
use d_app_libe.Posix.Stream.{Stream, StreamLaws}
use d_app_libe.Posix.Framing.{
  Sending, chunk_size, min, slice, network_order, send_chunk, send_rest, send_in_chunks,
}

pub min-bounds : (n : ℕ) → 0 < n → (0 < min chunk_size n) × (min chunk_size n ≤ n)
unfolding min
min-bounds n h = ground arith

module _ {W : Type 0} (s : Stream W) (laws : StreamLaws s) where
  -- A loop that failed, or that took all of some octets and counted to a number.
  abbrev pub Takes : Sending W → ℕ → W → List ℕ → Type 0
  Takes r k w octets =
      ((w' : W) × (r ≡ Sending.send_failed w'))
      ⊎ ((w' : W) × (r ≡ Sending.sent k w') × (laws.outgoing w' ≡ laws.outgoing w ++ octets))

  nothing : (k : ℕ) (w : W) → Takes (Sending.sent k w) k w []
  nothing k w = inr (w, refl, sym (append_nil (laws.outgoing w)))

  -- One call before the others.
  after_send :
      (r : Sending W) (k : ℕ) (w w' : W) (first rest : List ℕ)
      → laws.outgoing w' ≡ laws.outgoing w ++ first
      → Takes r k w' rest
      → Takes r k w (first ++ rest)
  after_send r k w w' first rest e (inl failed) = inl failed
  after_send r k w w' first rest e (inr (w'', done, out)) =
      inr (w'', done, out ∙ ap (λ o. o ++ rest) e ∙ append_assoc (laws.outgoing w) first rest)

  module _ (buffer : List ℕ) where
    length-slice :
        (start count : ℕ)
        → start + count ≤ length buffer
        → length (slice s start count buffer) ≡ count
    length-slice start count h =
        length-take count (drop start buffer) (omega (arith, length-drop start buffer))

    slice-split :
        (total k count n : ℕ)
        → n ≤ count - k
        → take n (slice s (total + k) (count - k) buffer)
            ++ slice s (total + (k + n)) (count - (k + n)) buffer
          ≡ slice s (total + k) (count - k) buffer
    slice-split total k count n h =
        let later : total + (k + n) ≡ (total + k) + n = omega arith in
        let fewer : count - (k + n) ≡ (count - k) - n = omega arith in
        rw (later, fewer, sym (drop-drop (total + k) n buffer))
          (take-split n (count - k) (drop (total + k) buffer) h)

    send_chunk-Takes :
        (total count fuel k : ℕ) (w : W)
        → total + count ≤ length buffer
        → k ≤ count
        → count - k ≤ fuel
        → Takes
            (send_chunk s buffer total count fuel k w)
            count
            w
            (slice s (total + k) (count - k) buffer)
    unfolding send_chunk
    send_chunk-Takes total count zero k w fits le enough =
        let same : k ≡ count = omega arith in
        let none_left : count - k ≡ 0 = omega arith in
        rw (send_chunk, le→ltb_false k count (omega arith), none_left)
          (subst (λ n. Takes (Sending.sent k w) n w []) same (nothing k w))
    send_chunk-Takes total count (suc fuel) k w fits le enough = elim (Bool-cases (ltb k count)) [
      | inl more ↦
          let lt = ltb→lt k count more in
          let whole = length-slice (total + k) (count - k) (omega arith) in
          rw (send_chunk, more)
            (elim (laws.send_part (slice s (total + k) (count - k) buffer) w
              (omega (arith, whole))) [
                | inl failed ↦ rw failed (inl (_, refl))
                | inr (n, took, some_taken, bound, out) ↦ rw took (
                    subst (Takes _ count w) (slice-split total k count n (omega (arith, whole))) (
                      after_send _ count w _ _ _ out (
                        send_chunk-Takes total count fuel (k + n) _ fits (omega (arith, whole))
                          (omega arith))))
              ])
      | inr all ↦
          let same : k ≡ count = ground arith in
          let none_left : count - k ≡ 0 = omega arith in
          rw (send_chunk, all, none_left)
            (subst (λ n. Takes (Sending.sent k w) n w []) same (nothing k w))
    ]

    finished :
        (total : ℕ) (w : W)
        → total ≡ length buffer
        → Takes (Sending.sent total w) (length buffer) w (drop total buffer)
    finished total w same = rw (same, drop-length buffer) (nothing (length buffer) w)

    chunk-split :
        (total count : ℕ)
        → slice s (total + 0) (count - 0) buffer ++ drop (total + count) buffer ≡ drop total buffer
    chunk-split total count =
        let start : total + 0 ≡ total = omega arith in
        let some_of : count - 0 ≡ count = omega arith in
        rw (start, some_of, sym (drop-drop total count buffer))
          (take-append-drop count (drop total buffer))

    send_rest-Takes :
        (fuel total : ℕ) (w : W)
        → total ≤ length buffer
        → length buffer - total ≤ fuel
        → Takes (send_rest s buffer fuel total w) (length buffer) w (drop total buffer)
    unfolding send_rest min
    send_rest-Takes zero total w le enough =
        let same : total ≡ length buffer = omega arith in
        rw (send_rest, le→ltb_false total (length buffer) (omega arith)) (finished total w same)
    send_rest-Takes (suc fuel) total w le enough = elim (Bool-cases (ltb total (length buffer))) [
      | inl more ↦
          let lt = ltb→lt total (length buffer) more in
          let count = min chunk_size (length buffer - total) in
          let bounds = min-bounds (length buffer - total) (omega arith) in
          rw (send_rest, more)
            (elim (send_chunk-Takes total count count 0 w (omega (arith, bounds.1)) (omega arith)
              (omega arith)) [
                | inl (w', failed) ↦ rw failed (inl (w', refl))
                | inr (w', done, out) ↦ rw done (
                    subst (Takes _ (length buffer) w) (chunk-split total count) (
                      after_send _ (length buffer) w w' _ _ out (
                        send_rest-Takes fuel (total + count) w' (omega (arith, bounds.1))
                          (omega (arith, bounds.0)))))
              ])
      | inr all ↦
          let same : total ≡ length buffer = ground arith in
          rw (send_rest, all) (finished total w same)
    ]

  -- For a socket whose calls of send fail or take some of the octets, at least one, send_in_chunks
  -- ends: by an error, or after the socket took the size in network order and then all octets of
  -- the buffer, in order, however the calls split them.
  pub send_in_chunks-Takes :
      (buffer : List ℕ) (w : W)
      → Takes
          (send_in_chunks s buffer w)
          (length buffer)
          w
          (network_order (length buffer % 2 ^ 32) ++ buffer)
  unfolding send_in_chunks network_order
  send_in_chunks-Takes buffer w =
      let header = network_order (length buffer % 2 ^ 32) in
      elim (laws.send_part header w (omega arith)) [
        | inl failed ↦ rw (send_in_chunks, failed) (inl (_, refl))
        | inr (n, took, some_taken, bound, out) ↦ elim (Bool-cases (n == 4)) [
          | inl whole ↦
              let four : n ≡ 4 = ground arith in
              let all : laws.outgoing (s.send header w).1 ≡ laws.outgoing w ++ header =
                rw four at out in
              rw (send_in_chunks, took, whole)
                (after_send _ (length buffer) w _ header buffer all
                  (send_rest-Takes buffer (length buffer) 0 _ (omega arith) (omega arith)))
          | inr short ↦ rw (send_in_chunks, took, short) (inl (_, refl))
        ]
      ]
