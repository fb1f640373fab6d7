-- ===== src/Posix/Framing/Received.antt =====
-- A message that was sent with its size in front is received whole.
use d_app_libe.Base.{
  ℕ, zero, suc, ◌+◌, ◌-◌, ◌%◌, ◌^◌, ◌≤◌, ◌<◌, ◌≡◌, sym, ap, subst, ◌∙◌, inl, inr, false, ltb,
  lt→ltb, le→ltb_false, ◌==◌, ◌||◌, List, [], ◌∷◌, ◌++◌, length, length-append, append_assoc,
  append_nil, append-split, arith,
}
use d_app_libe.Posix.Stream.{Stream, StreamLaws}
use d_app_libe.Posix.Framing.{
  Receiving, Sending, chunk_size, max_payload, min, network_order, host_order, recv_loop,
  recv_header, recv_payload, recv_with_size, send_in_chunks,
}
use d_app_libe.Posix.Framing.Octets.{host_order-network_order, length-network_order}
use d_app_libe.Posix.Framing.Sent.{send_in_chunks-Takes, min-bounds}

module _ {W : Type 0} (s : Stream W) (laws : StreamLaws s) where
  -- A loop that received some octets and left others.
  abbrev pub Receives : Receiving W → List ℕ → List ℕ → Type 0
  Receives r octets rest = (w' : W) × (r ≡ Receiving.received octets w') × (laws.incoming w' ≡ rest)

  module _ (wanted : ℕ) (request : ℕ → ℕ)
      (asks : (n : ℕ) → 0 < n → (0 < request n) × (request n ≤ n)) where
    -- Nothing is missing.
    complete :
        (fuel : ℕ) (got rest : List ℕ) (w : W)
        → length got ≡ wanted
        → laws.incoming w ≡ rest
        → Receives (recv_loop s wanted request fuel got w) (got ++ []) rest
    unfolding recv_loop
    complete zero got rest w n e =
        rw (recv_loop, le→ltb_false (length got) wanted (omega arith))
          (w, ap (λ o. Receiving.received o w) (sym (append_nil got)), e)
    complete (suc fuel) got rest w n e =
        rw (recv_loop, le→ltb_false (length got) wanted (omega arith))
          (w, ap (λ o. Receiving.received o w) (sym (append_nil got)), e)

    recv_loop-Receives :
        (fuel : ℕ) (got more rest : List ℕ) (w : W)
        → laws.incoming w ≡ more ++ rest
        → length got + length more ≡ wanted
        → length more ≤ fuel
        → Receives (recv_loop s wanted request fuel got w) (got ++ more) rest
    unfolding recv_loop
    recv_loop-Receives fuel got [] rest w e n enough = complete fuel got rest w (omega arith) e
    recv_loop-Receives zero got (b ∷ bs) rest w e n enough = absurd (omega arith)
    recv_loop-Receives (suc fuel) got (b ∷ bs) rest w e n enough =
        let missing : wanted - length got ≡ length (b ∷ bs) = omega arith in
        let bounds = asks (wanted - length got) (omega arith) in
        let here : 0 < length (laws.incoming w) = rw e (omega arith) in
        let (c, cs, gave, few, split) =
          laws.recv_part (request (wanted - length got)) w bounds.0 here in
        let (us, whole, left) =
          append-split (c ∷ cs) _ (b ∷ bs) rest (sym split ∙ e) (omega (arith, bounds.1)) in
        let total : length (b ∷ bs) ≡ length (c ∷ cs) + length us =
          ap length whole ∙ length-append (c ∷ cs) us in
        let longer : length (got ++ (c ∷ cs)) ≡ length got + length (c ∷ cs) =
          length-append got (c ∷ cs) in
        let all : (got ++ (c ∷ cs)) ++ us ≡ got ++ (b ∷ bs) =
          append_assoc got (c ∷ cs) us ∙ ap (λ o. got ++ o) (sym whole) in
        let w' = (s.recv (request (wanted - length got)) w).1 in
        let later = recv_loop s wanted request fuel (got ++ (c ∷ cs)) w' in
        rw (recv_loop, lt→ltb (length got) wanted (omega arith), gave)
          (subst (λ o. Receives later o rest) all
            (recv_loop-Receives fuel (got ++ (c ∷ cs)) us rest w' left (omega arith) (omega arith)))

  recv_header-Receives :
      (header rest : List ℕ) (w : W)
      → laws.incoming w ≡ header ++ rest
      → length header ≡ 4
      → Receives (recv_header s w) header rest
  unfolding recv_header
  recv_header-Receives header rest w e n =
      recv_loop-Receives 4 (λ missing. missing) (λ n h. (h, omega arith)) 4 [] header rest w e
        (omega arith) (omega arith)

  recv_payload-Receives :
      (size : ℕ) (payload rest : List ℕ) (w : W)
      → laws.incoming w ≡ payload ++ rest
      → size ≡ length payload
      → Receives (recv_payload s size w) payload rest
  unfolding recv_payload
  recv_payload-Receives size payload rest w e n =
      recv_loop-Receives size (λ missing. min chunk_size missing) min-bounds size [] payload rest w
        e (omega arith) (omega arith)

  accepts : (size : ℕ) → 0 < size → size ≤ max_payload → (size == 0 || ltb max_payload size) ≡ false
  accepts size a b = ground arith

  pub recv_with_size-Receives :
      (payload rest : List ℕ) (w : W)
      → laws.incoming w ≡ (network_order (length payload % 2 ^ 32) ++ payload) ++ rest
      → 0 < length payload
      → length payload ≤ max_payload
      → Receives (recv_with_size s w) payload rest
  unfolding recv_with_size
  recv_with_size-Receives payload rest w e some_payload fits =
      let header = network_order (length payload % 2 ^ 32) in
      let size : host_order header ≡ length payload =
        host_order-network_order (length payload % 2 ^ 32) (omega arith) ∙ omega arith in
      let (w', got_header, left) =
        recv_header-Receives header (payload ++ rest) w (e ∙ append_assoc header payload rest)
          (length-network_order _) in
      let (w'', got_payload, left') =
        recv_payload-Receives (host_order header) payload rest w' left size in
      let good = accepts (host_order header) (omega (arith, size)) (omega (arith, size)) in
      (w'', rw (recv_with_size, got_header, got_payload, good), left')

-- The state that a sending loop leaves.
abbrev after : {W : Type 0} → Sending W → W
after (Sending.sent k w) = w
after (Sending.send_failed w) = w
after (Sending.unsent w) = w

-- If send_in_chunks ended without an error on a socket that had taken nothing before, and what this
-- socket took is what another socket holds first, and the message has between 1 and 65536 octets,
-- then recv_with_size on the other socket ends with exactly the message, and leaves what follows
-- it.
pub recv_with_size-send_in_chunks :
    {W V : Type 0} (s : Stream W) (t : Stream V) (s_laws : StreamLaws s) (t_laws : StreamLaws t)
    (payload rest : List ℕ) (k : ℕ) (w w' : W) (v : V)
    → send_in_chunks s payload w ≡ Sending.sent k w'
    → s_laws.outgoing w ≡ []
    → t_laws.incoming v ≡ s_laws.outgoing w' ++ rest
    → 0 < length payload
    → length payload ≤ max_payload
    → Receives t t_laws (recv_with_size t v) payload rest
recv_with_size-send_in_chunks s t s_laws t_laws payload rest k w w' v done fresh arrives pos fits =
    elim (send_in_chunks-Takes s s_laws payload w) [
      | inl (w'', failed) ↦
          let clash : Sending.send_failed w'' ≡ Sending.sent k w' = sym failed ∙ done in cc
      | inr (w'', sent, out) ↦
          let same : w'' ≡ w' = ap after (sym sent ∙ done) in
          let octets = network_order (length payload % 2 ^ 32) ++ payload in
          let all : s_laws.outgoing w' ≡ octets =
            ap s_laws.outgoing (sym same) ∙ out ∙ ap (λ o. o ++ octets) fresh in
          recv_with_size-Receives t t_laws payload rest v (arrives ∙ ap (λ o. o ++ rest) all) pos
            fits
    ]
