-- ===== src/Zmq/Reading.antt =====
-- What arrives in the buffer.
use d_app_libe.Base.{
  ℕ, zero, suc, ◌-◌, ◌≤◌, ◌<◌, ◌≡◌, ◌⊎◌, refl, sym, ap, subst, ◌∙◌, inl, inr, some, List, [], ◌∷◌,
  ◌++◌, length, take, append_nil, length-append, length-take, arith,
}
use native.Mathlib.Decide.{dec_lt}
use d_app_libe.Posix.Os.{Os}
use d_app_libe.Posix.Connector.{Reading, default_buffer_size}
use d_app_libe.Zmq.Library.{Zmq, Received}
use d_app_libe.Zmq.Connector.{ZmqE3Connector, resize, copied, received_buffer, reading_of}
use d_app_libe.Zmq.Messages.{receive, recv_setup_request}

-- `n` zeros.
abbrev pub zeros : ℕ → List ℕ
zeros zero = []
zeros (suc n) = 0 ∷ zeros n

length-zeros : (n : ℕ) → length (zeros n) ≡ n
length-zeros zero = refl
length-zeros (suc n) = ap suc (length-zeros n)

resize-nil : (n : ℕ) → resize n [] ≡ zeros n
unfolding resize
resize-nil zero = refl
resize-nil (suc n) = ap (λ xs. 0 ∷ xs) (resize-nil n)

-- Nothing is left of what a buffer of `room` octets held before.
resize-copied :
    (room : ℕ) (octets old : List ℕ)
    → resize (length octets) (copied octets (resize room old))
      ≡ take room octets ++ zeros (length octets - room)
unfolding resize copied
resize-copied zero [] old = refl
resize-copied (suc room) [] old =
    let none_left : 0 ≡ 0 - suc room = omega arith in ap zeros none_left
resize-copied zero (o ∷ octets) old =
    let none_taken : suc (length octets) ≡ suc (length octets) - 0 = omega arith in
    resize-nil (suc (length octets)) ∙ ap zeros none_taken
resize-copied (suc room) (o ∷ octets) [] =
    let same : length octets - room ≡ suc (length octets) - suc room = omega arith in
    ap (λ xs. o ∷ xs) (resize-copied room octets [])
    ∙ ap (λ n. o ∷ take room octets ++ zeros n) same
resize-copied (suc room) (o ∷ octets) (b ∷ old) =
    let same : length octets - room ≡ suc (length octets) - suc room = omega arith in
    ap (λ xs. o ∷ xs) (resize-copied room octets old)
    ∙ ap (λ n. o ∷ take room octets ++ zeros n) same

take_all {ℓ} : {A : Type ℓ} (n : ℕ) (xs : List A) → length xs ≤ n → take n xs ≡ xs
take_all zero [] h = refl
take_all zero (x ∷ xs) h = absurd (omega arith)
take_all (suc n) [] h = refl
take_all (suc n) (x ∷ xs) h = ap (λ ys. x ∷ ys) (take_all n xs (omega arith))

-- A message that fits is whole; of a longer one, the rest is zeros.
abbrev pub Buffered : List ℕ → List ℕ → Type 0
Buffered octets buffer =
    ((length octets ≤ default_buffer_size) × (buffer ≡ octets))
    ⊎ ((default_buffer_size < length octets)
        × (length buffer ≡ length octets)
        × (buffer ≡ take default_buffer_size octets ++ zeros (length octets - default_buffer_size)))

-- The two cases, for any room.
cut_or_whole :
    (room : ℕ) (octets : List ℕ)
    → let buffer = take room octets ++ zeros (length octets - room) in
      ((length octets ≤ room) × (buffer ≡ octets))
      ⊎ ((room < length octets)
          × (length buffer ≡ length octets)
          × (buffer ≡ take room octets ++ zeros (length octets - room)))
cut_or_whole room octets = elim (dec_lt room (length octets)) [
  | yes long ↦ inr (
    long,
    length-append (take room octets) (zeros (length octets - room))
        ∙ omega (arith, length-zeros (length octets - room), length-take room octets),
    refl,
  )
  | no short ↦
      let none_left : length octets - room ≡ 0 = omega arith in
      inl (
        omega arith,
        ap (λ n. take room octets ++ zeros n) none_left
            ∙ append_nil (take room octets)
            ∙ take_all room octets (omega arith),
      )
]

received_buffer-Buffered : (octets old : List ℕ) → Buffered octets (received_buffer octets old)
unfolding received_buffer
received_buffer-Buffered octets old =
    subst (Buffered octets) (sym (resize-copied default_buffer_size octets old))
      (cut_or_whole default_buffer_size octets)

module _ {W : Type 0} (os : Os W) (zmq : Zmq W) where
  -- On a connector with an inbound and a setup socket, on each of which a message that is not empty
  -- waits, and whatever the callers' buffers hold before: receive and recv_setup_request each give
  -- a buffer as long as their message, which is the message itself if it has at most 60000 octets,
  -- and else its first 60000 octets with zeros behind them, without an error.
  pub receive-message :
      (c : ZmqE3Connector) (w : W) (inbound setup octet first : ℕ) (octets rest old old' : List ℕ)
      → c.inbound_socket ≡ some inbound
      → c.setup_socket ≡ some setup
      → (zmq.recv inbound w).0 ≡ Received.message (octet ∷ octets)
      → (zmq.recv setup w).0 ≡ Received.message (first ∷ rest)
      → ((buffer : List ℕ) × ((receive os zmq old c w).0 ≡ Reading.got buffer)
          × Buffered (octet ∷ octets) buffer)
        × ((buffer : List ℕ) × ((recv_setup_request os zmq old' c w).0 ≡ Reading.got buffer)
            × Buffered (first ∷ rest) buffer)
  unfolding receive recv_setup_request reading_of
  receive-message c w inbound setup octet first octets rest old old' there there' came came' = (
    (
      received_buffer (octet ∷ octets) old,
      rw (receive, there, came),
      received_buffer-Buffered (octet ∷ octets) old,
    ),
    (
      received_buffer (first ∷ rest) old',
      rw (recv_setup_request, there', came'),
      received_buffer-Buffered (first ∷ rest) old',
    ),
  )
