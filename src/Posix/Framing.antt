-- ===== src/Posix/Framing.antt =====
-- send_in_chunks and recv_with_size: a message with its size in four octets in front.
use d_app_libe.Base.{
  ℕ, zero, suc, ◌+◌, ◌-◌, ◌*◌, ◌/◌, ◌%◌, ◌^◌, Bool, ◌||◌, if◌then◌else◌, ltb, ◌==◌, Option, none,
  some, List, [], ◌∷◌, ◌++◌, length, take, drop,
}
use d_app_libe.Posix.Stream.{Stream}
pub mod Octets
pub mod Sent
pub mod Received

-- CHUNK_SIZE, and MAX_PROTOCOL_DATA_SIZE * 2.
abbrev pub chunk_size : ℕ
chunk_size = 8192

abbrev pub max_payload : ℕ
max_payload = 32768 * 2

unfoldable pub min : ℕ → ℕ → ℕ
min a b = if ltb b a then b else a

-- `htonl`, as octets, and `ntohl`.
unfoldable pub network_order : ℕ → List ℕ
network_order n = n / 2 ^ 24 % 256 ∷ n / 2 ^ 16 % 256 ∷ n / 2 ^ 8 % 256 ∷ n % 256 ∷ []

unfoldable pub host_order : List ℕ → ℕ
host_order (a ∷ b ∷ c ∷ d ∷ []) = a * 2 ^ 24 + b * 2 ^ 16 + c * 2 ^ 8 + d
host_order octets = 0

-- How a sending loop ends: with the octets that it counted, by an error, or out of fuel.
pub data Sending (W : Type 0) : Type 0 where
  sent : ℕ → W → Sending W
  send_failed : W → Sending W
  unsent : W → Sending W

-- How a receiving loop ends: with octets, by a `recv` of 0 octets, by an error, or out of fuel.
pub data Receiving (W : Type 0) : Type 0 where
  received : List ℕ → W → Receiving W
  closed : W → Receiving W
  recv_failed : W → Receiving W
  unreceived : W → Receiving W

module _ {W : Type 0} (s : Stream W) where
  -- The octets of `buffer` from one position, so many of them.
  abbrev pub slice : ℕ → ℕ → List ℕ → List ℕ
  slice start count buffer = take count (drop start buffer)

  -- The inner loop, for the chunk of `bytes_to_send` octets at `total_sent`.
  unfoldable pub send_chunk : List ℕ → ℕ → ℕ → ℕ → ℕ → W → Sending W
  send_chunk buffer total_sent bytes_to_send zero chunk_sent w =
      if ltb chunk_sent bytes_to_send then Sending.unsent w else Sending.sent chunk_sent w
  send_chunk buffer total_sent bytes_to_send (suc fuel) chunk_sent w =
      let (result, w') =
        s.send (slice (total_sent + chunk_sent) (bytes_to_send - chunk_sent) buffer) w in
      let more : Sending W = elim result [
        | none ↦ Sending.send_failed w'
        | some n ↦ send_chunk buffer total_sent bytes_to_send fuel (chunk_sent + n) w'
      ] in
      if ltb chunk_sent bytes_to_send then more else Sending.sent chunk_sent w

  -- The outer loop.
  unfoldable pub send_rest : List ℕ → ℕ → ℕ → W → Sending W
  unfolding send_chunk min
  send_rest buffer zero total_sent w =
      if ltb total_sent (length buffer) then Sending.unsent w else Sending.sent total_sent w
  send_rest buffer (suc fuel) total_sent w =
      let bytes_to_send = min chunk_size (length buffer - total_sent) in
      let more : Sending W = elim (send_chunk buffer total_sent bytes_to_send bytes_to_send 0 w) [
        | sent chunk_sent w' ↦ send_rest buffer fuel (total_sent + chunk_sent) w'
        | send_failed w' ↦ Sending.send_failed w'
        | unsent w' ↦ Sending.unsent w'
      ] in
      if ltb total_sent (length buffer) then more else Sending.sent total_sent w

  unfoldable pub send_in_chunks : List ℕ → W → Sending W
  unfolding send_rest network_order
  send_in_chunks buffer w =
      let (result, w') = s.send (network_order (length buffer % 2 ^ 32)) w in
      elim result [
        | none ↦ Sending.send_failed w'
        | some n ↦ if n == 4 then send_rest buffer (length buffer) 0 w' else Sending.send_failed w'
      ]

  -- A loop until `wanted` octets are there; `request` is what it asks for when so many are missing.
  unfoldable pub recv_loop : ℕ → (ℕ → ℕ) → ℕ → List ℕ → W → Receiving W
  recv_loop wanted request zero got w =
      if ltb (length got) wanted then Receiving.unreceived w else Receiving.received got w
  recv_loop wanted request (suc fuel) got w =
      let (result, w') = s.recv (request (wanted - length got)) w in
      let more : Receiving W = elim result [
        | none ↦ Receiving.recv_failed w'
        | some [] ↦ Receiving.closed w'
        | some (b ∷ bs) ↦ recv_loop wanted request fuel (got ++ (b ∷ bs)) w'
      ] in
      if ltb (length got) wanted then more else Receiving.received got w

  unfoldable pub recv_header : W → Receiving W
  unfolding recv_loop
  recv_header w = recv_loop 4 (λ missing. missing) 4 [] w

  unfoldable pub recv_payload : ℕ → W → Receiving W
  unfolding recv_loop min
  recv_payload payload_size w =
      recv_loop payload_size (λ missing. min chunk_size missing) payload_size [] w

  unfoldable pub recv_with_size : W → Receiving W
  unfolding host_order
  recv_with_size w = elim (recv_header w) [
    | received header w' ↦
        let payload_size = host_order header in
        let rest : Receiving W = elim (recv_payload payload_size w') [
          | received payload w'' ↦ Receiving.received payload w''
          | closed w'' ↦ Receiving.recv_failed w''
          | recv_failed w'' ↦ Receiving.recv_failed w''
          | unreceived w'' ↦ Receiving.unreceived w''
        ] in
        if payload_size == 0 || ltb max_payload payload_size then Receiving.recv_failed w' else rest
    | closed w' ↦ Receiving.closed w'
    | recv_failed w' ↦ Receiving.recv_failed w'
    | unreceived w' ↦ Receiving.unreceived w'
  ]
