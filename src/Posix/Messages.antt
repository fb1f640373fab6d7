-- ===== src/Posix/Messages.antt =====
-- The methods of PosixE3Connector that send and receive.
use d_app_libe.Base.{ℕ, Bool, if◌then◌else◌, Option, none, some, List}
use d_app_libe.Types.{ErrorCode}
use d_app_libe.Posix.Os.{Os, Polled, Accepted, Arrived}
use d_app_libe.Posix.Connector.{PosixE3Connector, Reading, default_buffer_size}
use d_app_libe.Posix.Sockets.{requested}

module _ {W : Type 0} (os : Os W) where
  unfoldable pub recv_setup_request : PosixE3Connector → W → Reading × PosixE3Connector × W
  recv_setup_request c w = elim c.setup_socket [
    | none ↦ (Reading.reading_error ErrorCode.not_connected, c, w)
    | some listener ↦
        let (polled, w1) = os.poll listener w in
        elim polled [
          | Polled.timed_out ↦ (Reading.nothing, c, w1)
          | Polled.interrupted ↦ (Reading.nothing, c, w1)
          | Polled.poll_failed ↦ (Reading.reading_error ErrorCode.transport_error, c, w1)
          | Polled.ready ↦
              let (accepted, w2) = os.accept listener w1 in
              elim accepted [
                | Accepted.retry ↦
                    (Reading.nothing, record c { setup_connection_socket = none }, w2)
                | Accepted.refused ↦ (
                  if requested os c w2
                      then Reading.nothing
                      else Reading.reading_error ErrorCode.transport_error,
                  record c { setup_connection_socket = none },
                  w2,
                )
                | Accepted.connection sock ↦
                    let c' = record c { setup_connection_socket = some sock } in
                    let (arrived, w3) = os.recv sock default_buffer_size w2 in
                    elim arrived [
                      | Arrived.octets bs ↦ (Reading.got bs, c', w3)
                      | _ ↦ (Reading.reading_error ErrorCode.transport_error, c', w3)
                    ]
              ]
        ]
  ]

  unfoldable pub receive : PosixE3Connector → W → Reading × W
  receive c w = elim c.inbound_connection_socket [
    | none ↦ (Reading.reading_error ErrorCode.not_connected, w)
    | some sock ↦
        let (polled, w1) = os.poll sock w in
        elim polled [
          | Polled.timed_out ↦ (Reading.nothing, w1)
          | Polled.interrupted ↦ (Reading.nothing, w1)
          | Polled.poll_failed ↦ (Reading.reading_error ErrorCode.transport_error, w1)
          | Polled.ready ↦
              let (arrived, w2) = os.recv sock default_buffer_size w1 in
              elim arrived [
                | Arrived.octets bs ↦ (Reading.got bs, w2)
                | Arrived.later ↦ (Reading.nothing, w2)
                | Arrived.broken ↦ (Reading.reading_error ErrorCode.transport_error, w2)
              ]
        ]
  ]

  -- send and send_response, on the socket that each has; `chunks` is send_in_chunks on a
  -- descriptor, false for -1.
  unfoldable pub send_on : (ℕ → List ℕ → W → Bool × W) → Option ℕ → List ℕ → W → ErrorCode × W
  send_on chunks none content w = (ErrorCode.not_connected, w)
  send_on chunks (some fd) content w =
      let (good, w') = chunks fd content w in
      (if good then ErrorCode.success else ErrorCode.transport_error, w')

  unfoldable pub send : (ℕ → List ℕ → W → Bool × W) → PosixE3Connector → List ℕ → W → ErrorCode × W
  unfolding send_on
  send chunks c content w = send_on chunks c.outbound_connection_socket content w

  unfoldable pub send_response :
      (ℕ → List ℕ → W → Bool × W) → PosixE3Connector → List ℕ → W → ErrorCode × W
  unfolding send_on
  send_response chunks c content w = send_on chunks c.setup_connection_socket content w
