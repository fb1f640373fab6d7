-- ===== src/Zmq/Messages.antt =====
-- The methods that send and receive.
use d_app_libe.Base.{ℕ, Bool, true, false, if◌then◌else◌, none, some, List}
use d_app_libe.Types.{ErrorCode}
use d_app_libe.Posix.Os.{Os}
use d_app_libe.Posix.Connector.{Reading}
use d_app_libe.Zmq.Library.{Zmq}
use d_app_libe.Zmq.Connector.{ZmqE3Connector, reading_of, is_failed}
use d_app_libe.Zmq.Sockets.{reset_setup_socket}

module _ {W : Type 0} (os : Os W) (zmq : Zmq W) where
  -- The connector after a reset, if there was an error.
  unfoldable pub reset_if : Bool → ZmqE3Connector → W → ZmqE3Connector × W
  unfolding reset_setup_socket
  reset_if true c w = let (good, c', w') = reset_setup_socket os zmq c w in (c', w')
  reset_if false c w = (c, w)

  -- `buffer` is what the caller's buffer holds before.
  unfoldable pub recv_setup_request : List ℕ → ZmqE3Connector → W → Reading × ZmqE3Connector × W
  unfolding reading_of is_failed reset_if
  recv_setup_request buffer c w = elim c.setup_socket [
    | none ↦ (Reading.reading_error ErrorCode.not_connected, c, w)
    | some sock ↦
        let (received, w1) = zmq.recv sock w in
        let (c', w2) = reset_if (is_failed received) c w1 in (reading_of buffer received, c', w2)
  ]

  unfoldable pub send_response : List ℕ → ZmqE3Connector → W → ErrorCode × ZmqE3Connector × W
  unfolding reset_if
  send_response content c w = elim c.setup_socket [
    | none ↦ (ErrorCode.not_connected, c, w)
    | some sock ↦
        let (good, w1) = zmq.send sock content w in
        let (c', w2) = reset_if (if good then false else true) c w1 in
        (if good then ErrorCode.success else ErrorCode.transport_error, c', w2)
  ]

  unfoldable pub receive : List ℕ → ZmqE3Connector → W → Reading × W
  unfolding reading_of
  receive buffer c w = elim c.inbound_socket [
    | none ↦ (Reading.reading_error ErrorCode.not_connected, w)
    | some sock ↦ let (received, w1) = zmq.recv sock w in (reading_of buffer received, w1)
  ]

  unfoldable pub send : List ℕ → ZmqE3Connector → W → ErrorCode × W
  send content c w = elim c.outbound_socket [
    | none ↦ (ErrorCode.not_connected, w)
    | some sock ↦
        let (good, w1) = zmq.send sock content w in
        (if good then ErrorCode.success else ErrorCode.transport_error, w1)
  ]
