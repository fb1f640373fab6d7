-- ===== src/Zmq/Calls.antt =====
-- Sequences of calls of the connector's methods.
use d_app_libe.Base.{ℕ, List, [], ◌∷◌}
use d_app_libe.Posix.Os.{Os}
use d_app_libe.Zmq.Library.{Zmq}
use d_app_libe.Zmq.Connector.{ZmqE3Connector}
use d_app_libe.Zmq.Sockets.{
  setup_initial_connection, setup_inbound_connection, setup_outbound_connection,
}
use d_app_libe.Zmq.Messages.{recv_setup_request, send_response, receive, send}

-- The calls that E3Interface makes of a connector before it disposes of it, with the buffer or the
-- octets that it hands over.
pub data Call : Type 0 where
  sets_up_initial sets_up_inbound sets_up_outbound : Call
  receives_setup receives responds sends : List ℕ → Call

module _ {W : Type 0} (os : Os W) (zmq : Zmq W) where
  -- The connector and the world after a call.
  unfoldable pub perform : Call → ZmqE3Connector → W → ZmqE3Connector × W
  unfolding setup_initial_connection setup_inbound_connection setup_outbound_connection
      recv_setup_request send_response receive send
  perform sets_up_initial c w = let (code, c', w') = setup_initial_connection os zmq c w in (c', w')
  perform sets_up_inbound c w = let (code, c', w') = setup_inbound_connection os zmq c w in (c', w')
  perform sets_up_outbound c w =
      let (code, c', w') = setup_outbound_connection os zmq c w in (c', w')
  perform (receives_setup buffer) c w =
      let (reading, c', w') = recv_setup_request os zmq buffer c w in (c', w')
  perform (receives buffer) c w = let (reading, w') = receive os zmq buffer c w in (c, w')
  perform (responds content) c w = let (code, c', w') = send_response os zmq content c w in (c', w')
  perform (sends content) c w = let (code, w') = send os zmq content c w in (c, w')

  unfoldable pub perform_all : List Call → ZmqE3Connector → W → ZmqE3Connector × W
  unfolding perform
  perform_all [] c w = (c, w)
  perform_all (call ∷ calls) c w = let (c', w') = perform call c w in perform_all calls c' w'
