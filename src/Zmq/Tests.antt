-- ===== src/Zmq/Tests.antt =====
-- A library with two sockets, the numbers 3 and 4, and the theorems there.
use d_app_libe.Base.{
  ℕ, Bool, true, false, ◌&&◌, ◌||◌, not, ◌==◌, ◌≡◌, refl, sym, Option, none, some, List, [], ◌∷◌,
  arith,
}
use d_app_libe.Types.{TransportLayer}
use d_app_libe.Posix.Os.{Os, MadeDir, Polled, Accepted, Arrived}
use d_app_libe.Posix.Connector.{Reading}
use d_app_libe.Zmq.Library.{Zmq, ZmqLaws, Received}
use d_app_libe.Zmq.Endpoints.{tcp_endpoint, ipc_path}
use d_app_libe.Zmq.Connector.{ZmqE3Connector, construct}
use d_app_libe.Zmq.Sockets.{
  setup_outbound_connection, dispose, make_directory, open_setup, open_socket, reset_setup_socket,
}
use d_app_libe.Zmq.Messages.{receive, recv_setup_request}
use d_app_libe.Zmq.Calls.{
  Call, sets_up_initial, sets_up_inbound, receives_setup, receives, responds, perform, perform_all,
}
use d_app_libe.Zmq.Leaks.{dispose-perform_all, setup_outbound_connection-loses}
use d_app_libe.Zmq.Reading.{Buffered, receive-message}

-- Which of the two is open.
abbrev Two : Type 0
Two = Bool × Bool

abbrev files : Os Two
files = record {
  stat = λ s w. (false, w);
  mkdir = λ s w. (MadeDir.made, w);
  chmod = λ s w. w;
  unlink = λ s w. w;
  rmdir = λ s w. w;
  socket = λ f w. (none, w);
  bind = λ fd a w. (true, w);
  listen = λ fd w. (true, w);
  poll = λ fd w. (Polled.ready, w);
  accept = λ fd w. (Accepted.refused, w);
  recv = λ fd n w. (Arrived.later, w);
  close = λ fd w. w;
  shutdown_socket = λ fd w. w;
  asked = λ w. false;
}

abbrev new_socket : Two → Option ℕ × Two
new_socket (false, b) = (some 3, (true, b))
new_socket (true, false) = (some 4, (true, true))
new_socket (true, true) = (none, (true, true))

abbrev two_sockets : Zmq Two
two_sockets = record {
  ctx_new = λ w. (some 1, w);
  ctx_set_io_threads = λ x n w. (true, w);
  ctx_destroy = λ x w. w;
  socket = λ x t w. new_socket w;
  setsockopt = λ s o w. w;
  bind = λ s e w. (true, w);
  recv = λ s w. (Received.message (5 ∷ 6 ∷ []), w);
  send = λ s octets w. (false, w);
  close = λ s w. (w.0 && not (s == 3), w.1 && not (s == 4));
  chown_to_dapp = λ s w. w;
}

abbrev open_of : Two → ℕ → Bool
open_of w q = (w.0 && q == 3) || (w.1 && q == 4)

makes_none : (w : Two) (q : ℕ) → (new_socket w).0 ≡ none → open_of (new_socket w).1 q ≡ open_of w q
makes_none (false, b) q e = cc
makes_none (true, false) q e = cc
makes_none (true, true) q e = refl

makes_one :
    (w : Two) (q s : ℕ)
    → (new_socket w).0 ≡ some s
    → open_of (new_socket w).1 q ≡ (q == s || open_of w q)
makes_one (false, b) q s e = let same : 3 ≡ s = cc in rw (sym same) (ground arith)
makes_one (true, false) q s e = let same : 4 ≡ s = cc in rw (sym same) (ground arith)
makes_one (true, true) q s e = cc

makes_fresh : (w : Two) (s : ℕ) → (new_socket w).0 ≡ some s → open_of w s ≡ false
makes_fresh (false, b) s e = let same : 3 ≡ s = cc in rw (sym same) (ground arith)
makes_fresh (true, false) s e = let same : 4 ≡ s = cc in rw (sym same) refl
makes_fresh (true, true) s e = cc

closes_one :
    (s : ℕ) (w : Two) (q : ℕ) → open_of (two_sockets.close s w) q ≡ (open_of w q && not (q == s))
closes_one s w q = ground arith

two_sockets-ZmqLaws : ZmqLaws files two_sockets
two_sockets-ZmqLaws = record {
  is_open = open_of;
  stat_keeps = λ s w q. refl;
  mkdir_keeps = λ s w q. refl;
  chmod_keeps = λ s w q. refl;
  unlink_keeps = λ s w q. refl;
  rmdir_keeps = λ s w q. refl;
  chown_keeps = λ s w q. refl;
  ctx_new_keeps = λ w q. refl;
  ctx_set_keeps = λ x n w q. refl;
  ctx_destroy_keeps = λ x w q. refl;
  setsockopt_keeps = λ s o w q. refl;
  bind_keeps = λ s e w q. refl;
  recv_keeps = λ s w q. refl;
  send_keeps = λ s octets w q. refl;
  socket_none = λ x t w q. makes_none w q;
  socket_some = λ x t w q s. makes_one w q s;
  socket_fresh = λ x t w s. makes_fresh w s;
  close_closes = closes_one;
}

abbrev new_connector : ZmqE3Connector
new_connector =
    construct TransportLayer.ipc "ipc:///tmp/dapps/setup" "ipc:///in" "ipc:///out" 9990 9999 9991 2

abbrev closed : Two
closed = (false, false)

-- The response cannot be sent, so the setup socket is closed and made again.
abbrev calls : List Call
calls =
    sets_up_initial
    ∷ receives_setup []
    ∷ responds (7 ∷ [])
    ∷ sets_up_inbound
    ∷ receives (9 ∷ [])
    ∷ []

dispose-perform_all_example :
    let (c', w') = perform_all files two_sockets calls new_connector closed in
    open_of (dispose files two_sockets c' w').1 3 ≡ open_of closed 3
unfolding construct perform perform_all open_setup open_socket reset_setup_socket make_directory
    dispose two_sockets-ZmqLaws
dispose-perform_all_example =
    dispose-perform_all files two_sockets two_sockets-ZmqLaws calls new_connector closed 3 refl refl
      refl (refl, (tt, (tt, (refl, (tt, tt)))))

-- A bind of the outbound socket has failed before.
abbrev retrying : ZmqE3Connector
retrying = record new_connector { context = some 1; outbound_socket = some 3 }

setup_outbound_connection-loses_example :
    let (code, c', w') = setup_outbound_connection files two_sockets retrying (true, false) in
    open_of (dispose files two_sockets c' w').1 3 ≡ true
unfolding construct two_sockets-ZmqLaws
setup_outbound_connection-loses_example =
    setup_outbound_connection-loses files two_sockets two_sockets-ZmqLaws retrying (true, false) 1 3
      4 refl refl refl refl refl refl

abbrev listening : ZmqE3Connector
listening = record new_connector { inbound_socket = some 3; setup_socket = some 4 }

-- A buffer that holds an octet from before.
receive-message_example :
    ((buffer : List ℕ) × ((receive files two_sockets (9 ∷ []) listening (true, true)).0
        ≡ Reading.got buffer)
      × Buffered (5 ∷ 6 ∷ []) buffer)
    × ((buffer : List ℕ) × ((recv_setup_request files two_sockets (8 ∷ []) listening (true, true)).0
          ≡ Reading.got buffer)
        × Buffered (5 ∷ 6 ∷ []) buffer)
receive-message_example =
    receive-message files two_sockets listening (true, true) 3 4 5 5 (6 ∷ []) (6 ∷ []) (9 ∷ [])
      (8 ∷ []) refl refl refl refl

names_port : tcp_endpoint 9990 ≡ "tcp://*:9990"
unfolding tcp_endpoint
names_port = refl

finds_path : ipc_path "ipc:///tmp/dapps/setup" ≡ some "/tmp/dapps/setup"
unfolding ipc_path
finds_path = refl
