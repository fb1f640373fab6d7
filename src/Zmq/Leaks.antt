-- ===== src/Zmq/Leaks.antt =====
-- The connector's methods leave no socket behind, if each channel is set up once at most.
use d_app_libe.Base.{ℕ, true, false, ◌&&◌, not, ◌≡◌, ap, subst, ◌∙◌, none, some, List, [], arith}
use d_app_libe.Posix.Os.{Os}
use d_app_libe.Zmq.Library.{Zmq, ZmqLaws, SocketType}
use d_app_libe.Zmq.Connector.{ZmqE3Connector}
use d_app_libe.Zmq.Sockets.{open_socket, close_if, setup_outbound_connection, dispose}
use d_app_libe.Zmq.Calls.{Call, perform_all}
use d_app_libe.Zmq.Holdings.{
  close_if-closes, Opened, open_socket-Opened, destroy_if-Same, remove_files-Same, NoLeak-rotate,
  NoLeak-close, NoLeak-none,
}
use d_app_libe.Base.Options.{holds}
use d_app_libe.Zmq.Clean.{AllUnset, Clean, perform_all-Clean}

module _ {W : Type 0} (os : Os W) (zmq : Zmq W) where
  module _ (laws : ZmqLaws os zmq) (w0 : W) where
    dispose-Clean :
        (c : ZmqE3Connector) (w : W) (q : ℕ)
        → Clean os zmq laws w0 c w
        → laws.is_open (dispose os zmq c w).1 q ≡ laws.is_open w0 q
    unfolding dispose
    dispose-Clean c w q h =
        let h1 = NoLeak-close os zmq laws w0 c.setup_socket h in
        let h2 = NoLeak-close os zmq laws w0 c.inbound_socket (NoLeak-rotate os zmq laws w0 h1) in
        let h3 = NoLeak-close os zmq laws w0 c.outbound_socket (NoLeak-rotate os zmq laws w0 h2) in
        remove_files-Same os zmq laws c _ q
        ∙ destroy_if-Same os zmq laws c.context _ q
        ∙ NoLeak-none os zmq laws w0 h3 q

  -- From a connector with no socket, and whatever calls come, failed ones included, as long as a
  -- channel is set up only while it has no socket: dispose leaves exactly those ZeroMQ sockets open
  -- that were open before.
  pub dispose-perform_all :
      (laws : ZmqLaws os zmq) (calls : List Call) (c : ZmqE3Connector) (w : W) (q : ℕ)
      → c.setup_socket ≡ none
      → c.inbound_socket ≡ none
      → c.outbound_socket ≡ none
      → AllUnset os zmq calls c w
      → let (c', w') = perform_all os zmq calls c w in
        laws.is_open (dispose os zmq c' w').1 q ≡ laws.is_open w q
  dispose-perform_all laws calls c w q no_setup no_inbound no_outbound unset =
      dispose-Clean laws w _ _ q (
        perform_all-Clean os zmq laws w calls c w unset (record {
          kept = λ p e. e;
          only = λ p e. rw (no_setup, no_inbound, no_outbound) e;
          fresh = λ p. rw (no_setup, no_inbound, no_outbound) (λ e. absurd (cc));
        }))

  dispose-closes :
      (laws : ZmqLaws os zmq) (c : ZmqE3Connector) (w : W) (q : ℕ)
      → laws.is_open (dispose os zmq c w).1 q ≡ (
          ((laws.is_open w q && not (holds c.setup_socket q)) && not (holds c.inbound_socket q))
          && not (holds c.outbound_socket q))
  unfolding dispose
  dispose-closes laws c w q =
      let w1 = close_if os zmq c.setup_socket w in
      let w2 = close_if os zmq c.inbound_socket w1 in
      remove_files-Same os zmq laws c _ q
      ∙ destroy_if-Same os zmq laws c.context _ q
      ∙ close_if-closes os zmq laws c.outbound_socket w2 q
      ∙ ap (λ b. b && not (holds c.outbound_socket q))
          (close_if-closes os zmq laws c.inbound_socket w1 q
            ∙ ap (λ b. b && not (holds c.inbound_socket q))
                (close_if-closes os zmq laws c.setup_socket w q))

  -- setup_outbound_connection on a connector that has an outbound socket already, as after a bind
  -- that failed, loses this socket when it can make another: dispose leaves it open.
  pub setup_outbound_connection-loses :
      (laws : ZmqLaws os zmq) (c : ZmqE3Connector) (w : W) (context old new : ℕ)
      → c.context ≡ some context
      → c.outbound_socket ≡ some old
      → laws.is_open w old ≡ true
      → holds c.setup_socket old ≡ false
      → holds c.inbound_socket old ≡ false
      → (zmq.socket context SocketType.publisher w).0 ≡ some new
      → let (code, c', w') = setup_outbound_connection os zmq c w in
        laws.is_open (dispose os zmq c' w').1 old ≡ true
  unfolding setup_outbound_connection dispose open_socket
  setup_outbound_connection-loses laws c w context old new there had opened other other' made =
      let o =
        open_socket os zmq context SocketType.publisher [] c.transport_layer c.outbound_endpoint
          w in
      let fresh : laws.is_open w new ≡ false =
        laws.socket_fresh context SocketType.publisher w new made in
      let first : o.0 ≡ some new = rw (open_socket, made) in
      let (closed, more) =
        subst (λ a. Opened os zmq laws a w o.2) first
          (open_socket-Opened os zmq laws context SocketType.publisher [] c.transport_layer
            c.outbound_endpoint w) in
      let still : laws.is_open o.2 old ≡ true = ground (arith, more old) in
      let away : holds o.0 old ≡ false = rw first (ground arith) in
      rw (setup_outbound_connection, there)
        (dispose-closes laws (record c { outbound_socket = o.0 }) o.2 old ∙ ground (arith))
