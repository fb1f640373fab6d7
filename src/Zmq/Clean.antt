-- ===== src/Zmq/Clean.antt =====
-- Every call keeps track of the sockets that it opens, if each channel is set up only while it has
-- no socket.
use d_app_libe.Base.{
  ℕ, Bool, true, false, ◌≡◌, none, some, List, [], ◌∷◌, Option-cases, Bool-cases, inl, inr, ◌%◌,
  ◌^◌, if◌then◌else◌,
}
use d_app_libe.Posix.Os.{Os}
use d_app_libe.Zmq.Library.{Zmq, ZmqLaws, SocketType}
use d_app_libe.Zmq.Connector.{ZmqE3Connector, is_failed}
use d_app_libe.Zmq.Sockets.{
  make_directory, open_socket, open_setup, close_if, setup_options, inbound_options,
  setup_initial_connection, setup_inbound_connection, setup_outbound_connection, reset_setup_socket,
}
use d_app_libe.Zmq.Messages.{reset_if, recv_setup_request, send_response, receive, send}
use d_app_libe.Zmq.Calls.{
  Call, sets_up_initial, sets_up_inbound, sets_up_outbound, receives_setup, receives, responds,
  sends, perform, perform_all,
}
use d_app_libe.Zmq.Holdings.{
  make_directory-Same, open_socket-Opened, NoLeak, NoLeak-rotate, NoLeak-Same, NoLeak-close,
  NoLeak-open,
}

module _ {W : Type 0} (os : Os W) (zmq : Zmq W) where
  -- A channel is set up only while it has no socket.
  abbrev pub Unset : Call → ZmqE3Connector → Type 0
  Unset sets_up_initial c = c.setup_socket ≡ none
  Unset sets_up_inbound c = c.inbound_socket ≡ none
  Unset sets_up_outbound c = c.outbound_socket ≡ none
  Unset call c = Unit

  abbrev pub AllUnset : List Call → ZmqE3Connector → W → Type 0
  AllUnset [] c w = Unit
  AllUnset (call ∷ calls) c w =
      Unset call c × AllUnset calls (perform os zmq call c w).0 (perform os zmq call c w).1

  module _ (laws : ZmqLaws os zmq) (w0 : W) where
    abbrev pub Clean : ZmqE3Connector → W → Type 0
    Clean c w = NoLeak os zmq laws w0 c.setup_socket c.inbound_socket c.outbound_socket w

    open_setup-Clean :
        (context : ℕ) (c : ZmqE3Connector) (w : W)
        → NoLeak os zmq laws w0 none c.inbound_socket c.outbound_socket w
        → Clean (open_setup os zmq context c w).1 (open_setup os zmq context c w).2
    unfolding open_setup
    open_setup-Clean context c w h = NoLeak-open os zmq laws w0 _ h (
        open_socket-Opened os zmq laws context SocketType.rep (setup_options os zmq)
          c.transport_layer c.setup_endpoint w)

    setup_initial-Clean :
        (c : ZmqE3Connector) (w : W)
        → NoLeak os zmq laws w0 none c.inbound_socket c.outbound_socket w
        → c.setup_socket ≡ none
        → Clean (perform os zmq sets_up_initial c w).0 (perform os zmq sets_up_initial c w).1
    unfolding perform setup_initial_connection
    setup_initial-Clean c w h unset =
        let w1 = (zmq.ctx_new w).1 in
        let h1 = NoLeak-Same os zmq laws w0 h (laws.ctx_new_keeps w) in
        elim (Option-cases (zmq.ctx_new w).0) [
          | inl failed ↦ rw (setup_initial_connection, failed, unset) h1
          | inr (context, made) ↦
              let n = c.io_threads % 2 ^ 32 in
              let w2 = (zmq.ctx_set_io_threads context n w1).1 in
              let h2 = NoLeak-Same os zmq laws w0 h1 (laws.ctx_set_keeps context n w1) in
              elim (Bool-cases (zmq.ctx_set_io_threads context n w1).0) [
                | inr refused ↦
                    rw (setup_initial_connection, made, refused, unset)
                      (NoLeak-Same os zmq laws w0 h2 (laws.ctx_destroy_keeps context w2))
                | inl set ↦
                    let h3 =
                      NoLeak-Same os zmq laws w0 h2
                        (make_directory-Same os zmq laws c.transport_layer w2) in
                    elim (Bool-cases (make_directory os zmq c.transport_layer w2).0) [
                      | inl ready ↦
                          rw (setup_initial_connection, made, set, ready)
                            (open_setup-Clean context (record c { context = some context }) _ h3)
                      | inr unready ↦ rw (setup_initial_connection, made, set, unready, unset) h3
                    ]
              ]
        ]

    setup_inbound-Clean :
        (c : ZmqE3Connector) (w : W)
        → NoLeak os zmq laws w0 c.setup_socket none c.outbound_socket w
        → c.inbound_socket ≡ none
        → Clean (perform os zmq sets_up_inbound c w).0 (perform os zmq sets_up_inbound c w).1
    unfolding perform setup_inbound_connection
    setup_inbound-Clean c w h unset = elim (Option-cases c.context) [
      | inl missing ↦ rw (setup_inbound_connection, missing, unset) h
      | inr (context, there) ↦
          rw (setup_inbound_connection, there)
            (NoLeak-rotate os zmq laws w0 (
              NoLeak-rotate os zmq laws w0 (
                NoLeak-open os zmq laws w0 _ (NoLeak-rotate os zmq laws w0 h) (
                  open_socket-Opened os zmq laws context SocketType.sub (inbound_options os zmq)
                    c.transport_layer c.inbound_endpoint w))))
    ]

    setup_outbound-Clean :
        (c : ZmqE3Connector) (w : W)
        → NoLeak os zmq laws w0 c.setup_socket c.inbound_socket none w
        → c.outbound_socket ≡ none
        → Clean (perform os zmq sets_up_outbound c w).0 (perform os zmq sets_up_outbound c w).1
    unfolding perform setup_outbound_connection
    setup_outbound-Clean c w h unset = elim (Option-cases c.context) [
      | inl missing ↦ rw (setup_outbound_connection, missing, unset) h
      | inr (context, there) ↦
          rw (setup_outbound_connection, there)
            (NoLeak-rotate os zmq laws w0 (
              NoLeak-open os zmq laws w0 _
                (NoLeak-rotate os zmq laws w0 (NoLeak-rotate os zmq laws w0 h))
                (open_socket-Opened os zmq laws context SocketType.publisher [] c.transport_layer
                  c.outbound_endpoint w)))
    ]

    reset-Clean :
        (c : ZmqE3Connector) (w : W)
        → Clean c w
        → Clean (reset_setup_socket os zmq c w).1 (reset_setup_socket os zmq c w).2
    unfolding reset_setup_socket
    reset-Clean c w h =
        let w1 = close_if os zmq c.setup_socket w in
        let closed = NoLeak-close os zmq laws w0 c.setup_socket h in
        elim (Option-cases c.context) [
          | inl missing ↦ rw (reset_setup_socket, missing) closed
          | inr (context, there) ↦
              let (made, good, w2) =
                open_socket os zmq context SocketType.rep (setup_options os zmq) c.transport_layer
                  c.setup_endpoint w1 in
              let opened = NoLeak-open os zmq laws w0 made closed (
                open_socket-Opened os zmq laws context SocketType.rep (setup_options os zmq)
                  c.transport_layer c.setup_endpoint w1) in
              elim (Bool-cases good) [
                | inl bound ↦ rw (reset_setup_socket, there, bound) opened
                | inr unbound ↦
                    rw (reset_setup_socket, there, unbound)
                      (NoLeak-close os zmq laws w0 made opened)
              ]
        ]

    reset_if-Clean :
        (b : Bool) (c : ZmqE3Connector) (w : W)
        → Clean c w
        → Clean (reset_if os zmq b c w).0 (reset_if os zmq b c w).1
    unfolding reset_if
    reset_if-Clean true c w h = reset-Clean c w h
    reset_if-Clean false c w h = h

    perform-Clean :
        (call : Call) (c : ZmqE3Connector) (w : W)
        → Unset call c
        → Clean c w
        → Clean (perform os zmq call c w).0 (perform os zmq call c w).1
    unfolding perform recv_setup_request send_response receive send
    perform-Clean sets_up_initial c w unset h = setup_initial-Clean c w (rw unset at h) unset
    perform-Clean sets_up_inbound c w unset h = setup_inbound-Clean c w (rw unset at h) unset
    perform-Clean sets_up_outbound c w unset h = setup_outbound-Clean c w (rw unset at h) unset
    perform-Clean (receives_setup buffer) c w unset h = elim (Option-cases c.setup_socket) [
      | inl missing ↦ rw (recv_setup_request, missing) h
      | inr (s, there) ↦
          rw (recv_setup_request, there)
            (reset_if-Clean (is_failed (zmq.recv s w).0) c (zmq.recv s w).1
              (NoLeak-Same os zmq laws w0 h (laws.recv_keeps s w)))
    ]
    perform-Clean (receives buffer) c w unset h = elim (Option-cases c.inbound_socket) [
      | inl missing ↦ rw (receive, missing) (rw missing at h)
      | inr (s, there) ↦
          rw (receive, there) (NoLeak-Same os zmq laws w0 (rw there at h) (laws.recv_keeps s w))
    ]
    perform-Clean (responds content) c w unset h = elim (Option-cases c.setup_socket) [
      | inl missing ↦ rw (send_response, missing) h
      | inr (s, there) ↦
          rw (send_response, there)
            (reset_if-Clean (if (zmq.send s content w).0 then false else true) c
              (zmq.send s content w).1 (NoLeak-Same os zmq laws w0 h (laws.send_keeps s content w)))
    ]
    perform-Clean (sends content) c w unset h = elim (Option-cases c.outbound_socket) [
      | inl missing ↦ rw (send, missing) (rw missing at h)
      | inr (s, there) ↦
          rw (send, there)
            (NoLeak-Same os zmq laws w0 (rw there at h) (laws.send_keeps s content w))
    ]

    pub perform_all-Clean :
        (calls : List Call) (c : ZmqE3Connector) (w : W)
        → AllUnset calls c w
        → Clean c w
        → Clean (perform_all os zmq calls c w).0 (perform_all os zmq calls c w).1
    unfolding perform_all
    perform_all-Clean [] c w unset h = h
    perform_all-Clean (call ∷ calls) c w unset h =
        perform_all-Clean calls (perform os zmq call c w).0 (perform os zmq call c w).1 unset.1
          (perform-Clean call c w unset.0 h)
