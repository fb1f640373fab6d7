-- ===== src/Zmq/Sockets.antt =====
-- The methods that open and close sockets.
use Prim.Native.String
use d_app_libe.Base.{
  ℕ, ◌%◌, ◌^◌, Bool, true, false, if◌then◌else◌, Option, none, some, List, [], ◌∷◌,
}
use d_app_libe.Types.{ErrorCode, TransportLayer}
use d_app_libe.Posix.Os.{Os, MadeDir}
use d_app_libe.Posix.Connector.{ipc_base_dir}
use d_app_libe.Zmq.Library.{Zmq, SocketType, SocketOption, receive_timeout, subscribe_all, conflate}
use d_app_libe.Zmq.Endpoints.{ipc_path}
use d_app_libe.Zmq.Connector.{ZmqE3Connector, recv_timeout_ms}

module _ {W : Type 0} (os : Os W) (zmq : Zmq W) where
  abbrev pub chmod_if : Option String.String → W → W
  chmod_if none w = w
  chmod_if (some path) w = os.chmod path w

  unfoldable pub setup_ipc_permissions : String.String → W → W
  unfolding ipc_path
  setup_ipc_permissions endpoint w = chmod_if (ipc_path endpoint) w

  -- The directory of the sockets, for IPC; false is an error.
  unfoldable pub make_directory : TransportLayer → W → Bool × W
  make_directory TransportLayer.ipc w =
      let (there, w1) = os.stat ipc_base_dir w in
      let opened = λ (w' : W). zmq.chown_to_dapp ipc_base_dir (os.chmod ipc_base_dir w') in
      if there
      then (true, opened w1)
      else let (result, w2) = os.mkdir ipc_base_dir w1 in
        elim result [ MadeDir.made ↦ (true, opened w2) | _ ↦ (false, w2) ]
  make_directory layer w = (true, w)

  unfoldable pub set_options : List SocketOption → ℕ → W → W
  set_options [] sock w = w
  set_options (o ∷ os') sock w = set_options os' sock (zmq.setsockopt sock o w)

  -- From the options of a new socket to its permissions; false is a bind that failed.
  unfoldable pub bind_with : List SocketOption → TransportLayer → String.String → ℕ → W → Bool × W
  unfolding set_options setup_ipc_permissions
  bind_with options layer endpoint sock w =
      let (good, w1) = zmq.bind sock endpoint (set_options options sock w) in
      if good
      then (true, elim layer [ TransportLayer.ipc ↦ setup_ipc_permissions endpoint w1 | _ ↦ w1 ])
      else (false, w1)

  -- A socket of the context, bound or not; `none` is one that could not be made.
  unfoldable pub open_socket :
      ℕ → SocketType → List SocketOption → TransportLayer → String.String → W → Option ℕ × Bool × W
  unfolding bind_with
  open_socket context kind options layer endpoint w =
      let (made, w1) = zmq.socket context kind w in
      elim made [
        | none ↦ (none, false, w1)
        | some sock ↦
            let (good, w2) = bind_with options layer endpoint sock w1 in (some sock, good, w2)
      ]

  abbrev pub setup_options : List SocketOption
  setup_options = receive_timeout recv_timeout_ms ∷ []

  abbrev pub inbound_options : List SocketOption
  inbound_options = subscribe_all ∷ conflate ∷ receive_timeout recv_timeout_ms ∷ []

  abbrev pub code_of : Bool → ErrorCode
  code_of true = ErrorCode.success
  code_of false = ErrorCode.connection_failed

  -- Behind the directory: the REP socket.
  unfoldable pub open_setup : ℕ → ZmqE3Connector → W → ErrorCode × ZmqE3Connector × W
  unfolding open_socket
  open_setup context c w =
      let (made, good, w1) =
        open_socket context SocketType.rep setup_options c.transport_layer c.setup_endpoint w in
      (
        code_of good,
        record c { setup_socket = made; connected = if good then true else c.connected },
        w1,
      )

  unfoldable pub setup_initial_connection : ZmqE3Connector → W → ErrorCode × ZmqE3Connector × W
  unfolding make_directory open_setup
  setup_initial_connection c w =
      let (made, w1) = zmq.ctx_new w in
      elim made [
        | none ↦ (ErrorCode.connection_failed, record c { context = none }, w1)
        | some context ↦
            let (set, w2) = zmq.ctx_set_io_threads context (c.io_threads % 2 ^ 32) w1 in
            if set
            then (let (ready, w3) = make_directory c.transport_layer w2 in
                let c' = record c { context = some context } in
                if ready then open_setup context c' w3 else (ErrorCode.connection_failed, c', w3))
            else (
              ErrorCode.connection_failed,
              record c { context = none },
              zmq.ctx_destroy context w2,
            )
      ]

  abbrev pub close_if : Option ℕ → W → W
  close_if none w = w
  close_if (some sock) w = zmq.close sock w

  -- A socket that could not be bound again is closed.
  unfoldable pub reset_setup_socket : ZmqE3Connector → W → Bool × ZmqE3Connector × W
  unfolding open_socket
  reset_setup_socket c w =
      let w1 = close_if c.setup_socket w in
      elim c.context [
        | none ↦ (false, record c { setup_socket = none }, w1)
        | some context ↦
            let (made, good, w2) =
              open_socket context SocketType.rep setup_options c.transport_layer c.setup_endpoint
                w1 in
            if good
            then (true, record c { setup_socket = made }, w2)
            else (false, record c { setup_socket = none }, close_if made w2)
      ]

  unfoldable pub setup_inbound_connection : ZmqE3Connector → W → ErrorCode × ZmqE3Connector × W
  unfolding open_socket
  setup_inbound_connection c w = elim c.context [
    | none ↦ (ErrorCode.not_initialized, c, w)
    | some context ↦
        let (made, good, w1) =
          open_socket context SocketType.sub inbound_options c.transport_layer c.inbound_endpoint
            w in
        (code_of good, record c { inbound_socket = made }, w1)
  ]

  unfoldable pub setup_outbound_connection : ZmqE3Connector → W → ErrorCode × ZmqE3Connector × W
  unfolding open_socket
  setup_outbound_connection c w = elim c.context [
    | none ↦ (ErrorCode.not_initialized, c, w)
    | some context ↦
        let (made, good, w1) =
          open_socket context SocketType.publisher [] c.transport_layer c.outbound_endpoint w in
        (code_of good, record c { outbound_socket = made }, w1)
  ]

  -- The files of IPC endpoints; a path that is empty is left out.
  abbrev pub unlink_if : Option String.String → W → W
  unlink_if none w = w
  unlink_if (some String.[]) w = w
  unlink_if (some path) w = os.unlink path w

  unfoldable pub remove_files : ZmqE3Connector → W → W
  unfolding ipc_path
  remove_files c w = elim c.transport_layer [
    | TransportLayer.ipc ↦
        let w1 = unlink_if (ipc_path c.setup_endpoint) w in
        let w2 = unlink_if (ipc_path c.inbound_endpoint) w1 in
        os.rmdir ipc_base_dir (unlink_if (ipc_path c.outbound_endpoint) w2)
    | _ ↦ w
  ]

  abbrev pub destroy_if : Option ℕ → W → W
  destroy_if none w = w
  destroy_if (some context) w = zmq.ctx_destroy context w

  -- ctx_destroy returns here. In the library it waits until every socket of the context is closed.
  unfoldable pub dispose : ZmqE3Connector → W → ZmqE3Connector × W
  unfolding remove_files
  dispose c w =
      let w1 = close_if c.outbound_socket (close_if c.inbound_socket (close_if c.setup_socket w)) in
      (
        record c {
          context = none;
          setup_socket = none;
          inbound_socket = none;
          outbound_socket = none;
          connected = false;
        },
        remove_files c (destroy_if c.context w1),
      )

  -- The receiving calls end by their timeout.
  unfoldable pub shutdown : ZmqE3Connector → W → ZmqE3Connector × W
  shutdown c w = (c, w)
