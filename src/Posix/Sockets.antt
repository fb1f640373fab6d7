-- ===== src/Posix/Sockets.antt =====
-- The methods of PosixE3Connector that open and close sockets.
use Prim.Native.String
use d_app_libe.Base.{ℕ, zero, suc, Bool, true, false, ◌||◌, if◌then◌else◌, Option, none, some}
use d_app_libe.Types.{ErrorCode, TransportLayer}
use d_app_libe.Posix.Os.{Os, Family, Address, MadeDir, Polled, Accepted}
use d_app_libe.Posix.Connector.{PosixE3Connector, first, ipc_base_dir}

module _ {W : Type 0} (os : Os W) where
  -- The directory of the sockets, for IPC; false is an error.
  unfoldable pub make_directory : TransportLayer → W → Bool × W
  make_directory TransportLayer.ipc w =
      let (there, w1) = os.stat ipc_base_dir w in
      if there
      then (true, os.chmod ipc_base_dir w1)
      else let (result, w2) = os.mkdir ipc_base_dir w1 in
        elim result [ MadeDir.not_made ↦ (false, w2) | _ ↦ (true, os.chmod ipc_base_dir w2) ]
  make_directory layer w = (true, w)

  -- A socket, and the result of binding it.
  unfoldable pub bound_socket : TransportLayer → String.String → ℕ → W → Option ℕ × Bool × W
  unfolding first
  bound_socket TransportLayer.sctp endpoint port w =
      let (sock, w1) = os.socket Family.inet_sctp w in
      let (good, w2) = os.bind sock (Address.any_address port) w1 in (sock, good, w2)
  bound_socket TransportLayer.tcp endpoint port w =
      let (sock, w1) = os.socket Family.inet_tcp w in
      let (good, w2) = os.bind sock (Address.any_address port) w1 in (sock, good, w2)
  bound_socket TransportLayer.ipc endpoint port w =
      let (sock, w1) = os.socket Family.unix w in
      let (good, w2) = os.bind sock (Address.file (first 107 endpoint)) (os.unlink endpoint w1) in
      (sock, good, w2)

  unfoldable pub listening : Option ℕ → Bool → W → Option ℕ × W
  listening none good w = (none, w)
  listening (some sock) false w = (none, os.close sock w)
  listening (some sock) true w =
      let (good, w1) = os.listen sock w in
      if good then (some sock, w1) else (none, os.close sock w1)

  -- The first part of the three methods that set a connection up; `none` is CONNECTION_FAILED.
  unfoldable pub open_listener : TransportLayer → String.String → ℕ → W → Option ℕ × W
  unfolding make_directory bound_socket listening
  open_listener layer endpoint port w =
      let (good, w1) = make_directory layer w in
      if good
      then (let (sock, bound, w2) = bound_socket layer endpoint port w1 in listening sock bound w2)
      else (none, w1)

  unfoldable pub setup_initial_connection : PosixE3Connector → W → ErrorCode × PosixE3Connector × W
  setup_initial_connection c w =
      let (result, w') = open_listener c.transport_layer c.setup_endpoint c.setup_port w in
      elim result [
        | none ↦ (ErrorCode.connection_failed, c, w')
        | some sock ↦
            (ErrorCode.success, record c { setup_socket = some sock; connected = true }, w')
      ]

  abbrev pub requested : PosixE3Connector → W → Bool
  requested c w = c.shutdown_requested || os.asked w

  abbrev pub close_if : Option ℕ → W → W
  close_if none w = w
  close_if (some fd) w = os.close fd w

  unfoldable pub remove_files : PosixE3Connector → W → W
  remove_files c w = elim c.transport_layer [
    | TransportLayer.ipc ↦ os.rmdir ipc_base_dir (
        os.unlink c.outbound_endpoint (os.unlink c.inbound_endpoint (os.unlink c.setup_endpoint w)))
    | _ ↦ w
  ]

  unfoldable pub dispose : PosixE3Connector → W → PosixE3Connector × W
  unfolding remove_files
  dispose c w =
      let w1 = close_if c.inbound_connection_socket w in
      let w2 = close_if c.setup_connection_socket w1 in
      let w3 = close_if c.outbound_connection_socket w2 in
      let w4 = close_if c.inbound_socket w3 in
      let w5 = close_if c.outbound_socket w4 in
      let w6 = close_if c.setup_socket w5 in
      (
        record c {
          setup_socket = none;
          setup_connection_socket = none;
          inbound_socket = none;
          inbound_connection_socket = none;
          outbound_socket = none;
          outbound_connection_socket = none;
          connected = false;
        },
        remove_files c w6,
      )

  abbrev pub shutdown_if : Option ℕ → W → W
  shutdown_if none w = w
  shutdown_if (some fd) w = os.shutdown_socket fd w

  unfoldable pub shutdown : PosixE3Connector → W → PosixE3Connector × W
  shutdown c w = (
    record c { shutdown_requested = true },
    shutdown_if c.inbound_socket (shutdown_if c.setup_socket w),
  )

  -- The wait of setup_inbound_connection, for at most so many polls; `none` is a wait that goes on.
  -- The result says whether a poll failed.
  unfoldable pub await_inbound : ℕ → PosixE3Connector → ℕ → W → Option (Bool × W)
  await_inbound zero c listener w = if requested c w then some (true, w) else none
  await_inbound (suc fuel) c listener w =
      let (polled, w1) = os.poll listener w in
      let after : Option (Bool × W) = elim polled [
        | Polled.ready ↦ some (true, w1)
        | Polled.timed_out ↦ await_inbound fuel c listener w1
        | Polled.interrupted ↦ some (true, w1)
        | Polled.poll_failed ↦ some (requested c w1, w1)
      ] in
      if requested c w then some (true, w) else after

  unfoldable pub setup_inbound_connection :
      ℕ → PosixE3Connector → W → Option (ErrorCode × PosixE3Connector × W)
  unfolding await_inbound
  setup_inbound_connection fuel c w =
      let (result, w1) = open_listener c.transport_layer c.inbound_endpoint c.inbound_port w in
      elim result [
        | none ↦ some (ErrorCode.connection_failed, c, w1)
        | some sock ↦
            let c' = record c { inbound_socket = some sock } in
            elim (await_inbound fuel c' sock w1) [
              | none ↦ none
              | some (false, w2) ↦ some (ErrorCode.connection_failed, c', w2)
              | some (true, w2) ↦
                  let (accepted, w3) = os.accept sock w2 in
                  let failed =
                    if requested c' w3 then ErrorCode.cancelled else ErrorCode.connection_failed in
                  let after : ErrorCode × PosixE3Connector × W = elim accepted [
                    | Accepted.connection fd ↦
                        (ErrorCode.success, record c' { inbound_connection_socket = some fd }, w3)
                    | _ ↦ (failed, record c' { inbound_connection_socket = none }, w3)
                  ] in
                  some (if requested c' w2 then (ErrorCode.cancelled, c', w2) else after)
            ]
      ]

  unfoldable pub setup_outbound_connection : PosixE3Connector → W → ErrorCode × PosixE3Connector × W
  setup_outbound_connection c w =
      let (result, w1) = open_listener c.transport_layer c.outbound_endpoint c.outbound_port w in
      elim result [
        | none ↦ (ErrorCode.connection_failed, c, w1)
        | some sock ↦
            let c' = record c { outbound_socket = some sock } in
            let (accepted, w2) = os.accept sock w1 in
            elim accepted [
              | Accepted.connection fd ↦
                  (ErrorCode.success, record c' { outbound_connection_socket = some fd }, w2)
              | _ ↦
                  (ErrorCode.connection_failed, record c' { outbound_connection_socket = none }, w2)
            ]
      ]
