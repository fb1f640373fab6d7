-- ===== src/Posix/Connector.antt =====
-- The members of PosixE3Connector and its constructor. The logger's calls are left out.
use Prim.Native.Char.{Char, code}
use Prim.Native.String
use d_app_libe.Base.{
  ℕ, zero, suc, Bool, true, false, ◌&&◌, ◌||◌, if◌then◌else◌, ◌==◌, Option, none, some, List, [],
  ◌∷◌,
}
use d_app_libe.Types.{ErrorCode, TransportLayer}
use d_app_libe.Posix.Os.{Os, Family, Address, MadeDir, Polled, Accepted, Arrived}
pub mod Opening
pub mod Descriptors

-- What stands behind the first "://".
unfoldable pub after_separator : String.String → Option String.String
after_separator (String.◌∷◌ c (String.◌∷◌ d (String.◌∷◌ e s))) =
    let rest = after_separator (String.◌∷◌ d (String.◌∷◌ e s)) in
    if code c == b':' && (code d == b'/' && code e == b'/') then some s else rest
after_separator s = none

unfoldable pub strip_uri_prefix : String.String → String.String
unfolding after_separator
strip_uri_prefix endpoint = elim (after_separator endpoint) [ none ↦ endpoint | some s ↦ s ]

-- `strncpy` into a `sun_path` of 108 characters, the last of which stays 0.
unfoldable pub first : ℕ → String.String → String.String
first zero s = String.[]
first (suc n) String.[] = String.[]
first (suc n) (String.◌∷◌ c s) = String.◌∷◌ c (first n s)

abbrev pub ipc_base_dir : String.String
ipc_base_dir = "/tmp/dapps"

abbrev pub default_buffer_size : ℕ
default_buffer_size = 60000

-- A socket that is -1 or UNUSED_SOCKET is `none`.
pub record PosixE3Connector : Type 0 where
  pub transport_layer : TransportLayer
  pub setup_endpoint : String.String
  pub inbound_endpoint : String.String
  pub outbound_endpoint : String.String
  pub setup_port : ℕ
  pub inbound_port : ℕ
  pub outbound_port : ℕ
  pub setup_socket : Option ℕ
  pub setup_connection_socket : Option ℕ
  pub inbound_socket : Option ℕ
  pub inbound_connection_socket : Option ℕ
  pub outbound_socket : Option ℕ
  pub outbound_connection_socket : Option ℕ
  pub connected : Bool
  pub shutdown_requested : Bool

unfoldable pub construct :
    TransportLayer → String.String → String.String → String.String → ℕ → ℕ → ℕ → PosixE3Connector
unfolding strip_uri_prefix
construct layer setup inbound outbound setup_port inbound_port outbound_port = record {
  transport_layer = layer;
  setup_endpoint = strip_uri_prefix setup;
  inbound_endpoint = strip_uri_prefix inbound;
  outbound_endpoint = strip_uri_prefix outbound;
  setup_port = setup_port;
  inbound_port = inbound_port;
  outbound_port = outbound_port;
  setup_socket = none;
  setup_connection_socket = none;
  inbound_socket = none;
  inbound_connection_socket = none;
  outbound_socket = none;
  outbound_connection_socket = none;
  connected = false;
  shutdown_requested = false;
}

-- What a reading method gives: 0 for a wait that ended without data, octets, or an error.
pub data Reading : Type 0 where
  nothing : Reading
  got : List ℕ → Reading
  reading_error : ErrorCode → Reading
