-- ===== src/Zmq/Endpoints.antt =====
-- The texts of endpoints.
use Prim.Native.Char.{code}
use Prim.Native.String
use d_app_libe.Base.{ℕ, zero, suc, ◌/◌, ◌%◌, ltb, ◌==◌, if◌then◌else◌, Option, none, some}

-- std::to_string of an unsigned integer, for at most as many digits as there is fuel; a uint16_t has
-- five at most.
unfoldable pub digits : ℕ → ℕ → String.String → String.String
digits zero n behind = behind
digits (suc fuel) n behind =
    let text = String.◌∷◌ (String.char_at "0123456789" (n % 10)) behind in
    let rest = digits fuel (n / 10) text in if ltb n 10 then text else rest

unfoldable pub port_to_string : ℕ → String.String
unfolding digits
port_to_string port = digits 5 port String.[]

-- `"tcp://*:" + std::to_string(port)`
unfoldable pub tcp_endpoint : ℕ → String.String
unfolding port_to_string
tcp_endpoint port = String.◌++◌ "tcp://*:" (port_to_string port)

-- What stands behind a prefix, if the text has it.
unfoldable pub after_prefix : String.String → String.String → Option String.String
after_prefix String.[] s = some s
after_prefix (String.◌∷◌ c p) String.[] = none
after_prefix (String.◌∷◌ c p) (String.◌∷◌ d s) = if code c == code d then after_prefix p s else none

unfoldable pub ipc_path : String.String → Option String.String
unfolding after_prefix
ipc_path endpoint = after_prefix "ipc://" endpoint
