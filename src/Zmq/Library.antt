-- ===== src/Zmq/Library.antt =====
-- The calls of the ZeroMQ library, which is not part of the repository, and what its manual says of
-- the open sockets.
use Prim.Native.String.{String}
use d_app_libe.Base.{ℕ, Bool, false, ◌&&◌, ◌||◌, not, ◌==◌, ◌≡◌, Option, none, some, List}
use d_app_libe.Posix.Os.{Os}

pub data SocketType : Type 0 where
  rep sub publisher : SocketType

-- The options that the source sets; a timeout is in milliseconds.
pub data SocketOption : Type 0 where
  receive_timeout : ℕ → SocketOption
  subscribe_all conflate : SocketOption

-- What zmq_recv finds: the whole message, of which the length fits an `int`, though it copies only
-- the octets that fit the buffer; or EAGAIN, or another error.
pub data Received : Type 0 where
  message : List ℕ → Received
  again failed : Received

-- A null context or socket is `none`; the number of threads is an `int`, as its bits. The last is
-- getgrnam of "dapp" and chown, of which the result is only logged.
pub record Zmq (W : Type 0) : Type 0 where
  pub ctx_new : W → Option ℕ × W
  pub ctx_set_io_threads : ℕ → ℕ → W → Bool × W
  pub ctx_destroy : ℕ → W → W
  pub socket : ℕ → SocketType → W → Option ℕ × W
  pub setsockopt : ℕ → SocketOption → W → W
  pub bind : ℕ → String → W → Bool × W
  pub recv : ℕ → W → Received × W
  pub send : ℕ → List ℕ → W → Bool × W
  pub close : ℕ → W → W
  pub chown_to_dapp : String → W → W

-- Which sockets are open, and the calls that change this.
pub record ZmqLaws {W : Type 0} (os : Os W) (zmq : Zmq W) : Type 0 where
  pub is_open : W → ℕ → Bool
  pub stat_keeps : (s : String) (w : W) (q : ℕ) → is_open (os.stat s w).1 q ≡ is_open w q
  pub mkdir_keeps : (s : String) (w : W) (q : ℕ) → is_open (os.mkdir s w).1 q ≡ is_open w q
  pub chmod_keeps : (s : String) (w : W) (q : ℕ) → is_open (os.chmod s w) q ≡ is_open w q
  pub unlink_keeps : (s : String) (w : W) (q : ℕ) → is_open (os.unlink s w) q ≡ is_open w q
  pub rmdir_keeps : (s : String) (w : W) (q : ℕ) → is_open (os.rmdir s w) q ≡ is_open w q
  pub chown_keeps : (s : String) (w : W) (q : ℕ) → is_open (zmq.chown_to_dapp s w) q ≡ is_open w q
  pub ctx_new_keeps : (w : W) (q : ℕ) → is_open (zmq.ctx_new w).1 q ≡ is_open w q
  pub ctx_set_keeps :
      (x n : ℕ) (w : W) (q : ℕ) → is_open (zmq.ctx_set_io_threads x n w).1 q ≡ is_open w q
  pub ctx_destroy_keeps : (x : ℕ) (w : W) (q : ℕ) → is_open (zmq.ctx_destroy x w) q ≡ is_open w q
  pub setsockopt_keeps :
      (s : ℕ) (o : SocketOption) (w : W) (q : ℕ) → is_open (zmq.setsockopt s o w) q ≡ is_open w q
  pub bind_keeps : (s : ℕ) (e : String) (w : W) (q : ℕ) → is_open (zmq.bind s e w).1 q ≡ is_open w q
  pub recv_keeps : (s : ℕ) (w : W) (q : ℕ) → is_open (zmq.recv s w).1 q ≡ is_open w q
  pub send_keeps :
      (s : ℕ) (octets : List ℕ) (w : W) (q : ℕ) → is_open (zmq.send s octets w).1 q ≡ is_open w q
  pub socket_none :
      (x : ℕ) (t : SocketType) (w : W) (q : ℕ)
      → (zmq.socket x t w).0 ≡ none
      → is_open (zmq.socket x t w).1 q ≡ is_open w q
  -- A new socket is one that was not open.
  pub socket_some :
      (x : ℕ) (t : SocketType) (w : W) (q s : ℕ)
      → (zmq.socket x t w).0 ≡ some s
      → is_open (zmq.socket x t w).1 q ≡ (q == s || is_open w q)
  pub socket_fresh :
      (x : ℕ) (t : SocketType) (w : W) (s : ℕ) → (zmq.socket x t w).0 ≡ some s → is_open w s ≡ false
  pub close_closes :
      (s : ℕ) (w : W) (q : ℕ) → is_open (zmq.close s w) q ≡ (is_open w q && not (q == s))
