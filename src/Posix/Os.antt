-- ===== src/Posix/Os.antt =====
-- The system calls that the connector makes for descriptors and files, which are not part of the
-- repository, and what their manual says of the open descriptors.
use Prim.Native.String.{String}
use d_app_libe.Base.{ℕ, Bool, false, ◌&&◌, ◌||◌, not, ◌==◌, ◌≡◌, Option, none, some, List}

pub data Family : Type 0 where
  inet_sctp inet_tcp unix : Family

pub data Address : Type 0 where
  any_address : ℕ → Address
  file : String → Address

pub data MadeDir : Type 0 where
  made existed not_made : MadeDir

-- Results with the values of errno that the source tells apart: `interrupted` is EINTR, and for accept
-- and recv also EAGAIN and EWOULDBLOCK.
pub data Polled : Type 0 where
  ready timed_out interrupted poll_failed : Polled

pub data Accepted : Type 0 where
  connection : ℕ → Accepted
  retry refused : Accepted

pub data Arrived : Type 0 where
  octets : List ℕ → Arrived
  later broken : Arrived

-- A descriptor that is negative is `none`. `asked` is whether another thread has called shutdown.
pub record Os (W : Type 0) : Type 0 where
  pub stat : String → W → Bool × W
  pub mkdir : String → W → MadeDir × W
  pub chmod : String → W → W
  pub unlink : String → W → W
  pub rmdir : String → W → W
  pub socket : Family → W → Option ℕ × W
  pub bind : Option ℕ → Address → W → Bool × W
  pub listen : ℕ → W → Bool × W
  pub poll : ℕ → W → Polled × W
  pub accept : ℕ → W → Accepted × W
  pub recv : ℕ → ℕ → W → Arrived × W
  pub close : ℕ → W → W
  pub shutdown_socket : ℕ → W → W
  pub asked : W → Bool

-- Which descriptors are open, and the calls that change this.
pub record OsLaws {W : Type 0} (os : Os W) : Type 0 where
  pub is_open : W → ℕ → Bool
  pub stat_keeps : (s : String) (w : W) (q : ℕ) → is_open (os.stat s w).1 q ≡ is_open w q
  pub mkdir_keeps : (s : String) (w : W) (q : ℕ) → is_open (os.mkdir s w).1 q ≡ is_open w q
  pub chmod_keeps : (s : String) (w : W) (q : ℕ) → is_open (os.chmod s w) q ≡ is_open w q
  pub unlink_keeps : (s : String) (w : W) (q : ℕ) → is_open (os.unlink s w) q ≡ is_open w q
  pub rmdir_keeps : (s : String) (w : W) (q : ℕ) → is_open (os.rmdir s w) q ≡ is_open w q
  pub bind_keeps :
      (fd : Option ℕ) (a : Address) (w : W) (q : ℕ) → is_open (os.bind fd a w).1 q ≡ is_open w q
  pub listen_keeps : (fd : ℕ) (w : W) (q : ℕ) → is_open (os.listen fd w).1 q ≡ is_open w q
  pub socket_none :
      (f : Family) (w : W) (q : ℕ)
      → (os.socket f w).0 ≡ none
      → is_open (os.socket f w).1 q ≡ is_open w q
  -- A new descriptor is one that was not open.
  pub socket_some :
      (f : Family) (w : W) (q fd : ℕ)
      → (os.socket f w).0 ≡ some fd
      → is_open (os.socket f w).1 q ≡ (q == fd || is_open w q)
  pub socket_fresh :
      (f : Family) (w : W) (fd : ℕ) → (os.socket f w).0 ≡ some fd → is_open w fd ≡ false
  pub close_closes :
      (fd : ℕ) (w : W) (q : ℕ) → is_open (os.close fd w) q ≡ (is_open w q && not (q == fd))
