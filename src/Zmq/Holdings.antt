-- ===== src/Zmq/Holdings.antt =====
-- Which sockets the connector's steps open and close.
use Prim.Native.String.{String}
use d_app_libe.Base.{
  ℕ, true, false, ◌&&◌, ◌||◌, not, ◌==◌, ◌≡◌, refl, sym, ◌∙◌, Option, none, some, List, [], ◌∷◌,
  Option-cases, Bool-cases, inl, inr, arith,
}
use d_app_libe.Types.{TransportLayer}
use d_app_libe.Posix.Os.{Os}
use d_app_libe.Posix.Connector.{ipc_base_dir}
use d_app_libe.Base.Options.{holds}
use d_app_libe.Posix.Connector.Opening.{Layer-cases, MadeDir-cases}
use d_app_libe.Zmq.Library.{Zmq, ZmqLaws, SocketType, SocketOption}
use d_app_libe.Zmq.Endpoints.{ipc_path}
use d_app_libe.Zmq.Connector.{ZmqE3Connector}
use d_app_libe.Zmq.Sockets.{
  setup_ipc_permissions, make_directory, set_options, bind_with, open_socket, close_if, unlink_if,
  destroy_if, remove_files,
}

module _ {W : Type 0} (os : Os W) (zmq : Zmq W) (laws : ZmqLaws os zmq) where
  open laws use {is_open}

  abbrev pub Same : W → W → Type 0
  Same w w' = (q : ℕ) → is_open w' q ≡ is_open w q

  -- Nothing was opened, or exactly one socket, which was not open.
  abbrev pub Opened : Option ℕ → W → W → Type 0
  Opened none w w' = Same w w'
  Opened (some s) w w' = (is_open w s ≡ false) × ((q : ℕ) → is_open w' q ≡ (q == s || is_open w q))

  setup_ipc_permissions-Same :
      (endpoint : String) (w : W) → Same w (setup_ipc_permissions os zmq endpoint w)
  unfolding setup_ipc_permissions
  setup_ipc_permissions-Same endpoint w q = elim (Option-cases (ipc_path endpoint)) [
    | inl other ↦ rw (setup_ipc_permissions, other)
    | inr (path, found) ↦ rw (setup_ipc_permissions, found) (laws.chmod_keeps path w q)
  ]

  pub make_directory-Same :
      (layer : TransportLayer) (w : W) → Same w (make_directory os zmq layer w).1
  unfolding make_directory
  make_directory-Same TransportLayer.sctp w q = refl
  make_directory-Same TransportLayer.tcp w q = refl
  make_directory-Same TransportLayer.ipc w q =
      let looked = laws.stat_keeps ipc_base_dir w q in
      elim (Bool-cases (os.stat ipc_base_dir w).0) [
        | inl there ↦
            rw there
              (laws.chown_keeps ipc_base_dir _ q ∙ laws.chmod_keeps ipc_base_dir _ q ∙ looked)
        | inr missing ↦
            let w1 = (os.stat ipc_base_dir w).1 in
            let tried = laws.mkdir_keeps ipc_base_dir w1 q ∙ looked in
            elim (MadeDir-cases (os.mkdir ipc_base_dir w1).0) [
              | inl failed ↦ rw (missing, failed) tried
              | inr (inl made) ↦
                  rw (missing, made)
                    (laws.chown_keeps ipc_base_dir _ q ∙ laws.chmod_keeps ipc_base_dir _ q ∙ tried)
              | inr (inr existed) ↦ rw (missing, existed) tried
            ]
      ]

  set_options-Same :
      (options : List SocketOption) (sock : ℕ) (w : W) → Same w (set_options os zmq options sock w)
  unfolding set_options
  set_options-Same [] sock w q = refl
  set_options-Same (o ∷ options) sock w q =
      set_options-Same options sock (zmq.setsockopt sock o w) q ∙ laws.setsockopt_keeps sock o w q

  bind_with-Same :
      (options : List SocketOption) (layer : TransportLayer) (endpoint : String) (sock : ℕ) (w : W)
      → Same w (bind_with os zmq options layer endpoint sock w).1
  unfolding bind_with
  bind_with-Same options layer endpoint sock w q =
      let w1 = set_options os zmq options sock w in
      let bound = laws.bind_keeps sock endpoint w1 q ∙ set_options-Same options sock w q in
      elim (Bool-cases (zmq.bind sock endpoint w1).0) [
        | inl good ↦ elim (Layer-cases layer) [
          | inl ipc ↦ rw (bind_with, good, ipc) (setup_ipc_permissions-Same endpoint _ q ∙ bound)
          | inr (inl sctp) ↦ rw (bind_with, good, sctp) bound
          | inr (inr tcp) ↦ rw (bind_with, good, tcp) bound
        ]
        | inr bad ↦ rw (bind_with, bad) bound
      ]

  pub open_socket-Opened :
      (context : ℕ) (kind : SocketType) (options : List SocketOption) (layer : TransportLayer)
      (endpoint : String) (w : W)
      → let (made, good, w') = open_socket os zmq context kind options layer endpoint w in
        Opened made w w'
  unfolding open_socket
  open_socket-Opened context kind options layer endpoint w =
      elim (Option-cases (zmq.socket context kind w).0) [
        | inl failed ↦ rw (open_socket, failed) (λ q. laws.socket_none context kind w q failed)
        | inr (s, made) ↦
            rw (open_socket, made)
              (
                laws.socket_fresh context kind w s made,
                λ q.
                    bind_with-Same options layer endpoint s _ q
                    ∙ laws.socket_some context kind w q s made,
              )
      ]

  pub close_if-closes :
      (o : Option ℕ) (w : W) (q : ℕ)
      → is_open (close_if os zmq o w) q ≡ (is_open w q && not (holds o q))
  close_if-closes none w q = ground (arith)
  close_if-closes (some s) w q = laws.close_closes s w q

  pub destroy_if-Same : (o : Option ℕ) (w : W) → Same w (destroy_if os zmq o w)
  destroy_if-Same none w q = refl
  destroy_if-Same (some x) w q = laws.ctx_destroy_keeps x w q

  unlink_if-Same : (o : Option String) (w : W) → Same w (unlink_if os zmq o w)
  unlink_if-Same none w q = refl
  unlink_if-Same (some String.[]) w q = refl
  unlink_if-Same (some (String.◌∷◌ c s)) w q = laws.unlink_keeps (String.◌∷◌ c s) w q

  pub remove_files-Same : (c : ZmqE3Connector) (w : W) → Same w (remove_files os zmq c w)
  unfolding remove_files
  remove_files-Same c w q = elim (Layer-cases c.transport_layer) [
    | inl ipc ↦
        rw (remove_files, ipc)
          (laws.rmdir_keeps ipc_base_dir _ q
            ∙ unlink_if-Same _ _ q
            ∙ unlink_if-Same _ _ q
            ∙ unlink_if-Same (ipc_path c.setup_endpoint) w q)
    | inr (inl sctp) ↦ rw (remove_files, sctp)
    | inr (inr tcp) ↦ rw (remove_files, tcp)
  ]

  -- Three sockets against what was open at `w0`: nothing of that is lost, nothing else is open but
  -- the three, and they were not.
  pub record NoLeak (w0 : W) (a b d : Option ℕ) (w : W) : Type 0 where
    pub kept : (q : ℕ) → is_open w0 q ≡ true → is_open w q ≡ true
    pub only :
        (q : ℕ) → is_open w q ≡ true → (holds a q || holds b q || holds d q || is_open w0 q) ≡ true
    pub fresh : (q : ℕ) → (holds a q || holds b q || holds d q) ≡ true → is_open w0 q ≡ false

  module _ (w0 : W) where
    pub NoLeak-rotate : {a b d : Option ℕ} {w : W} → NoLeak w0 a b d w → NoLeak w0 b d a w
    NoLeak-rotate h = record {
      kept = h.kept;
      only = λ q e. ground (arith, h.only q);
      fresh = λ q e. ground (arith, h.fresh q);
    }

    pub NoLeak-Same :
        {a b d : Option ℕ} {w w' : W} → NoLeak w0 a b d w → Same w w' → NoLeak w0 a b d w'
    NoLeak-Same h same = record {
      kept = λ q e. same q ∙ h.kept q e;
      only = λ q e. h.only q (sym (same q) ∙ e);
      fresh = h.fresh;
    }

    pub NoLeak-close :
        {b d : Option ℕ} (a : Option ℕ) {w : W}
        → NoLeak w0 a b d w
        → NoLeak w0 none b d (close_if os zmq a w)
    NoLeak-close a {w} h = record {
      kept = λ q e. ground (arith, close_if-closes a w q, h.kept q, h.fresh q);
      only = λ q e. ground (arith, close_if-closes a w q, h.only q);
      fresh = λ q e. ground (arith, h.fresh q);
    }

    pub NoLeak-open :
        {b d : Option ℕ} (a : Option ℕ) {w w' : W}
        → NoLeak w0 none b d w
        → Opened a w w'
        → NoLeak w0 a b d w'
    NoLeak-open none h o = NoLeak-Same h o
    NoLeak-open (some s) {w} h o = record {
      kept = λ q e. ground (arith, o.1 q, h.kept q);
      only = λ q e. ground (arith, o.1 q, h.only q);
      fresh = λ q e. elim (Bool-cases (is_open w0 q)) [
        | inl before ↦ let closed = o.0 in ground (arith, h.kept q before, h.fresh q)
        | inr not_before ↦ not_before
      ];
    }

    pub NoLeak-none : {w : W} → NoLeak w0 none none none w → (q : ℕ) → is_open w q ≡ is_open w0 q
    NoLeak-none {w} h q = ground (arith, h.kept q, h.only q)
