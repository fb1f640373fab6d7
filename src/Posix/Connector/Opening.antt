-- ===== src/Posix/Connector/Opening.antt =====
-- Which descriptors are open after a listening socket was made.
use Prim.Native.String.{String}
use d_app_libe.Base.{
  ℕ, Bool, true, false, ◌&&◌, ◌||◌, ◌==◌, ◌≡◌, refl, sym, ap, ◌∙◌, Option, none, some, Option-cases,
  Bool-cases, inl, inr, ◌⊎◌, ==_iff,
}
use d_app_libe.Types.{TransportLayer}
use d_app_libe.Posix.Os.{Os, OsLaws, Family, MadeDir}
use d_app_libe.Posix.Connector.{ipc_base_dir, first}
use d_app_libe.Posix.Sockets.{make_directory, bound_socket, listening, open_listener}

pub MadeDir-cases :
    (m : MadeDir) → (m ≡ MadeDir.not_made) ⊎ ((m ≡ MadeDir.made) ⊎ (m ≡ MadeDir.existed))
MadeDir-cases MadeDir.made = inr (inl refl)
MadeDir-cases MadeDir.existed = inr (inr refl)
MadeDir-cases MadeDir.not_made = inl refl

pub Layer-cases :
    (l : TransportLayer)
    → (l ≡ TransportLayer.ipc) ⊎ ((l ≡ TransportLayer.sctp) ⊎ (l ≡ TransportLayer.tcp))
Layer-cases TransportLayer.sctp = inr (inl refl)
Layer-cases TransportLayer.tcp = inr (inr refl)
Layer-cases TransportLayer.ipc = inl refl

pub and_true : (b : Bool) → (b && true) ≡ b
and_true true = refl
and_true false = refl

module _ {W : Type 0} (os : Os W) (laws : OsLaws os) where
  -- Nothing was opened, or exactly one descriptor, which was not open.
  abbrev pub Opened : Option ℕ → W → W → Type 0
  Opened none w w' = (q : ℕ) → laws.is_open w' q ≡ laws.is_open w q
  Opened (some fd) w w' =
      (laws.is_open w fd ≡ false) × ((q : ℕ) → laws.is_open w' q ≡ (q == fd || laws.is_open w q))

  make_directory-keeps :
      (layer : TransportLayer) (w : W) (q : ℕ)
      → laws.is_open (make_directory os layer w).1 q ≡ laws.is_open w q
  unfolding make_directory
  make_directory-keeps TransportLayer.sctp w q = refl
  make_directory-keeps TransportLayer.tcp w q = refl
  make_directory-keeps TransportLayer.ipc w q =
      let looked = laws.stat_keeps ipc_base_dir w q in
      elim (Bool-cases (os.stat ipc_base_dir w).0) [
        | inl there ↦ rw there (laws.chmod_keeps ipc_base_dir _ q ∙ looked)
        | inr missing ↦
            let w1 = (os.stat ipc_base_dir w).1 in
            let tried = laws.mkdir_keeps ipc_base_dir w1 q ∙ looked in
            elim (MadeDir-cases (os.mkdir ipc_base_dir w1).0) [
              | inl failed ↦ rw (missing, failed) tried
              | inr (inl made) ↦ rw (missing, made) (laws.chmod_keeps ipc_base_dir _ q ∙ tried)
              | inr (inr existed) ↦
                  rw (missing, existed) (laws.chmod_keeps ipc_base_dir _ q ∙ tried)
            ]
      ]

  -- A socket that was made, and then other calls.
  socket-Opened :
      (f : Family) (w w' : W)
      → ((q : ℕ) → laws.is_open w' q ≡ laws.is_open (os.socket f w).1 q)
      → Opened (os.socket f w).0 w w'
  socket-Opened f w w' keeps = elim (Option-cases (os.socket f w).0) [
    | inl failed ↦ rw failed (λ q. keeps q ∙ laws.socket_none f w q failed)
    | inr (fd, good) ↦
        rw good (laws.socket_fresh f w fd good, λ q. keeps q ∙ laws.socket_some f w q fd good)
  ]

  bound_socket-Opened :
      (layer : TransportLayer) (endpoint : String) (port : ℕ) (w : W)
      → Opened (bound_socket os layer endpoint port w).0 w (bound_socket os layer endpoint port w).2
  unfolding bound_socket first
  bound_socket-Opened TransportLayer.sctp endpoint port w =
      socket-Opened Family.inet_sctp w _ (λ q. laws.bind_keeps _ _ _ q)
  bound_socket-Opened TransportLayer.tcp endpoint port w =
      socket-Opened Family.inet_tcp w _ (λ q. laws.bind_keeps _ _ _ q)
  bound_socket-Opened TransportLayer.ipc endpoint port w =
      socket-Opened Family.unix w _ (λ q. laws.bind_keeps _ _ _ q ∙ laws.unlink_keeps _ _ q)

  reclosed :
      (fd q : ℕ) (w w' : W)
      → laws.is_open w fd ≡ false
      → laws.is_open w' q ≡ (q == fd || laws.is_open w q)
      → laws.is_open (os.close fd w') q ≡ laws.is_open w q
  reclosed fd q w w' fresh opened = elim (Bool-cases (q == fd)) [
    | inl same ↦
        let here : q ≡ fd = (==_iff q fd).0 same in
        rw (laws.close_closes fd w' q, opened, same) (sym (ap (laws.is_open w) here ∙ fresh))
    | inr other ↦ rw (laws.close_closes fd w' q, opened, other) (and_true (laws.is_open w q))
  ]

  listening-Opened :
      (sock : Option ℕ) (bound : Bool) (w w' : W)
      → Opened sock w w'
      → Opened (listening os sock bound w').0 w (listening os sock bound w').1
  unfolding listening
  listening-Opened none bound w w' h = h
  listening-Opened (some fd) false w w' h = λ q. reclosed fd q w w' h.0 (h.1 q)
  listening-Opened (some fd) true w w' h = elim (Bool-cases (os.listen fd w').0) [
    | inl good ↦ rw good (h.0, λ q. laws.listen_keeps fd w' q ∙ h.1 q)
    | inr bad ↦ rw bad (λ q. reclosed fd q w _ h.0 (laws.listen_keeps fd w' q ∙ h.1 q))
  ]

  after_keeping :
      (r : Option ℕ) (w w1 w2 : W)
      → ((q : ℕ) → laws.is_open w1 q ≡ laws.is_open w q)
      → Opened r w1 w2
      → Opened r w w2
  after_keeping none w w1 w2 keeps h = λ q. h q ∙ keeps q
  after_keeping (some fd) w w1 w2 keeps h =
      (sym (keeps fd) ∙ h.0, λ q. h.1 q ∙ ap (λ b. q == fd || b) (keeps q))

  pub open_listener-Opened :
      (layer : TransportLayer) (endpoint : String) (port : ℕ) (w : W)
      → Opened
          (open_listener os layer endpoint port w).0
          w
          (open_listener os layer endpoint port w).1
  unfolding open_listener
  open_listener-Opened layer endpoint port w =
      let w1 = (make_directory os layer w).1 in
      let (sock, bound, w2) = bound_socket os layer endpoint port w1 in
      elim (Bool-cases (make_directory os layer w).0) [
        | inl good ↦ rw good (
            after_keeping _ w w1 _ (make_directory-keeps layer w)
              (listening-Opened sock bound w1 w2 (bound_socket-Opened layer endpoint port w1)))
        | inr bad ↦ rw bad (make_directory-keeps layer w)
      ]
