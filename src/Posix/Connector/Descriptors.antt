-- ===== src/Posix/Connector/Descriptors.antt =====
-- Which descriptors the connector opens and closes.
use Prim.Native.String.{String}
use d_app_libe.Base.{
  ℕ, Bool, true, false, ◌&&◌, ◌||◌, not, ◌==◌, ◌≡◌, sym, ap, ◌∙◌, Option, none, some, Option-cases,
  Bool-cases, inl, inr, ◌⊎◌, ==_iff, arith,
}
use d_app_libe.Types.{ErrorCode, TransportLayer}
use d_app_libe.Posix.Os.{Os, OsLaws}
use d_app_libe.Posix.Connector.{PosixE3Connector, construct}
use d_app_libe.Posix.Sockets.{
  open_listener, setup_initial_connection, close_if, remove_files, dispose,
}
use d_app_libe.Base.Options.{holds}
use d_app_libe.Posix.Connector.Opening.{Layer-cases, and_true, Opened, open_listener-Opened}

-- Two descriptors closed, one after the other.
closes_more : (x y z a b : Bool) → z ≡ (y && not b) → y ≡ (x && not a) → z ≡ (x && not (b || a))
closes_more x y z a b e f = ground (arith)

module _ {W : Type 0} (os : Os W) (laws : OsLaws os) where
  close_if-closes :
      (sock : Option ℕ) (w : W) (q : ℕ)
      → laws.is_open (close_if os sock w) q ≡ (laws.is_open w q && not (holds sock q))
  close_if-closes none w q = sym (and_true (laws.is_open w q))
  close_if-closes (some fd) w q = laws.close_closes fd w q

  remove_files-keeps :
      (c : PosixE3Connector) (w : W) (q : ℕ)
      → laws.is_open (remove_files os c w) q ≡ laws.is_open w q
  unfolding remove_files
  remove_files-keeps c w q = elim (Layer-cases c.transport_layer) [
    | inl ipc ↦ rw ipc (
        laws.rmdir_keeps _ _ q
        ∙ laws.unlink_keeps _ _ q
        ∙ laws.unlink_keeps _ _ q
        ∙ laws.unlink_keeps _ _ q)
    | inr (inl sctp) ↦ rw sctp
    | inr (inr tcp) ↦ rw tcp
  ]

  -- The descriptors that a connector has.
  abbrev pub has : PosixE3Connector → ℕ → Bool
  has c q =
      holds c.setup_socket q
      || (holds c.outbound_socket q
          || (holds c.inbound_socket q
              || (holds c.outbound_connection_socket q
                  || (holds c.setup_connection_socket q || holds c.inbound_connection_socket q))))

  -- After dispose, exactly those descriptors are open that were open and that the connector did not
  -- have.
  pub dispose-closes :
      (c : PosixE3Connector) (w : W) (q : ℕ)
      → laws.is_open (dispose os c w).1 q ≡ (laws.is_open w q && not (has c q))
  unfolding dispose
  dispose-closes c w q =
      let w1 = close_if os c.inbound_connection_socket w in
      let w2 = close_if os c.setup_connection_socket w1 in
      let w3 = close_if os c.outbound_connection_socket w2 in
      let w4 = close_if os c.inbound_socket w3 in
      let w5 = close_if os c.outbound_socket w4 in
      let e1 = close_if-closes c.inbound_connection_socket w q in
      let e2 = close_if-closes c.setup_connection_socket w1 q in
      let e3 = close_if-closes c.outbound_connection_socket w2 q in
      let e4 = close_if-closes c.inbound_socket w3 q in
      let e5 = close_if-closes c.outbound_socket w4 q in
      let e6 = close_if-closes c.setup_socket w5 q in
      remove_files-keeps c (close_if os c.setup_socket w5) q
      ∙ closes_more _ _ _ _ _ e6 (
          closes_more _ _ _ _ _ e5
            (closes_more _ _ _ _ _ e4 (closes_more _ _ _ _ _ e3 (closes_more _ _ _ _ _ e2 e1))))

  -- The two ends of setup_initial_connection.
  setup-cases :
      (c : PosixE3Connector) (w : W)
      → ((w' : W) × (setup_initial_connection os c w ≡ (ErrorCode.connection_failed, c, w'))
          × Opened os laws none w w')
        ⊎ ((fd : ℕ) × (w' : W) × (setup_initial_connection os c w
              ≡ (ErrorCode.success, record c { setup_socket = some fd; connected = true }, w'))
            × Opened os laws (some fd) w w')
  unfolding setup_initial_connection
  setup-cases c w =
      let opened = open_listener-Opened os laws c.transport_layer c.setup_endpoint c.setup_port w in
      let (result, w') = open_listener os c.transport_layer c.setup_endpoint c.setup_port w in
      elim (Option-cases result) [
        | inl failed ↦
            let kept : Opened os laws none w w' = rw failed at opened in
            inl (w', simp (setup_initial_connection, failed), kept)
        | inr (fd, good) ↦
            let one : Opened os laws (some fd) w w' = rw good at opened in
            inr (fd, w', simp (setup_initial_connection, good), one)
      ]

  only_one :
      (fd q : ℕ) (w w' : W)
      → Opened os laws (some fd) w w'
      → (laws.is_open w' q && not (q == fd || false)) ≡ laws.is_open w q
  only_one fd q w w' (fresh, opened) = elim (Bool-cases (q == fd)) [
    | inl same ↦
        let here : q ≡ fd = (==_iff q fd).0 same in
        rw (opened q, same) (sym (ap (laws.is_open w) here ∙ fresh))
    | inr other ↦ rw (opened q, other) (and_true (laws.is_open w q))
  ]

  -- For a new connector, whatever its transport layer, endpoints and ports are and however the
  -- system calls of setup_initial_connection end, dispose after it leaves exactly those descriptors
  -- open that were open before.
  pub dispose-setup_initial_connection :
      (layer : TransportLayer) (setup inbound outbound : String) (port in_port out_port : ℕ) (w : W)
      (q : ℕ)
      → (let c = construct layer setup inbound outbound port in_port out_port in
          let (code, c', w') = setup_initial_connection os c w in
          laws.is_open (dispose os c' w').1 q ≡ laws.is_open w q)
  unfolding construct
  dispose-setup_initial_connection layer setup inbound outbound port in_port out_port w q =
      let c = construct layer setup inbound outbound port in_port out_port in
      let after : ErrorCode × PosixE3Connector × W → Bool =
        λ r. laws.is_open (dispose os r.1 r.2).1 q in
      elim (setup-cases c w) [
        | inl (w', ends, kept) ↦
            ap after ends ∙ dispose-closes c w' q ∙ and_true (laws.is_open w' q) ∙ kept q
        | inr (fd, w', ends, one) ↦
            ap after ends
            ∙ dispose-closes (record c { setup_socket = some fd; connected = true }) w' q
            ∙ only_one fd q w w' one
      ]
