-- ===== src/Posix/Tests.antt =====
-- A stream that takes at most five octets and gives one, and the theorems there.
use d_app_libe.Base.{
  none, sym, ◌&&◌, ◌||◌, not, Bool, true, false, ◌==◌, ℕ, zero, suc, ◌%◌, ◌^◌, ◌≤◌, ◌<◌, ◌≡◌, refl,
  inr, if◌then◌else◌, ltb, Option, some, List, [], ◌∷◌, ◌++◌, length, take, arith,
}
use d_app_libe.Types.{ErrorCode, TransportLayer}
use d_app_libe.Posix.Os.{Os, OsLaws, Family, MadeDir, Polled, Accepted, Arrived}
use d_app_libe.Posix.Connector.{construct, strip_uri_prefix, after_separator}
use d_app_libe.Posix.Sockets.{
  setup_initial_connection, dispose, open_listener, make_directory, bound_socket, listening,
}
use d_app_libe.Posix.Connector.Descriptors.{dispose-setup_initial_connection}
use d_app_libe.Posix.Stream.{Stream, StreamLaws}
use d_app_libe.Posix.Framing.{
  min, network_order, send_in_chunks, recv_with_size, send_chunk, send_rest,
}
use d_app_libe.Posix.Framing.Sent.{Takes, send_in_chunks-Takes}
use d_app_libe.Posix.Framing.Received.{Receives, recv_with_size-send_in_chunks}

abbrev Pipe : Type 0
Pipe = List ℕ × List ℕ

abbrev at_most_five : ℕ → ℕ
at_most_five n = if ltb 5 n then 5 else n

abbrev give_one : ℕ → Pipe → Option (List ℕ) × Pipe
give_one zero p = (some [], p)
give_one (suc n) (o, []) = (some [], (o, []))
give_one (suc n) (o, x ∷ xs) = (some (x ∷ []), (o, xs))

abbrev pipe : Stream Pipe
pipe = record {
  send = λ octets p. let n = at_most_five (length octets) in (some n, (p.0 ++ take n octets, p.1));
  recv = give_one;
}

give_one-gives :
    (n : ℕ) (p : Pipe)
    → 0 < n
    → 0 < length p.1
    → (b : ℕ) × (bs : List ℕ) × ((give_one n p).0 ≡ some (b ∷ bs))
      × (length (b ∷ bs) ≤ n)
      × (p.1 ≡ (b ∷ bs) ++ (give_one n p).1.1)
give_one-gives zero p h k = absurd (omega arith)
give_one-gives (suc n) (o, []) h k = absurd (omega arith)
give_one-gives (suc n) (o, x ∷ xs) h k = (x, [], refl, omega arith, refl)

at_most_five-bounds : (n : ℕ) → 0 < n → (0 < at_most_five n) × (at_most_five n ≤ n)
at_most_five-bounds n h = ground arith

pipe-StreamLaws : StreamLaws pipe
pipe-StreamLaws = record {
  outgoing = λ p. p.0;
  incoming = λ p. p.1;
  send_part = λ octets p h.
      let bounds = at_most_five-bounds (length octets) h in
      inr (at_most_five (length octets), refl, bounds.0, bounds.1, refl);
  recv_part = give_one-gives;
}

abbrev message : List ℕ
message = 1 ∷ 2 ∷ 3 ∷ 4 ∷ 5 ∷ 6 ∷ 7 ∷ []

send_in_chunks-Takes_example :
    Takes pipe pipe-StreamLaws
      (send_in_chunks pipe message ([], []))
      7
      ([], [])
      (network_order (length message % 2 ^ 32) ++ message)
send_in_chunks-Takes_example = send_in_chunks-Takes pipe pipe-StreamLaws message ([], [])

abbrev framed : List ℕ
framed = 0 ∷ 0 ∷ 0 ∷ 7 ∷ message

recv_with_size-send_in_chunks_example :
    Receives pipe pipe-StreamLaws (recv_with_size pipe ([], framed ++ (9 ∷ []))) message (9 ∷ [])
unfolding send_in_chunks send_chunk send_rest min network_order pipe-StreamLaws
recv_with_size-send_in_chunks_example =
    recv_with_size-send_in_chunks pipe pipe pipe-StreamLaws pipe-StreamLaws message (9 ∷ []) 7
      ([], []) (framed, []) ([], framed ++ (9 ∷ [])) refl refl refl (omega arith) (omega arith)

-- A system with one descriptor, the number 3, whose state is whether it is open.
abbrev one_socket : Os Bool
one_socket = record {
  stat = λ s w. (false, w);
  mkdir = λ s w. (MadeDir.made, w);
  chmod = λ s w. w;
  unlink = λ s w. w;
  rmdir = λ s w. w;
  socket = λ f w. if w then (none, true) else (some 3, true);
  bind = λ fd a w. (true, w);
  listen = λ fd w. (true, w);
  poll = λ fd w. (Polled.ready, w);
  accept = λ fd w. (Accepted.refused, w);
  recv = λ fd n w. (Arrived.later, w);
  close = λ fd w. w && not (fd == 3);
  shutdown_socket = λ fd w. w;
  asked = λ w. false;
}

abbrev three : Bool → ℕ → Bool
three w q = w && q == 3

makes_none :
    (f : Family) (w : Bool) (q : ℕ)
    → (one_socket.socket f w).0 ≡ none
    → three (one_socket.socket f w).1 q ≡ three w q
makes_none f true q e = refl
makes_none f false q e = cc

makes_three :
    (f : Family) (w : Bool) (q fd : ℕ)
    → (one_socket.socket f w).0 ≡ some fd
    → three (one_socket.socket f w).1 q ≡ (q == fd || three w q)
makes_three f true q fd e = cc
makes_three f false q fd e = let same : 3 ≡ fd = cc in rw (sym same) (ground arith)

makes_fresh :
    (f : Family) (w : Bool) (fd : ℕ) → (one_socket.socket f w).0 ≡ some fd → three w fd ≡ false
makes_fresh f true fd e = cc
makes_fresh f false fd e = refl

closes_three :
    (fd : ℕ) (w : Bool) (q : ℕ) → three (one_socket.close fd w) q ≡ (three w q && not (q == fd))
closes_three fd w q = ground arith

one_socket-OsLaws : OsLaws one_socket
one_socket-OsLaws = record {
  is_open = three;
  stat_keeps = λ s w q. refl;
  mkdir_keeps = λ s w q. refl;
  chmod_keeps = λ s w q. refl;
  unlink_keeps = λ s w q. refl;
  rmdir_keeps = λ s w q. refl;
  bind_keeps = λ fd a w q. refl;
  listen_keeps = λ fd w q. refl;
  socket_none = makes_none;
  socket_some = makes_three;
  socket_fresh = makes_fresh;
  close_closes = closes_three;
}

dispose-setup_initial_connection_example :
    let c = construct TransportLayer.ipc "ipc:///tmp/dapps/setup" "" "" 9990 9999 9991 in
    let (code, c', w') = setup_initial_connection one_socket c false in
    one_socket-OsLaws.is_open (dispose one_socket c' w').1 3 ≡ one_socket-OsLaws.is_open false 3
dispose-setup_initial_connection_example =
    dispose-setup_initial_connection one_socket one_socket-OsLaws TransportLayer.ipc
      "ipc:///tmp/dapps/setup" "" "" 9990 9999 9991 false 3

strips : strip_uri_prefix "ipc:///tmp/dapps/setup" ≡ "/tmp/dapps/setup"
unfolding strip_uri_prefix after_separator
strips = refl

listens :
    (setup_initial_connection one_socket (construct TransportLayer.tcp "a" "" "" 1 2 3) false).0
    ≡ ErrorCode.success
unfolding setup_initial_connection construct open_listener make_directory bound_socket listening
listens = refl
