-- ===== src/Netlink/InetDiag/Dumped.antt =====
-- internal/netlink/inet_diag.go: what comes of the dump that a kernel sends.
use elevpn.Prelude.{
  ℕ, zero, suc, ◌+◌, ◌-◌, ◌≤◌, ◌<◌, ◌≡◌, ◌≢◌, refl, sym, ap, ◌∙◌, true, not, ◌==◌, of_ge, of_ne,
  ==_iff, if◌then◌else◌, some, List, [], ◌∷◌, ◌++◌, append_assoc, append-nil, map, length, take,
  take_long, All, length-append, ok, inl, inr, Bool-cases, arith,
}
use elevpn.Bytes.{Bytes, ByteOrder}
use elevpn.Protocol.Payload.{Addr, v4}
use elevpn.Netlink.Wire.{nl_msg}
use elevpn.Netlink.Wire.Read.{
  NlMessage, IsSendableMessage, send_all, msg_length-nl_msg, msg_type-nl_msg, msg_seq-nl_msg,
  payload-nl_msg,
}
use elevpn.Netlink.Acks.{datagram, buffer_len}
use elevpn.Netlink.Acks.Messages.{header_fits, datagram_fits, message_end, length-bytes}
use elevpn.Netlink.InetDiag.{
  more, finished, diag_payload, diag_switch, diag_message, diag_messages, wait_established,
}
use elevpn.Netlink.InetDiag.Sockets.{
  DiagSocket, socket_payload, IsSocket, is_established, established, established-append, with_found,
  diag_payload-socket,
}

-- A message of a dump: a socket under the sequence of the request, or a message of another sequence.
pub data DiagEntry : Type 0 where
  socket : (flags : ℕ) → DiagSocket → DiagEntry
  foreign : NlMessage → DiagEntry

abbrev sockets : List DiagEntry → List DiagSocket
sockets [] = []
sockets (socket flags s ∷ es) = s ∷ sockets es
sockets (foreign m ∷ es) = sockets es

module _ (want : ℕ) where
  abbrev pub entry_message : DiagEntry → NlMessage
  entry_message (socket flags s) = record {
    msg_type = 20;
    flags = flags;
    seq = want;
    payload = socket_payload s;
  }
  entry_message (foreign m) = m

  abbrev IsEntryOf : DiagEntry → Type 0
  IsEntryOf (socket flags s) = IsSocket s
  IsEntryOf (foreign m) = m.seq ≢ want

  -- The kernel can send the message.
  abbrev pub IsDiagEntry : DiagEntry → Type 0
  IsDiagEntry e = IsSendableMessage (entry_message e) × IsEntryOf e

module _ (o : ByteOrder) (want port : ℕ) where
  module _ (m : NlMessage) (h : IsSendableMessage m) (rest : Bytes) where
    abbrev front : Bytes
    front = nl_msg o m.seq m.msg_type m.flags m.payload ++ rest

    -- The length is right, so the sequence and the type decide.
    diag_message_lem :
        (result : List Addr)
        → diag_message o want port result front
          ≡ (if not (m.seq == want) then ok (more result) else diag_switch o port result front)
    unfolding diag_message
    diag_message_lem result =
        rw (header_fits o m h rest, datagram_fits o m h rest)
          (rw (msg_seq-nl_msg o m h.0 rest) refl)

    diag_switch-socket :
        (result : List Addr)
        → m.msg_type ≡ 20
        → diag_switch o port result front ≡ ok (more (diag_payload port result m.payload))
    unfolding diag_switch
    diag_switch-socket result t = rw (msg_type-nl_msg o m h.0 rest ∙ t) (
        rw (msg_length-nl_msg o m h.0 rest) (
          ap (λ (p : Bytes). ok (more (diag_payload port result p))) (payload-nl_msg o m h.0 rest)))

  abbrev with_entry : List Addr → DiagEntry → List Addr
  with_entry result (socket flags s) = with_found port result s
  with_entry result (foreign m) = result

  diag_message-entry :
      (e : DiagEntry) (h : IsDiagEntry want e) (rest : Bytes) (result : List Addr)
      → let m = entry_message want e in
        diag_message o want port result (nl_msg o m.seq m.msg_type m.flags m.payload ++ rest)
        ≡ ok (more (with_entry result e))
  diag_message-entry (foreign m) h rest result =
      diag_message_lem m h.0 rest result ∙ rw (of_ne m.seq want h.1) refl
  diag_message-entry (socket flags s) h rest result =
      let m = entry_message want (socket flags s) in
      let own : (want == want) ≡ true = (==_iff want want).1 refl in
      diag_message_lem m h.0 rest result
      ∙ rw own (diag_switch-socket m h.0 rest result refl)
      ∙ ap (λ (r : List Addr). ok (more r)) (diag_payload-socket port result s h.1)

  with_entry-established :
      (result : List Addr) (x : DiagEntry) (es : List DiagEntry)
      → with_entry result x ++ established port (sockets es)
        ≡ result ++ established port (sockets (x ∷ es))
  unfolding established
  with_entry-established result (foreign m) es = refl
  with_entry-established result (socket flags s) es = elim (Bool-cases (is_established port s)) [
    | inl t ↦ rw t (append_assoc result (v4 s.remote ∷ []) (established port (sockets es)))
    | inr f ↦ rw f refl
  ]

  abbrev entries_bytes : List DiagEntry → Bytes
  entries_bytes es = send_all o (map (entry_message want) es)

  -- One round of the loop, at an entry.
  diag_messages-entry :
      (x : DiagEntry) (fuel : ℕ) (result : List Addr) (rest : Bytes)
      → IsDiagEntry want x
      → let m = entry_message want x in
        diag_messages o want port
          (suc fuel)
          result
          (nl_msg o m.seq m.msg_type m.flags m.payload ++ rest)
        ≡ diag_messages o want port fuel (with_entry result x) rest
  unfolding diag_messages
  diag_messages-entry x fuel result rest h =
      let m = entry_message want x in
      let size = length-bytes o m h.0 rest in
      rw
        (
          of_ge (length (nl_msg o m.seq m.msg_type m.flags m.payload ++ rest)) 16
              (omega (arith, size)),
          diag_message-entry x h rest result,
        )
        (rw (msg_length-nl_msg o m h.0.0 rest)
          (ap (diag_messages o want port fuel (with_entry result x)) (message_end o m h.0 rest)))

  -- The messages of a datagram, up to what is behind them.
  diag_messages-entries :
      (es : List DiagEntry) (fuel left : ℕ) (result : List Addr) (tail : Bytes)
      → All (IsDiagEntry want) es
      → fuel ≡ length es + left
      → diag_messages o want port fuel result (entries_bytes es ++ tail)
        ≡ diag_messages o want port left (result ++ established port (sockets es)) tail
  diag_messages-entries [] fuel left result tail h e =
      let e' : fuel ≡ left = omega arith in
      rw e' (
        ap (λ (r : List Addr). diag_messages o want port left r tail)
          (unfold established in sym (append-nil result)))
  diag_messages-entries (x ∷ es) zero left result tail h e = absurd (omega arith)
  diag_messages-entries (x ∷ es) (suc fuel) left result tail h e =
      let m = entry_message want x in
      let one = nl_msg o m.seq m.msg_type m.flags m.payload in
      ap (diag_messages o want port (suc fuel) result) (append_assoc one (entries_bytes es) tail)
      ∙ diag_messages-entry x fuel result (entries_bytes es ++ tail) h.0
      ∙ diag_messages-entries es fuel left (with_entry result x) tail h.1 (omega arith)
      ∙ ap (λ (r : List Addr). diag_messages o want port left r tail)
          (with_entry-established result x es)

  length-entries_bytes :
      (es : List DiagEntry) → All (IsDiagEntry want) es → length es ≤ length (entries_bytes es)
  length-entries_bytes [] h = omega arith
  length-entries_bytes (x ∷ es) h = omega (
    arith,
    length-bytes o (entry_message want x) h.0.0 (entries_bytes es),
    length-entries_bytes es h.1,
  )

  -- The kernel can send the messages, and they fit in the buffer.
  abbrev pub IsDiagDatagram : List DiagEntry → Type 0
  IsDiagDatagram es = All (IsDiagEntry want) es × (length (entries_bytes es) ≤ buffer_len)

  no_rest : (left : ℕ) (r : List Addr) → diag_messages o want port left r [] ≡ some (ok (more r))
  unfolding diag_messages
  no_rest zero r = refl
  no_rest (suc left) r = refl

  -- A datagram in the middle of a dump.
  middle_datagram :
      (es : List DiagEntry) (result : List Addr)
      → IsDiagDatagram es
      → let buf = take buffer_len (entries_bytes es) in
        diag_messages o want port (length buf) result buf
        ≡ some (ok (more (result ++ established port (sockets es))))
  middle_datagram es result h =
      let n = length (entries_bytes es) in
      let enough = length-entries_bytes es h.0 in
      rw (take_long buffer_len (entries_bytes es) h.1) (
        ap (diag_messages o want port n result) (sym (append-nil (entries_bytes es)))
        ∙ diag_messages-entries es n (n - length es) result [] h.0 (omega (arith, enough))
        ∙ no_rest (n - length es) (result ++ established port (sockets es)))

  -- NLMSG_DONE, with its errno and more.
  abbrev pub done_message : ℕ → Bytes → NlMessage
  done_message flags payload = record { msg_type = 3; flags = flags; seq = want; payload = payload }

  at_done :
      (fuel flags : ℕ) (payload rest : Bytes) (result : List Addr)
      → IsSendableMessage (done_message flags payload)
      → 0 < fuel
      → diag_messages o want port fuel result (nl_msg o want 3 flags payload ++ rest)
        ≡ some (ok (finished result))
  unfolding diag_messages diag_switch
  at_done zero flags payload rest result h pos = absurd (omega arith)
  at_done (suc fuel) flags payload rest result h pos =
      let m = done_message flags payload in
      let own : (want == want) ≡ true = (==_iff want want).1 refl in
      rw
        (
          of_ge (length (nl_msg o want 3 flags payload ++ rest)) 16
              (omega (arith, length-bytes o m h rest)),
          diag_message_lem m h rest result,
          own,
          msg_type-nl_msg o m h.0 rest,
        )
        refl

  last_datagram :
      (es : List DiagEntry) (flags : ℕ) (payload rest : Bytes) (result : List Addr)
      → All (IsDiagEntry want) es
      → IsSendableMessage (done_message flags payload)
      → let bs = entries_bytes es ++ (nl_msg o want 3 flags payload ++ rest) in
        length bs ≤ buffer_len
        → let buf = take buffer_len bs in
          diag_messages o want port (length buf) result buf
          ≡ some (ok (finished (result ++ established port (sockets es))))
  last_datagram es flags payload rest result h k size =
      let done = nl_msg o want 3 flags payload ++ rest in
      let n = length (entries_bytes es ++ done) in
      let more_left : length es < n = omega (
        arith,
        length-entries_bytes es h,
        length-append (entries_bytes es) done,
        length-bytes o (done_message flags payload) k rest,
      ) in
      rw (take_long buffer_len (entries_bytes es ++ done) size) (
        diag_messages-entries es n (n - length es) result done h (omega (arith, more_left))
        ∙ at_done (n - length es) flags payload rest (result ++ established port (sockets es)) k
            (omega (arith, more_left)))

  abbrev pub all_sockets : List (List DiagEntry) → List DiagSocket
  all_sockets [] = []
  all_sockets (es ∷ later) = sockets es ++ all_sockets later

  dump_from :
      (ds : List (List DiagEntry)) (last : List DiagEntry) (flags : ℕ) (payload rest : Bytes)
      (result : List Addr)
      → All IsDiagDatagram ds
      → All (IsDiagEntry want) last
      → IsSendableMessage (done_message flags payload)
      → let bs = entries_bytes last ++ (nl_msg o want 3 flags payload ++ rest) in
        length bs ≤ buffer_len
        → wait_established o want port result
            (map (λ es. datagram (entries_bytes es)) ds ++ (datagram bs ∷ []))
          ≡ some (ok (result ++ established port (all_sockets ds ++ sockets last)))
  unfolding wait_established
  dump_from [] last flags payload rest result h l k size =
      rw (last_datagram last flags payload rest result l k size) refl
  dump_from (es ∷ ds) last flags payload rest result h l k size =
      rw (middle_datagram es result h.0) (
        dump_from ds last flags payload rest (result ++ established port (sockets es)) h.1 l k size
        ∙ ap (λ r. some (ok r))
            (append_assoc result (established port (sockets es)) _
              ∙ ap (λ (t : List Addr). result ++ t)
                  (sym (established-append port (sockets es) (all_sockets ds ++ sockets last))
                    ∙ ap (established port)
                        (sym (append_assoc (sockets es) (all_sockets ds) (sockets last))))))

  -- From a dump of the kernel, however it is spread over datagrams and whatever messages of other sequences are
  -- in between, come the remote addresses of exactly the established IPv4 connections of the local port, in
  -- the order of the dump, up to NLMSG_DONE. What is behind that is not read.
  pub wait_established-dump :
      (ds : List (List DiagEntry)) (last : List DiagEntry) (flags : ℕ) (payload rest : Bytes)
      → All IsDiagDatagram ds
      → All (IsDiagEntry want) last
      → IsSendableMessage (done_message flags payload)
      → let bs = entries_bytes last ++ (nl_msg o want 3 flags payload ++ rest) in
        length bs ≤ buffer_len
        → wait_established o want port []
            (map (λ es. datagram (entries_bytes es)) ds ++ (datagram bs ∷ []))
          ≡ some (ok (established port (all_sockets ds ++ sockets last)))
  wait_established-dump ds last flags payload rest = dump_from ds last flags payload rest []
