-- ===== src/Netlink/InetDiag.antt =====
-- internal/netlink/inet_diag.go: the remote addresses of the established TCP connections to a local port.
pub mod Sockets
pub mod Dumped
use elevpn.Prelude.{
  ℕ, zero, suc, ◌+◌, Bool, not, ◌&&◌, ◌==◌, ltb, leb, if◌then◌else◌, Option, none, some, List, [],
  ◌∷◌, ◌++◌, length, get_or, take, drop, replicate, Error, external, fault, wrap, wrapping,
  response_timeout, buffer_overflow, invalid_netlink_reply, short_nlmsg_error, netlink_errno,
  Result, ok, err, ◌>>=◌, ◌>>◌,
}
use elevpn.Bytes.{Bytes, ByteOrder, be, put_ne}
use elevpn.Protocol.Payload.{Addr, v4}
use elevpn.Netlink.Wire.{
  nlmsg_hdrlen, nlmsg_error, nlmsg_done, align4, nl_msg, nlm_f_request, nlm_f_dump,
}
use elevpn.Netlink.Acks.{
  Received, datagram, interrupted, would_block, no_buffers, failed, buffer_len, unless_err,
  unless_out, msg_length, msg_type, msg_seq, msg_errno, Kernel, open_netlink,
}

abbrev pub sock_diag_by_family : ℕ
sock_diag_by_family = 20

abbrev pub tcp_established : ℕ
tcp_established = 1

pub record InetDiagReqV2 : Type 0 where
  pub family : ℕ
  pub protocol : ℕ
  pub ext : ℕ
  pub pad : ℕ
  pub states : ℕ
  pub sockid : Bytes

-- AF_INET, IPPROTO_TCP, and the bit of the one state.
abbrev pub new_inet_diag_req_v2 : InetDiagReqV2
new_inet_diag_req_v2 = record {
  family = 2;
  protocol = 6;
  ext = 0;
  pad = 0;
  states = 2;
  sockid = replicate 48 0;
}

-- Whether the loop over a dump has met its end, with what was found.
pub data Dump {ℓ} (A : Type ℓ) : Type ℓ where
  more finished : A → Dump A

-- A payload of SOCK_DIAG_BY_FAMILY: `append(result, ...)` if it is of such a connection.
unfoldable pub diag_payload : ℕ → List Addr → Bytes → List Addr
diag_payload port result payload =
    if leb 28 (length payload)
      && (get_or payload 0 0 == 2
          && (get_or payload 1 0 == tcp_established && be (take 2 (drop 4 payload)) == port))
    then result ++ (v4 (take 4 (drop 24 payload)) ∷ [])
    else result

module _ (o : ByteOrder) where
  unfoldable pub build_inet_diag_req_v2 : InetDiagReqV2 → Bytes
  build_inet_diag_req_v2 req =
      req.family ∷ req.protocol ∷ req.ext ∷ req.pad ∷ put_ne o 4 req.states ++ req.sockid

  -- The switch over the type of a message of the sequence, at the rest of the datagram.
  unfoldable pub diag_switch : ℕ → List Addr → Bytes → Result (Dump (List Addr))
  diag_switch port result bs =
      if msg_type o bs == nlmsg_done
      then ok (finished result)
      else if msg_type o bs == nlmsg_error
      then (if ltb (msg_length o bs) (nlmsg_hdrlen + 4)
          then err (fault short_nlmsg_error)
          else if not (msg_errno o bs == 0)
          then err (fault netlink_errno)
          else ok (more result))
      else if msg_type o bs == sock_diag_by_family
      then ok (more (diag_payload port result (drop nlmsg_hdrlen (take (msg_length o bs) bs))))
      else ok (more result)

  -- The body of the loop over the messages of a datagram.
  unfoldable pub diag_message : ℕ → ℕ → List Addr → Bytes → Result (Dump (List Addr))
  diag_message want port result bs =
      if ltb (msg_length o bs) nlmsg_hdrlen
      then err (fault invalid_netlink_reply)
      else if ltb (length bs) (align4 (msg_length o bs))
      then err (fault invalid_netlink_reply)
      else if not (msg_seq o bs == want)
      then ok (more result)
      else diag_switch port result bs

-- The rest of a loop, unless the dump is at its end.
abbrev pub unless_finished {ℓ} :
    {A : Type ℓ} → (A → Option (Result (Dump A))) → Dump A → Option (Result (Dump A))
unless_finished rest (more a) = rest a
unless_finished rest (finished a) = some (ok (finished a))

abbrev pub return_finished {ℓ} :
    {A B : Type ℓ} → (A → Option (Result B)) → (A → Result B) → Dump A → Option (Result B)
return_finished rest done (more a) = rest a
return_finished rest done (finished a) = some (done a)

module _ (o : ByteOrder) (want port : ℕ) where
  -- The loop over the messages of a datagram. `none`: the fuel ran out.
  unfoldable pub diag_messages : ℕ → List Addr → Bytes → Option (Result (Dump (List Addr)))
  diag_messages zero result bs =
      if ltb (length bs) nlmsg_hdrlen then some (ok (more result)) else none
  diag_messages (suc fuel) result bs =
      let next =
        λ (found : List Addr). diag_messages fuel found (drop (align4 (msg_length o bs)) bs) in
      if ltb (length bs) nlmsg_hdrlen
      then some (ok (more result))
      else unless_err (unless_finished next) (diag_message o want port result bs)

  -- The loop over what `Recvfrom` gives. `none`: it still waits.
  unfoldable pub wait_established : List Addr → List Received → Option (Result (List Addr))
  wait_established result [] = none
  wait_established result (datagram bs ∷ later) =
      let buf = take buffer_len bs in
      unless_out (return_finished (λ found. wait_established found later) (λ found. ok found))
        (diag_messages (length buf) result buf)
  wait_established result (interrupted ∷ later) = wait_established result later
  wait_established result (would_block ∷ later) = some (err (fault response_timeout))
  wait_established result (no_buffers ∷ later) = some (err (fault buffer_overflow))
  wait_established result (failed ∷ later) = some (err (wrap external))

-- `GetEstablishedTCPRemoteIPsByLocalPort`: the timeout of the socket is set after the request is sent.
unfoldable pub get_established : ByteOrder → Kernel → ℕ → Option (Result (List Addr))
get_established o k port =
    let packet =
      nl_msg o 1 sock_diag_by_family (nlm_f_request + nlm_f_dump)
        (build_inet_diag_req_v2 o new_inet_diag_req_v2) in
    unless_err (λ (_ : Unit {0}). wait_established o 1 port [] k.received)
      (open_netlink k >> (k.send packet >> wrapping k.timeout))
