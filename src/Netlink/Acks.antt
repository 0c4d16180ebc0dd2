-- ===== src/Netlink/Acks.antt =====
-- internal/netlink/socket.go: `recvAcks`, and the exchange of a request with the kernel that the operations of
-- route.go and nftable.go make.
pub mod Missing
pub mod Messages
pub mod Refined
use elevpn.Prelude.{
  ℕ, zero, suc, ◌+◌, ◌*◌, Bool, true, false, not, ◌||◌, ◌==◌, ltb, if◌then◌else◌, Option, none,
  some, List, [], ◌∷◌, length, take, drop, Error, external, fault, wrap, hide, response_timeout,
  invalid_netlink_reply, short_nlmsg_error, netlink_errno, Result, ok, err, ◌>>=◌, ◌>>◌, hiding,
  wrapping, nat_eq,
}
use elevpn.Prelude.Maps.{Map, lookup, insert}
use elevpn.Bytes.{Bytes, ByteOrder, ne}
use elevpn.Netlink.Wire.{nlmsg_hdrlen, nlmsg_error, align4}

-- `expected` and `got`.
pub record AckState : Type 0 where
  pub expected : Map ℕ Bool
  pub got : ℕ

unfoldable pub expect : List ℕ → Map ℕ Bool → Map ℕ Bool
expect [] expected = expected
expect (seq ∷ want) expected = expect want (insert seq false expected)

-- `if done, ok := expected[msgSeq]; ok && !done`
abbrev pub mark_found : AckState → ℕ → Option Bool → AckState
mark_found st seq (some false) = record { expected = insert seq true st.expected; got = st.got + 1 }
mark_found st seq (some true) = st
mark_found st seq none = st

unfoldable pub mark : AckState → ℕ → AckState
mark st seq = mark_found st seq (lookup seq st.expected)

-- What `Recvfrom` gives.
pub data Received : Type 0 where
  datagram : Bytes → Received
  -- EINTR, EAGAIN or EWOULDBLOCK, ENOBUFS, and any other error.
  interrupted would_block no_buffers failed : Received

-- The rest of a loop, unless its body returned an error.
abbrev pub unless_err {ℓ} : {A B : Type ℓ} → (A → Option (Result B)) → Result A → Option (Result B)
unless_err rest (ok a) = rest a
unless_err rest (err e) = some (err e)

abbrev pub unless_out {ℓ} :
    {A B : Type ℓ} → (A → Option (Result B)) → Option (Result A) → Option (Result B)
unless_out rest none = none
unless_out rest (some r) = unless_err rest r

abbrev pub buffer_len : ℕ
buffer_len = 64 * 1024

module _ (o : ByteOrder) where
  abbrev pub msg_length : Bytes → ℕ
  msg_length bs = ne o (take 4 bs)

  abbrev pub msg_type : Bytes → ℕ
  msg_type bs = ne o (take 2 (drop 4 bs))

  abbrev pub msg_seq : Bytes → ℕ
  msg_seq bs = ne o (take 4 (drop 8 bs))

  abbrev pub msg_errno : Bytes → ℕ
  msg_errno bs = ne o (take 4 (drop 16 bs))

  -- The body of the loop over the messages of a datagram, at the rest of the datagram.
  unfoldable pub ack_message : AckState → Bytes → Result AckState
  ack_message st bs =
      if ltb (msg_length bs) nlmsg_hdrlen || ltb (length bs) (align4 (msg_length bs))
      then err (fault invalid_netlink_reply)
      else if not (msg_type bs == nlmsg_error)
      then ok st
      else if ltb (msg_length bs) (nlmsg_hdrlen + 4)
      then err (fault short_nlmsg_error)
      else if not (msg_errno bs == 0)
      then err (fault netlink_errno)
      else ok (mark st (msg_seq bs))

  -- The loop over the messages of a datagram. `none`: the fuel ran out.
  unfoldable pub ack_messages : ℕ → AckState → Bytes → Option (Result AckState)
  ack_messages zero st bs = if ltb (length bs) nlmsg_hdrlen then some (ok st) else none
  ack_messages (suc fuel) st bs =
      let next = λ (st' : AckState). ack_messages fuel st' (drop (align4 (msg_length bs)) bs) in
      if ltb (length bs) nlmsg_hdrlen then some (ok st) else unless_err next (ack_message st bs)

  -- A message takes a byte at least, so as many rounds as there are bytes are enough.
  unfoldable pub ack_received : AckState → Received → Option (Result AckState)
  ack_received st (datagram bs) = let buf = take buffer_len bs in ack_messages (length buf) st buf
  ack_received st interrupted = some (err (wrap external))
  ack_received st would_block = some (err (fault response_timeout))
  ack_received st no_buffers = some (err (wrap external))
  ack_received st failed = some (err (wrap external))

  -- `for got < len(expected)`, over what `Recvfrom` gives. `none`: it still waits.
  unfoldable pub wait_acks : AckState → List Received → Option (Result (Unit {0}))
  wait_acks st [] = if ltb st.got (length st.expected) then none else some (ok tt)
  wait_acks st (received ∷ later) =
      let next = λ (st' : AckState). wait_acks st' later in
      if ltb st.got (length st.expected)
      then unless_out next (ack_received st received)
      else some (ok tt)

  -- The kernel's side of a socket: what `SetsockoptTimeval` and `Recvfrom` give.
  unfoldable pub recv_acks : Result (Unit {0}) → List Received → List ℕ → Option (Result (Unit {0}))
  recv_acks timeout received want =
      unless_err (λ _. wait_acks (record { expected = expect want []; got = 0 }) received)
        (hiding timeout)

-- What the kernel gives to the calls on a socket.
pub record Kernel : Type 0 where
  pub socket : Result (Unit {0})
  pub bind : Result (Unit {0})
  pub send : Bytes → Result (Unit {0})
  pub timeout : Result (Unit {0})
  pub received : List Received

unfoldable pub open_netlink : Kernel → Result (Unit {0})
open_netlink k = wrapping k.socket >> wrapping k.bind

-- The body that the operations share: open, send, and wait for the acknowledgements.
unfoldable pub request : ByteOrder → Kernel → Bytes → List ℕ → Option (Result (Unit {0}))
request o k packet want =
    unless_err (λ _. recv_acks o k.timeout k.received want) (open_netlink k >> k.send packet)
