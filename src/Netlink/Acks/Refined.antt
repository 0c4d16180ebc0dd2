-- ===== src/Netlink/Acks/Refined.antt =====
-- internal/netlink/socket.go, `recvAcks`: what it promises, on the messages of the kernel, and that the code keeps
-- the promise.
use elevpn.Prelude.{
  ℕ, ◌≤◌, ◌≡◌, refl, ap, ◌∙◌, ltb, if◌then◌else◌, Option, none, some, List, [], ◌∷◌, map, length,
  All, take_long, fault, netlink_errno, Result, ok, err, inl, inr, Bool-cases, arith,
}
use elevpn.Bytes.{ByteOrder}
use elevpn.Netlink.Wire.Read.{send_all}
use elevpn.Netlink.Acks.{
  AckState, Received, datagram, unless_err, buffer_len, ack_received, wait_acks, recv_acks, mark,
}
use elevpn.Netlink.Acks.Missing.{
  IsAckState, missing, remove, mark_lem, waits_iff, AllDistinct, start, start_lem,
}
use elevpn.Netlink.Acks.Messages.{
  Reply, acked, refused, other, reply_message, IsReply, take_replies, ack_messages-replies,
}

-- The abstract view: the list of the sequences that are not acknowledged yet.
unfoldable pub settle : List ℕ → List Reply → Result (List ℕ)
settle waiting [] = ok waiting
settle waiting (acked seq flags request ∷ rs) = settle (remove seq waiting) rs
settle waiting (refused errno seq flags request ∷ rs) = err (fault netlink_errno)
settle waiting (other m ∷ rs) = settle waiting rs

-- Datagrams are read as long as something is missing. `none`: more is waited for.
unfoldable pub settle_all : List ℕ → List (List Reply) → Option (Result (Unit {0}))
settle_all waiting [] = if ltb 0 (length waiting) then none else some (ok tt)
settle_all waiting (rs ∷ later) =
    let next = λ (left : List ℕ). settle_all left later in
    if ltb 0 (length waiting) then unless_err next (settle waiting rs) else some (ok tt)

-- What the code's result for a datagram stands for.
abbrev StandsFor : Result AckState → Result (List ℕ) → Type 0
StandsFor (ok st) (ok waiting) = IsAckState st × (missing st ≡ waiting)
StandsFor (err d) (err e) = d ≡ e
StandsFor (ok st) (err e) = ⊥
StandsFor (err d) (ok waiting) = ⊥

take_replies-settle :
    (rs : List Reply) (st : AckState) (waiting : List ℕ)
    → IsAckState st
    → missing st ≡ waiting
    → StandsFor (take_replies st rs) (settle waiting rs)
unfolding settle
take_replies-settle [] st waiting h e = (h, e)
take_replies-settle (acked seq flags request ∷ rs) st waiting h e =
    let (kept, gone) = mark_lem st seq h in
    take_replies-settle rs (mark st seq) (remove seq waiting) kept (gone ∙ ap (remove seq) e)
take_replies-settle (refused errno seq flags request ∷ rs) st waiting h e = refl
take_replies-settle (other m ∷ rs) st waiting h e = take_replies-settle rs st waiting h e

module _ (o : ByteOrder) where
  abbrev pub as_datagram : List Reply → Received
  as_datagram rs = datagram (send_all o (map (reply_message o) rs))

  -- The kernel can send the messages, and they fit in the buffer.
  abbrev pub IsDatagram : List Reply → Type 0
  IsDatagram rs = All (IsReply o) rs × (length (send_all o (map (reply_message o) rs)) ≤ buffer_len)

ack_received-replies :
    (o : ByteOrder) (rs : List Reply) (st : AckState)
    → IsDatagram o rs
    → ack_received o st (as_datagram o rs) ≡ some (take_replies st rs)
unfolding ack_received
ack_received-replies o rs st h =
    rw (take_long buffer_len _ h.1) (ack_messages-replies o rs _ st h.0 (omega arith))

after_datagram :
    (later : AckState → Option (Result (Unit {0}))) (later' : List ℕ → Option (Result (Unit {0})))
    (r : Result AckState) (q : Result (List ℕ))
    → StandsFor r q
    → ((st : AckState) → IsAckState st → later st ≡ later' (missing st))
    → unless_err later r ≡ unless_err later' q
after_datagram later later' (ok st) (ok waiting) (h, e) same = same st h ∙ ap later' e
after_datagram later later' (err d) (err e) h same = ap (λ x. some (err x)) h
after_datagram later later' (ok st) (err e) h same = absurd h
after_datagram later later' (err d) (ok waiting) h same = absurd h

wait_acks-settle_all :
    (o : ByteOrder) (ds : List (List Reply)) (st : AckState)
    → IsAckState st
    → All (IsDatagram o) ds
    → wait_acks o st (map (as_datagram o) ds) ≡ settle_all (missing st) ds
unfolding wait_acks settle_all
wait_acks-settle_all o [] st h k = rw (waits_iff st h) refl
wait_acks-settle_all o (rs ∷ ds) st h k = elim (Bool-cases (ltb 0 (length (missing st)))) [
  | inr no_more ↦ rw (waits_iff st h, no_more) refl
  | inl more ↦
      rw (waits_iff st h, more, ack_received-replies o rs st k.0)
        (after_datagram (λ st'. wait_acks o st' (map (as_datagram o) ds))
          (λ left. settle_all left ds) (take_replies st rs) (settle (missing st) rs)
          (take_replies-settle rs st (missing st) h refl)
          (λ st' h'. wait_acks-settle_all o ds st' h' k.1))
]

-- When the timeout can be set, `recvAcks` for sequences that are all different does on the datagrams of a kernel
-- what its abstract view does, which keeps the list of the sequences that have not been acknowledged. While
-- one is left it reads a datagram, or waits if there is none. Of that datagram it takes every message
-- in turn: it takes the sequence of an acknowledgement off the list, passes over other messages and
-- sequences, and fails at an errno other than 0, also one that stands behind the last acknowledgement
-- awaited. When none is left before a datagram is read, it returns nil, and what comes later is not looked at.
pub recv_acks-settle_all :
    (o : ByteOrder) (want : List ℕ) (ds : List (List Reply))
    → AllDistinct want
    → All (IsDatagram o) ds
    → recv_acks o (ok tt) (map (as_datagram o) ds) want ≡ settle_all want ds
unfolding recv_acks
recv_acks-settle_all o want ds w k =
    let (h, e) = start_lem want w in
    wait_acks-settle_all o ds (start want) h k ∙ ap (λ (t : List ℕ). settle_all t ds) e
