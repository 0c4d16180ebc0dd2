-- ===== src/Netlink/Acks/Messages.antt =====
-- internal/netlink/socket.go, `recvAcks`: its loop over the messages of a datagram, at the messages that a kernel
-- sends and at any bytes.
use elevpn.Prelude.{
  ℕ, zero, suc, ◌+◌, ◌*◌, ◌/◌, ◌^◌, ◌≤◌, ◌<◌, ◌≡◌, ◌≢◌, inl, inr, refl, ap, ◌∙◌, false, not, ◌||◌,
  ◌==◌, ltb, of_ge, ge_of, of_ne, Bool-cases, if◌then◌else◌, Option, some, List, [], ◌∷◌, ◌++◌, map,
  length, take, drop, All, length-append, length-drop, drop-append, lt→ltb, err-ne-ok, fault,
  netlink_errno, Result, ok, err, ◌>>=◌, arith,
}
use elevpn.Bytes.{
  Bytes, ByteOrder, little, big, put_ne, put_le, put_be, ne, length-put_ne, ne-put_ne_fits,
}
use elevpn.Netlink.Wire.{align4, nl_msg}
use elevpn.Netlink.Wire.Read.{
  NlMessage, IsSendableMessage, send_all, length-nl_msg, msg_length-nl_msg, msg_type-nl_msg,
  msg_seq-nl_msg,
}
use elevpn.Netlink.Acks.{AckState, mark, unless_err, msg_length, ack_message, ack_messages}

-- A message of the kernel: an acknowledgement, which is an error with errno 0, an error with another errno, or
-- something else. Behind the errno stands the header of the request and more.
pub data Reply : Type 0 where
  acked : (seq flags : ℕ) (request : Bytes) → Reply
  refused : (errno seq flags : ℕ) (request : Bytes) → Reply
  other : NlMessage → Reply

module _ (o : ByteOrder) where
  abbrev error_message : ℕ → ℕ → ℕ → Bytes → NlMessage
  error_message errno seq flags request = record {
    msg_type = 2;
    flags = flags;
    seq = seq;
    payload = put_ne o 4 errno ++ request;
  }

  abbrev pub reply_message : Reply → NlMessage
  reply_message (acked seq flags request) = error_message 0 seq flags request
  reply_message (refused errno seq flags request) = error_message errno seq flags request
  reply_message (other m) = m

  abbrev Tells : Reply → Type 0
  Tells (acked seq flags request) = Unit {0}
  Tells (refused errno seq flags request) = (errno ≢ 0) × (errno < 2 ^ 32)
  Tells (other m) = m.msg_type ≢ 2

  -- The message is one that the kernel can send, and is of its kind.
  abbrev pub IsReply : Reply → Type 0
  IsReply r = IsSendableMessage (reply_message r) × Tells r

-- What the code does for a message.
abbrev pub take_reply : AckState → Reply → Result AckState
take_reply st (acked seq flags request) = ok (mark st seq)
take_reply st (refused errno seq flags request) = err (fault netlink_errno)
take_reply st (other m) = ok st

errno_field :
    (o : ByteOrder) (seq t f errno : ℕ) (request rest : Bytes)
    → take 4 (drop 16 (nl_msg o seq t f (put_ne o 4 errno ++ request) ++ rest)) ≡ put_ne o 4 errno
unfolding nl_msg put_ne put_le put_be
errno_field little seq t f errno request rest = refl
errno_field big seq t f errno request rest = refl

module _ (o : ByteOrder) (m : NlMessage) (h : IsSendableMessage m) (rest : Bytes) where
  abbrev pub bytes : Bytes
  bytes = nl_msg o m.seq m.msg_type m.flags m.payload ++ rest

  pub length-bytes : length bytes ≡ 16 + length m.payload + length rest
  length-bytes =
      length-append (nl_msg o m.seq m.msg_type m.flags m.payload) rest
      ∙ ap (λ (t : ℕ). t + length rest) (length-nl_msg o m.seq m.msg_type m.flags m.payload)

  pub message_end : drop (align4 (16 + length m.payload)) bytes ≡ rest
  unfolding align4
  message_end =
      drop-append _ (nl_msg o m.seq m.msg_type m.flags m.payload) rest
        (length-nl_msg o m.seq m.msg_type m.flags m.payload ∙ omega (arith, h.1))

  pub header_fits : ltb (msg_length o bytes) 16 ≡ false
  header_fits = rw (msg_length-nl_msg o m h.0 rest) (of_ge (16 + length m.payload) 16 (omega arith))

  pub datagram_fits : ltb (length bytes) (align4 (msg_length o bytes)) ≡ false
  unfolding align4
  datagram_fits = rw (msg_length-nl_msg o m h.0 rest) (
      of_ge (length bytes) ((16 + length m.payload + 3) / 4 * 4) (omega (arith, length-bytes, h.1)))

  -- The length is right, so the type decides.
  whole_message :
      (ltb (msg_length o bytes) 16 || ltb (length bytes) (align4 (msg_length o bytes))) ≡ false
  whole_message = rw (header_fits, datagram_fits) refl

  ack_other : (st : AckState) → m.msg_type ≢ 2 → ack_message o st bytes ≡ ok st
  unfolding ack_message
  ack_other st ne = rw (whole_message, msg_type-nl_msg o m h.0 rest, of_ne m.msg_type 2 ne) refl

module _ (o : ByteOrder) (errno seq flags : ℕ) (request : Bytes) (fits : errno < 2 ^ 32) where
  abbrev reply : NlMessage
  reply = error_message o errno seq flags request

  ack_error :
      (h : IsSendableMessage reply) (rest : Bytes) (st : AckState)
      → ack_message o st (nl_msg o seq 2 flags (put_ne o 4 errno ++ request) ++ rest)
        ≡ (if not (errno == 0) then err (fault netlink_errno) else ok (mark st seq))
  unfolding ack_message
  ack_error h rest st =
      let long : ltb (16 + length (put_ne o 4 errno ++ request)) 20 ≡ false =
        of_ge _ 20
          (omega (arith, length-append (put_ne o 4 errno) request, length-put_ne o 4 errno)) in
      let read =
        ap (ne o) (errno_field o seq 2 flags errno request rest) ∙ ne-put_ne_fits o 4 errno fits in
      rw (whole_message o reply h rest, msg_type-nl_msg o reply h.0 rest)
        (rw (msg_length-nl_msg o reply h.0 rest, read, msg_seq-nl_msg o reply h.0 rest)
          (rw long refl))

ack_reply :
    (o : ByteOrder) (r : Reply) (h : IsReply o r) (rest : Bytes) (st : AckState)
    → let m = reply_message o r in
      ack_message o st (nl_msg o m.seq m.msg_type m.flags m.payload ++ rest) ≡ take_reply st r
ack_reply o (acked seq flags request) h rest st =
    ack_error o 0 seq flags request (omega arith) h.0 rest st
ack_reply o (refused errno seq flags request) h rest st =
    ack_error o errno seq flags request h.1.1 h.0 rest st ∙ rw (of_ne errno 0 h.1.0) refl
ack_reply o (other m) h rest st = ack_other o m h.0 rest st h.1

abbrev pub take_replies : AckState → List Reply → Result AckState
take_replies st [] = ok st
take_replies st (r ∷ rs) = take_reply st r >>= λ st'. take_replies st' rs

after_reply :
    (st : AckState) (r : Reply) (rs : List Reply) (next : AckState → Option (Result AckState))
    → ((st' : AckState) → next st' ≡ some (take_replies st' rs))
    → unless_err next (take_reply st r) ≡ some (take_replies st (r ∷ rs))
after_reply st (acked seq flags request) rs next h = h (mark st seq)
after_reply st (refused errno seq flags request) rs next h = refl
after_reply st (other m) rs next h = h st

-- A datagram of the kernel is worked off message by message, up to the first error.
pub ack_messages-replies :
    (o : ByteOrder) (rs : List Reply) (fuel : ℕ) (st : AckState)
    → All (IsReply o) rs
    → length (send_all o (map (reply_message o) rs)) ≤ fuel
    → ack_messages o fuel st (send_all o (map (reply_message o) rs)) ≡ some (take_replies st rs)
unfolding ack_messages
ack_messages-replies o [] zero st h le = refl
ack_messages-replies o [] (suc fuel) st h le = refl
ack_messages-replies o (r ∷ rs) zero st h le =
    let m = reply_message o r in
    absurd (omega (arith, length-bytes o m h.0.0 (send_all o (map (reply_message o) rs))))
ack_messages-replies o (r ∷ rs) (suc fuel) st h le =
    let m = reply_message o r in
    let rest = send_all o (map (reply_message o) rs) in
    let size = length-bytes o m h.0.0 rest in
    rw
      (
        of_ge (length (nl_msg o m.seq m.msg_type m.flags m.payload ++ rest)) 16
            (omega (arith, size)),
        ack_reply o r h.0 rest st,
        msg_length-nl_msg o m h.0.0.0 rest,
        message_end o m h.0.0 rest,
      )
      (after_reply st r rs (λ st'. ack_messages o fuel st' rest)
        (λ st'. ack_messages-replies o rs fuel st' h.1 (omega (arith, size))))

long_enough :
    (o : ByteOrder) (st st' : AckState) (bs : Bytes)
    → ack_message o st bs ≡ ok st'
    → 16 ≤ msg_length o bs
unfolding ack_message
long_enough o st st' bs e = elim (Bool-cases (ltb (msg_length o bs) 16)) [
  | inl short ↦ absurd (err-ne-ok (rw short at e))
  | inr long ↦ ge_of _ _ long
]

total_step :
    (o : ByteOrder) (st : AckState) (bs : Bytes) (next : AckState → Option (Result AckState))
    (r : Result AckState)
    → ack_message o st bs ≡ r
    → ((st' : AckState) → 16 ≤ msg_length o bs → (q : Result AckState) × (next st' ≡ some q))
    → (q : Result AckState) × (unless_err next r ≡ some q)
total_step o st bs next (err e) q ih = (err e, refl)
total_step o st bs next (ok st') q ih = ih st' (long_enough o st st' bs q)

shorter : (n k : ℕ) (bs : Bytes) → length bs ≤ suc n → 16 ≤ k → length (drop (align4 k) bs) ≤ n
unfolding align4
shorter n k bs h le = omega (arith, length-drop ((k + 3) / 4 * 4) bs)

-- Whatever the bytes are, the loop ends.
pub ack_messages_total :
    (o : ByteOrder) (fuel : ℕ) (st : AckState) (bs : Bytes)
    → length bs ≤ fuel
    → (r : Result AckState) × (ack_messages o fuel st bs ≡ some r)
unfolding ack_messages
ack_messages_total o zero st bs h = (ok st, rw (lt→ltb (length bs) 16 (omega arith)) refl)
ack_messages_total o (suc fuel) st bs h = elim (Bool-cases (ltb (length bs) 16)) [
  | inl t ↦ (ok st, rw t refl)
  | inr f ↦ rw f (
      total_step o st bs _ (ack_message o st bs) refl (λ st' long.
        ack_messages_total o fuel st' (drop (align4 (msg_length o bs)) bs)
          (shorter fuel (msg_length o bs) bs h long)))
]
