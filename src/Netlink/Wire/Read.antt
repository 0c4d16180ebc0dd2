-- ===== src/Netlink/Wire/Read.antt =====
-- What the receiver of netlink messages reads in bytes, after netlink(7): the reference that the messages of
-- internal/netlink/socket.go are compared with.
use elevpn.Prelude.{
  ℕ, zero, suc, ◌+◌, ◌*◌, ◌/◌, ◌^◌, ◌≤◌, ◌<◌, ◌≡◌, refl, ap, ◌∙◌, ◌||◌, ltb, of_ge, if◌then◌else◌,
  Option, none, some, List, [], ◌∷◌, ◌++◌, length, take, drop, length-append, All, take-append,
  drop-append, arith,
}
use elevpn.Bytes.{Bytes, ByteOrder, little, big, put_be, put_ne, put_le, ne, ne-put_ne_fits}
use elevpn.Netlink.Wire.{align4, nl_msg}

pub record NlMessage : Type 0 where
  pub msg_type : ℕ
  pub flags : ℕ
  pub seq : ℕ
  pub payload : Bytes

abbrev pub IsAligned : Bytes → Type 0
IsAligned bs = align4 (length bs) ≡ length bs

module _ (o : ByteOrder) where
  -- A message at the front of a buffer, and what is behind its padding.
  unfoldable pub read_message : Bytes → Option (NlMessage × Bytes)
  read_message bs =
      let n = ne o (take 4 bs) in
      if ltb (length bs) 16 || (ltb n 16 || ltb (length bs) n)
      then none
      else some (
        record {
          msg_type = ne o (take 2 (drop 4 bs));
          flags = ne o (take 2 (drop 6 bs));
          seq = ne o (take 4 (drop 8 bs));
          payload = drop 16 (take n bs);
        },
        drop (align4 n) bs,
      )

  abbrev then_message : (Bytes → List NlMessage) → Option (NlMessage × Bytes) → List NlMessage
  then_message rest none = []
  then_message rest (some (m, bs)) = m ∷ rest bs

  -- The messages of a buffer, as far as they are whole. A message takes a byte of fuel at least.
  unfoldable pub read_messages : ℕ → Bytes → List NlMessage
  read_messages zero bs = []
  read_messages (suc fuel) bs = then_message (λ rest. read_messages fuel rest) (read_message bs)

pub length-nl_msg :
    (o : ByteOrder) (seq t f : ℕ) (p : Bytes) → length (nl_msg o seq t f p) ≡ 16 + length p
unfolding nl_msg put_ne put_le put_be
length-nl_msg little seq t f p = omega arith
length-nl_msg big seq t f p = omega arith

length_field :
    (o : ByteOrder) (seq t f : ℕ) (p rest : Bytes)
    → take 4 (nl_msg o seq t f p ++ rest) ≡ put_ne o 4 (16 + length p)
unfolding nl_msg put_ne put_le put_be
length_field little seq t f p rest = refl
length_field big seq t f p rest = refl

type_field :
    (o : ByteOrder) (seq t f : ℕ) (p rest : Bytes)
    → take 2 (drop 4 (nl_msg o seq t f p ++ rest)) ≡ put_ne o 2 t
unfolding nl_msg put_ne put_le put_be
type_field little seq t f p rest = refl
type_field big seq t f p rest = refl

flags_field :
    (o : ByteOrder) (seq t f : ℕ) (p rest : Bytes)
    → take 2 (drop 6 (nl_msg o seq t f p ++ rest)) ≡ put_ne o 2 f
unfolding nl_msg put_ne put_le put_be
flags_field little seq t f p rest = refl
flags_field big seq t f p rest = refl

seq_field :
    (o : ByteOrder) (seq t f : ℕ) (p rest : Bytes)
    → take 4 (drop 8 (nl_msg o seq t f p ++ rest)) ≡ put_ne o 4 seq
unfolding nl_msg put_ne put_le put_be
seq_field little seq t f p rest = refl
seq_field big seq t f p rest = refl

payload_field : (o : ByteOrder) (seq t f : ℕ) (p : Bytes) → drop 16 (nl_msg o seq t f p) ≡ p
unfolding nl_msg put_ne put_le put_be
payload_field little seq t f p = refl
payload_field big seq t f p = refl

-- The fields fit in their places.
pub record IsNlMessage (m : NlMessage) : Type 0 where
  pub size_u32 : 16 + length m.payload < 2 ^ 32
  pub type_u16 : m.msg_type < 2 ^ 16
  pub flags_u16 : m.flags < 2 ^ 16
  pub seq_u32 : m.seq < 2 ^ 32

module _ (o : ByteOrder) (m : NlMessage) (h : IsNlMessage m) (rest : Bytes) where
  abbrev sent : Bytes
  sent = nl_msg o m.seq m.msg_type m.flags m.payload ++ rest

  pub msg_length-nl_msg : ne o (take 4 sent) ≡ 16 + length m.payload
  msg_length-nl_msg =
      ap (ne o) (length_field o m.seq m.msg_type m.flags m.payload rest)
      ∙ ne-put_ne_fits o 4 _ h.size_u32

  pub msg_type-nl_msg : ne o (take 2 (drop 4 sent)) ≡ m.msg_type
  msg_type-nl_msg =
      ap (ne o) (type_field o m.seq m.msg_type m.flags m.payload rest)
      ∙ ne-put_ne_fits o 2 _ h.type_u16

  pub msg_flags-nl_msg : ne o (take 2 (drop 6 sent)) ≡ m.flags
  msg_flags-nl_msg =
      ap (ne o) (flags_field o m.seq m.msg_type m.flags m.payload rest)
      ∙ ne-put_ne_fits o 2 _ h.flags_u16

  pub msg_seq-nl_msg : ne o (take 4 (drop 8 sent)) ≡ m.seq
  msg_seq-nl_msg =
      ap (ne o) (seq_field o m.seq m.msg_type m.flags m.payload rest)
      ∙ ne-put_ne_fits o 4 _ h.seq_u32

  pub payload-nl_msg : drop 16 (take (16 + length m.payload) sent) ≡ m.payload
  payload-nl_msg =
      ap (drop 16) (
        take-append _ (nl_msg o m.seq m.msg_type m.flags m.payload) rest
          (length-nl_msg o m.seq m.msg_type m.flags m.payload))
      ∙ payload_field o m.seq m.msg_type m.flags m.payload

  -- A message whose payload is padded to 4 bytes is read as it was written, and the rest is left.
  pub read_message-nl_msg : IsAligned m.payload → read_message o sent ≡ some (m, rest)
  unfolding read_message align4
  read_message-nl_msg a =
      let size : length sent ≡ 16 + length m.payload + length rest =
        length-append (nl_msg o m.seq m.msg_type m.flags m.payload) rest
        ∙ ap (λ (t : ℕ). t + length rest) (length-nl_msg o m.seq m.msg_type m.flags m.payload) in
      let next : drop ((16 + length m.payload + 3) / 4 * 4) sent ≡ rest =
        drop-append _ (nl_msg o m.seq m.msg_type m.flags m.payload) rest
          (length-nl_msg o m.seq m.msg_type m.flags m.payload ∙ omega (arith, a)) in
      rw (msg_length-nl_msg, msg_type-nl_msg, msg_flags-nl_msg, msg_seq-nl_msg, payload-nl_msg)
        (rw
          (
            of_ge (length sent) 16 (omega (arith, size)),
            of_ge (16 + length m.payload) 16 (omega arith),
            of_ge (length sent) (16 + length m.payload) (omega (arith, size)),
            next,
          )
          refl)

abbrev pub send_all : ByteOrder → List NlMessage → Bytes
send_all o [] = []
send_all o (m ∷ ms) = nl_msg o m.seq m.msg_type m.flags m.payload ++ send_all o ms

abbrev pub IsSendableMessage : NlMessage → Type 0
IsSendableMessage m = IsNlMessage m × IsAligned m.payload

-- Messages in a row are read as they were written.
pub read_messages-send_all :
    (o : ByteOrder) (ms : List NlMessage) (fuel : ℕ)
    → All IsSendableMessage ms
    → length ms ≤ fuel
    → read_messages o fuel (send_all o ms) ≡ ms
unfolding read_messages
read_messages-send_all o [] zero h le = refl
read_messages-send_all o [] (suc fuel) h le = unfold read_message in refl
read_messages-send_all o (m ∷ ms) zero h le = absurd (omega arith)
read_messages-send_all o (m ∷ ms) (suc fuel) h le =
    rw (read_message-nl_msg o m h.0.0 (send_all o ms) h.0.1)
      (ap (◌∷◌ m) (read_messages-send_all o ms fuel h.1 (omega arith)))

abbrev HasFields : NlMessage → Type 0
HasFields m = (m.msg_type < 2 ^ 16) × (m.flags < 2 ^ 16) × (m.seq < 2 ^ 32)

-- Messages that together stay below 4 GiB are sendable.
pub send_all-IsSendableMessage :
    (o : ByteOrder) (ms : List NlMessage)
    → length (send_all o ms) < 2 ^ 32
    → All HasFields ms
    → All (λ m. IsAligned m.payload) ms
    → All IsSendableMessage ms
send_all-IsSendableMessage o [] size f a = tt
send_all-IsSendableMessage o (m ∷ ms) size f a =
    let whole = length-append (nl_msg o m.seq m.msg_type m.flags m.payload) (send_all o ms) in
    let first = length-nl_msg o m.seq m.msg_type m.flags m.payload in
    let fits : IsNlMessage m = record {
      size_u32 = omega (arith, whole, first, size);
      type_u16 = f.0.0;
      flags_u16 = f.0.1;
      seq_u32 = f.0.2;
    } in
    ((fits, a.0), send_all-IsSendableMessage o ms (omega (arith, whole, first, size)) f.1 a.1)
