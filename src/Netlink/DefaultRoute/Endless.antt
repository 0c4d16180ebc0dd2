-- ===== src/Netlink/DefaultRoute/Endless.antt =====
-- internal/netlink/link.go: dumps on which the loops over messages and over attributes never end.
use elevpn.Prelude.{
  ℕ, zero, suc, ◌+◌, ◌*◌, ◌/◌, ◌≤◌, ◌≡◌, ◌≢◌, refl, ap, ◌∙◌, of_ge, of_ne, none, length, take, drop,
  arith,
}
use elevpn.Bytes.{Bytes, ByteOrder, ne}
use elevpn.Netlink.Wire.{align4}
use elevpn.Netlink.Acks.{msg_length, msg_seq}
use elevpn.Netlink.DefaultRoute.{
  Interfaces, Candidate, route_attr, route_attr_round, route_attrs, route_message, route_messages,
}

module _ (o : ByteOrder) (interfaces : Interfaces) where
  module _ (want : ℕ) (buf : Bytes) (n pos : ℕ) where
    -- At a whole header with length 0 and another sequence, no number of rounds is enough for the loop over
    -- the messages of a datagram.
    pub route_messages_endless :
        (fuel : ℕ) (c : Candidate)
        → pos + 16 ≤ n
        → msg_length o (drop pos buf) ≡ 0
        → msg_seq o (drop pos buf) ≢ want
        → route_messages o interfaces fuel want buf n pos c ≡ none
    unfolding route_messages route_message align4
    route_messages_endless zero c whole empty foreign = rw (of_ge n (pos + 16) whole) refl
    route_messages_endless (suc fuel) c whole empty foreign =
        let same : pos + (0 + 3) / 4 * 4 ≡ pos = omega arith in
        rw (of_ge n (pos + 16) whole, of_ne (msg_seq o (drop pos buf)) want foreign, empty)
          (ap (λ (p : ℕ). route_messages o interfaces fuel want buf n p c) same
            ∙ route_messages_endless fuel c whole empty foreign)

  module _ (buf : Bytes) (pos end : ℕ) where
    -- Nor is one enough for the loop over attributes, at a whole interface attribute that names an interface
    -- which is not there.
    pub route_attrs_endless :
        (fuel : ℕ) (c : Candidate)
        → pos + 8 ≤ end
        → end ≤ length buf
        → ne o (take 2 (drop pos buf)) ≡ 8
        → ne o (take 2 (drop (pos + 2) buf)) ≡ 4
        → interfaces (ne o (take 4 (drop (pos + 4) buf))) ≡ none
        → route_attrs o interfaces fuel buf pos end c ≡ none
    unfolding route_attrs route_attr_round route_attr
    route_attrs_endless zero c whole inside size oif unknown =
        rw (of_ge end (pos + 4) (omega arith)) refl
    route_attrs_endless (suc fuel) c whole inside size oif unknown =
        let same : pos + 0 ≡ pos = omega arith in
        rw
          (
            of_ge end (pos + 4) (omega arith),
            of_ge (length buf) (pos + 4) (omega arith),
            size,
            of_ge end (pos + 8) whole,
            of_ge (length buf) (pos + 8) (omega arith),
            oif,
            unknown,
          )
          (ap (λ (p : ℕ). route_attrs o interfaces fuel buf p end c) same
            ∙ route_attrs_endless fuel c whole inside size oif unknown)
