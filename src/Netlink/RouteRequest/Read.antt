-- ===== src/Netlink/RouteRequest/Read.antt =====
-- internal/netlink/route.go: what the kernel reads in the requests for host routes.
use elevpn.Prelude.{
  ℕ, ◌^◌, ◌<◌, ◌≡◌, refl, sym, ap, ◌∙◌, lt→ltb, some, List, [], ◌∷◌, ◌++◌, append-nil, length, take,
  drop, All, arith,
}
use elevpn.Bytes.{Bytes, ByteOrder, little, big, put_ne, put_le, put_be, length-put_ne}
use elevpn.Netlink.Wire.{align4, nl_msg, put_attr}
use elevpn.Netlink.Wire.Read.{NlMessage, IsNlMessage, read_message, read_message-nl_msg}
use elevpn.Netlink.Wire.Attrs.{
  Attr, IsAttr, put_attrs, read_attrs, read_attrs-put_attrs, length-put_attr,
}
use elevpn.Netlink.RouteRequest.{
  rtm_newroute, rtm_delroute, rtgen, build_route_payload, build_add_host_route,
  build_del_host_route,
}

-- A host route of the main table, statically set: the destination, the gateway and the interface.
abbrev pub host_rtmsg : Bytes
host_rtmsg = 2 ∷ 32 ∷ 0 ∷ 0 ∷ 254 ∷ 4 ∷ 0 ∷ 1 ∷ 0 ∷ 0 ∷ 0 ∷ 0 ∷ []

module _ (o : ByteOrder) (dst gw : Bytes) (if_index : ℕ) where
  abbrev pub host_attrs : List Attr
  host_attrs =
      record { typ = 1; value = dst }
      ∷ record { typ = 5; value = gw }
      ∷ record { typ = 4; value = put_ne o 4 if_index }
      ∷ []

  -- The request of a type and flags for that route.
  pub record AsksFor (msg_type flags seq : ℕ) (packet : Bytes) : Type 0 where
    pub payload : Bytes
    pub message :
        read_message o packet
        ≡ some (record { msg_type = msg_type; flags = flags; seq = seq; payload = payload }, [])
    pub rtmsg : take 12 payload ≡ host_rtmsg
    pub attrs : read_attrs o 3 (drop 12 payload) ≡ host_attrs

  abbrev host_payload : Bytes
  host_payload = build_route_payload o 32 0 (some dst) (some gw) if_index

zero_flags : (o : ByteOrder) → put_ne o 4 0 ≡ 0 ∷ 0 ∷ 0 ∷ 0 ∷ []
unfolding put_ne put_le put_be
zero_flags little = refl
zero_flags big = refl

module _ (o : ByteOrder) (dst gw : Bytes) (if_index : ℕ) (used : 0 < if_index) where
  host_payload_lem :
      host_payload o dst gw if_index ≡ host_rtmsg ++ put_attrs o [] (host_attrs o dst gw if_index)
  unfolding build_route_payload rtgen
  host_payload_lem = rw (zero_flags o, lt→ltb 0 if_index used) refl

  module _ (dst4 : length dst ≡ 4) (gw4 : length gw ≡ 4) where
    host_attrs_fit : All IsAttr (host_attrs o dst gw if_index)
    host_attrs_fit = (
      record { size_u16 = omega arith; type_u16 = omega arith },
      (
        record { size_u16 = omega arith; type_u16 = omega arith },
        (
          record { size_u16 = omega (arith, length-put_ne o 4 if_index); type_u16 = omega arith },
          tt,
        ),
      ),
    )

    length-host_payload : length (host_payload o dst gw if_index) ≡ 36
    unfolding align4
    length-host_payload =
        let first = put_attr o [] 1 dst in
        let second = put_attr o first 5 gw in
        ap length host_payload_lem
        ∙ omega (
          arith,
          length-put_attr o [] 1 dst,
          length-put_attr o first 5 gw,
          length-put_attr o second 4 (put_ne o 4 if_index),
          length-put_ne o 4 if_index,
        )

    asks_for :
        (msg_type flags seq : ℕ)
        → msg_type < 2 ^ 16
        → flags < 2 ^ 16
        → seq < 2 ^ 32
        → AsksFor o dst gw if_index msg_type flags seq
            (nl_msg o seq msg_type flags (host_payload o dst gw if_index))
    unfolding align4
    asks_for msg_type flags seq t f s =
        let m : NlMessage = record {
          msg_type = msg_type;
          flags = flags;
          seq = seq;
          payload = host_payload o dst gw if_index;
        } in
        let fits : IsNlMessage m = record {
          size_u32 = omega (arith, length-host_payload);
          type_u16 = t;
          flags_u16 = f;
          seq_u32 = s;
        } in
        record {
          payload = host_payload o dst gw if_index;
          message =
              ap (read_message o)
                (sym (append-nil (nl_msg o seq msg_type flags (host_payload o dst gw if_index))))
              ∙ read_message-nl_msg o m fits [] (omega (arith, length-host_payload));
          rtmsg = ap (take 12) host_payload_lem;
          attrs =
              ap (λ (b : Bytes). read_attrs o 3 (drop 12 b)) host_payload_lem
              ∙ read_attrs-put_attrs o (host_attrs o dst gw if_index) 3 host_attrs_fit
                  (omega arith);
        }

    -- For IPv4 addresses and a positive interface index, the kernel reads the request of `AddHostRoute` as one
    -- for a new static route of the main table to the address as a /32, by the gateway and the interface, that
    -- fails if the route is there; and that of `DelHostRoute` as one to delete the same route. Both ask for
    -- an acknowledgement under the sequence given.
    pub build_host_route_read :
        (seq : ℕ)
        → seq < 2 ^ 32
        → AsksFor o dst gw if_index rtm_newroute 0x605 seq
            (build_add_host_route o seq (some dst) (some gw) if_index)
          × AsksFor o dst gw if_index rtm_delroute 0x5 seq
              (build_del_host_route o seq (some dst) (some gw) if_index)
    unfolding build_add_host_route build_del_host_route
    build_host_route_read seq s = (
      asks_for rtm_newroute 0x605 seq (omega arith) (omega arith) s,
      asks_for rtm_delroute 0x5 seq (omega arith) (omega arith) s,
    )
