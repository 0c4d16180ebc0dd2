-- ===== src/Netlink/RouteRequest.antt =====
-- internal/netlink/route.go: the requests that add, delete and replace routes. The constants are those of
-- golang.org/x/sys/unix. An interface index is positive.
pub mod Read
use elevpn.Prelude.{
  ℕ, ◌+◌, Bool, ltb, ◌==◌, if◌then◌else◌, Option, none, some, [], ◌∷◌, ◌++◌, Result,
}
use elevpn.Bytes.{Bytes, ByteOrder, put_ne}
use elevpn.Netlink.Wire.{
  nl_msg, put_attr, nlm_f_request, nlm_f_ack, nlm_f_create, nlm_f_excl, nlm_f_replace,
}
use elevpn.Netlink.Acks.{Kernel, request}

abbrev pub rtm_newroute : ℕ
rtm_newroute = 24

abbrev pub rtm_delroute : ℕ
rtm_delroute = 25

abbrev pub rta_dst : ℕ
rta_dst = 1

abbrev pub rta_oif : ℕ
rta_oif = 4

abbrev pub rta_gateway : ℕ
rta_gateway = 5

abbrev pub rt_scope_universe : ℕ
rt_scope_universe = 0

abbrev pub rt_scope_link : ℕ
rt_scope_link = 253

pub record Rtmsg : Type 0 where
  pub family : ℕ
  pub dst_len : ℕ
  pub src_len : ℕ
  pub tos : ℕ
  pub table : ℕ
  pub protocol : ℕ
  pub scope : ℕ
  pub route_type : ℕ
  pub flags : ℕ

-- AF_INET, RT_TABLE_MAIN, RTPROT_STATIC and RTN_UNICAST. Fields that are not set are zero.
abbrev pub new_base_rtmsg : Rtmsg
new_base_rtmsg = record {
  family = 2;
  dst_len = 0;
  src_len = 0;
  tos = 0;
  table = 254;
  protocol = 4;
  scope = 0;
  route_type = 1;
  flags = 0;
}

-- An optional address is nil when it is `none`.
module _ (o : ByteOrder) where
  unfoldable pub rtgen : Rtmsg → Bytes
  rtgen msg =
      msg.family
      ∷ msg.dst_len
      ∷ msg.src_len
      ∷ msg.tos
      ∷ msg.table
      ∷ msg.protocol
      ∷ msg.scope
      ∷ msg.route_type
      ∷ put_ne o 4 msg.flags

  abbrev pub dst_attr : ℕ → Option Bytes → Bytes → Bytes
  dst_attr dst_len none attrs = attrs
  dst_attr dst_len (some dst) attrs = if ltb 0 dst_len then put_attr o attrs rta_dst dst else attrs

  abbrev pub gateway_attr : Option Bytes → Bytes → Bytes
  gateway_attr none attrs = attrs
  gateway_attr (some gw) attrs = put_attr o attrs rta_gateway gw

  abbrev pub oif_attr : ℕ → Bytes → Bytes
  oif_attr if_index attrs =
      if ltb 0 if_index then put_attr o attrs rta_oif (put_ne o 4 if_index) else attrs

  unfoldable pub build_route_payload : ℕ → ℕ → Option Bytes → Option Bytes → ℕ → Bytes
  build_route_payload dst_len scope dst gw if_index =
      let header = rtgen (record new_base_rtmsg { dst_len = dst_len; scope = scope }) in
      header ++ oif_attr if_index (gateway_attr gw (dst_attr dst_len dst []))

  unfoldable pub build_add_host_route : ℕ → Option Bytes → Option Bytes → ℕ → Bytes
  build_add_host_route seq dst4 gateway if_index =
      nl_msg o seq rtm_newroute (nlm_f_request + nlm_f_ack + nlm_f_create + nlm_f_excl)
        (build_route_payload 32 rt_scope_universe dst4 gateway if_index)

  unfoldable pub build_del_host_route : ℕ → Option Bytes → Option Bytes → ℕ → Bytes
  build_del_host_route seq dst4 gateway if_index =
      nl_msg o seq rtm_delroute (nlm_f_request + nlm_f_ack)
        (build_route_payload 32 rt_scope_universe dst4 gateway if_index)

  unfoldable pub build_replace_default_route : ℕ → ℕ → Bytes
  build_replace_default_route seq if_index =
      nl_msg o seq rtm_newroute (nlm_f_request + nlm_f_ack + nlm_f_create + nlm_f_replace)
        (build_route_payload 0 rt_scope_link none none if_index)

  unfoldable pub build_restore_default_route : ℕ → Option Bytes → ℕ → Bytes
  build_restore_default_route seq gw if_index =
      nl_msg o seq rtm_newroute (nlm_f_request + nlm_f_ack + nlm_f_create + nlm_f_replace)
        (build_route_payload 0 rt_scope_universe none gw if_index)

  -- The operations. `none`: still waiting for the acknowledgement.
  unfoldable pub add_host_route :
      Kernel → Option Bytes → Option Bytes → ℕ → Option (Result (Unit {0}))
  add_host_route k ipv4 gateway if_index =
      request o k (build_add_host_route 1 ipv4 gateway if_index) (1 ∷ [])

  unfoldable pub del_host_route :
      Kernel → Option Bytes → Option Bytes → ℕ → Option (Result (Unit {0}))
  del_host_route k ipv4 gateway if_index =
      request o k (build_del_host_route 1 ipv4 gateway if_index) (1 ∷ [])

  unfoldable pub replace_default_route : Kernel → ℕ → Option (Result (Unit {0}))
  replace_default_route k if_index = request o k (build_replace_default_route 1 if_index) (1 ∷ [])

  unfoldable pub restore_default_route : Kernel → Option Bytes → ℕ → Option (Result (Unit {0}))
  restore_default_route k gateway if_index =
      request o k (build_restore_default_route 1 gateway if_index) (1 ∷ [])
