-- ===== src/Tests/Netlink.antt =====
-- The properties of the netlink package at concrete inputs, on a machine that stores the low byte first.
use elevpn.Prelude.{
  ℕ, ◌+◌, ◌^◌, ◌≤◌, ◌<◌, ◌≡◌, ◌≢◌, refl, none, some, List, [], ◌∷◌, ◌++◌, map, length, replicate,
  take, drop, All, arith, Result, ok, nat_eq, bytes_eq,
}
use elevpn.Bytes.{Bytes, little, put_ne, ne, put_le, le, put_be}
use elevpn.Protocol.Payload.{v4}
use elevpn.Netlink.Wire.{align4, nl_msg, put_attr, put_nest_attr, data_value, zstr, be32, be_s32}
use elevpn.Netlink.Wire.Read.{NlMessage, IsNlMessage, IsSendableMessage, read_messages}
use elevpn.Netlink.Acks.{AckState, datagram, recv_acks, ack_messages}
use elevpn.Netlink.Acks.Missing.{start, remove}
use elevpn.Netlink.Acks.Messages.{Reply, acked, other, IsReply, reply_message, ack_messages_total}
use elevpn.Netlink.Acks.Refined.{IsDatagram, as_datagram, settle, settle_all, recv_acks-settle_all}
use elevpn.Netlink.Nftable.{
  NftMasqConfig, masquerade_packet, masquerade_acks, batch_msg, nft_msg, build_new_table_msg,
  build_new_chain_msg, build_new_masq_rule_msg, chain_attrs, hook_attrs, rule_attrs, masq_exprs,
  nfgen, wrap_expr, expr_payload_ipv4_saddr, expr_bitwise_mask, expr_cmp, expr_cmp_ipv4,
  expr_meta_oif_name, expr_cmp_if_name, expr_masq,
}
use elevpn.Netlink.Nftable.Batch.{asking, masquerade_packet_read}
use elevpn.Netlink.RouteRequest.{
  rtm_newroute, rtm_delroute, build_add_host_route, build_del_host_route,
}
use elevpn.Netlink.RouteRequest.Read.{AsksFor, build_host_route_read}
use elevpn.Netlink.InetDiag.{wait_established}
use elevpn.Netlink.InetDiag.Sockets.{DiagSocket, socket_payload, IsSocket, established}
use elevpn.Netlink.InetDiag.Dumped.{socket, IsDiagEntry, wait_established-dump}
use elevpn.Netlink.DefaultRoute.{no_candidate, route_messages}
use elevpn.Netlink.DefaultRoute.Endless.{route_messages_endless}

-- The answers to the batch of `ApplyMasquerade`, in another order and with a message in between.
abbrev note : NlMessage
note = record { msg_type = 16; flags = 0; seq = 9; payload = [] }

abbrev answers : List (List Reply)
answers = (acked 3 0 [] ∷ other note ∷ []) ∷ (acked 2 0 [] ∷ acked 4 0 [] ∷ []) ∷ []

fits :
    (t f seq : ℕ) (p : Bytes)
    → t < 2 ^ 16
    → f < 2 ^ 16
    → seq < 2 ^ 32
    → 16 + length p < 2 ^ 32
    → IsNlMessage (record { msg_type = t; flags = f; seq = seq; payload = p })
fits t f seq p a b c d = record { size_u32 = d; type_u16 = a; flags_u16 = b; seq_u32 = c }

acked_fits : (seq : ℕ) → seq < 2 ^ 32 → IsNlMessage (reply_message little (acked seq 0 []))
unfolding put_ne put_le
acked_fits seq h = fits 2 0 seq _ (omega arith) (omega arith) h (omega arith)

note_fits : IsNlMessage note
note_fits = fits 16 0 9 [] (omega arith) (omega arith) (omega arith) (omega arith)

answers-IsDatagram : All (IsDatagram little) answers
unfolding nl_msg put_ne put_le align4
answers-IsDatagram =
    let first : IsReply little (acked 3 0 []) = ((acked_fits 3 (omega arith), refl), tt) in
    let second : IsReply little (other note) = ((note_fits, refl), λ e. absurd (omega arith)) in
    let third : IsReply little (acked 2 0 []) = ((acked_fits 2 (omega arith), refl), tt) in
    let fourth : IsReply little (acked 4 0 []) = ((acked_fits 4 (omega arith), refl), tt) in
    (((first, (second, tt)), omega arith), (((third, (fourth, tt)), omega arith), tt))

recv_acks-settle_all_example :
    recv_acks little (ok tt) (map (as_datagram little) answers) masquerade_acks
    ≡ settle_all masquerade_acks answers
recv_acks-settle_all_example =
    recv_acks-settle_all little masquerade_acks answers (omega arith) answers-IsDatagram

settled : settle_all masquerade_acks answers ≡ some (ok tt)
unfolding settle_all settle remove
settled = refl

ack_messages_total_example :
    (r : Result AckState) × (ack_messages little 20 (start (2 ∷ [])) (replicate 20 255) ≡ some r)
ack_messages_total_example =
    ack_messages_total little 20 (start (2 ∷ [])) (replicate 20 255) (omega arith)

-- The table and chain of the server, with 10.8.0.0/24 on eth0.
abbrev masq : NftMasqConfig
masq = record {
  table_name = b'v' ∷ b'p' ∷ b'n' ∷ b'n' ∷ b'a' ∷ b't' ∷ [];
  chain_name = b'p' ∷ b'o' ∷ b's' ∷ b't' ∷ [];
  src_ip = 10 ∷ 8 ∷ 0 ∷ 0 ∷ [];
  src_mask = 255 ∷ 255 ∷ 255 ∷ 0 ∷ [];
  out_interface = b'e' ∷ b't' ∷ b'h' ∷ b'0' ∷ [];
}

masq_size : length (masquerade_packet little masq) ≡ 476
unfolding masquerade_packet batch_msg nft_msg build_new_table_msg build_new_chain_msg
    build_new_masq_rule_msg chain_attrs hook_attrs rule_attrs masq_exprs nfgen wrap_expr
    expr_payload_ipv4_saddr expr_bitwise_mask expr_cmp expr_cmp_ipv4 expr_meta_oif_name
    expr_cmp_if_name expr_masq align4 nl_msg put_attr put_nest_attr data_value zstr be32 be_s32
    put_ne put_le put_be
masq_size = refl

masquerade_packet_read_example :
    let ms = read_messages little 5 (masquerade_packet little masq) in
    (map (λ m. m.seq) ms ≡ 1 ∷ 2 ∷ 3 ∷ 4 ∷ 5 ∷ [])
    × (map (λ m. m.msg_type) ms ≡ 16 ∷ 2560 ∷ 2563 ∷ 2566 ∷ 17 ∷ [])
    × (asking ms ≡ masquerade_acks)
masquerade_packet_read_example =
    masquerade_packet_read little masq 5 (omega arith) (omega (arith, masq_size))

abbrev destination : Bytes
destination = 203 ∷ 0 ∷ 113 ∷ 5 ∷ []

abbrev gateway : Bytes
gateway = 192 ∷ 168 ∷ 0 ∷ 1 ∷ []

build_host_route_read_example :
    AsksFor little destination gateway 2 rtm_newroute 0x605 1
      (build_add_host_route little 1 (some destination) (some gateway) 2)
    × AsksFor little destination gateway 2 rtm_delroute 0x5 1
        (build_del_host_route little 1 (some destination) (some gateway) 2)
build_host_route_read_example =
    build_host_route_read little destination gateway 2 (omega arith) refl refl 1 (omega arith)

-- One connection to port 22, and one to another port.
abbrev ssh : DiagSocket
ssh = record {
  family = 2;
  state = 1;
  timer = 0;
  retrans = 0;
  source_port = 22;
  destination_port = 200 ∷ 10 ∷ [];
  source = replicate 16 0;
  remote = 198 ∷ 51 ∷ 100 ∷ 7 ∷ [];
  rest = replicate 44 0;
}

abbrev web : DiagSocket
web = record ssh { source_port = 443 }

ssh_fits : IsSocket ssh
ssh_fits = record { port_u16 = omega arith; between = refl; remote4 = refl }

web_fits : IsSocket web
web_fits = record { port_u16 = omega arith; between = refl; remote4 = refl }

ssh-IsDiagEntry : IsDiagEntry 1 (socket 2 ssh)
unfolding put_be align4
ssh-IsDiagEntry =
    ((fits 20 2 1 _ (omega arith) (omega arith) (omega arith) (omega arith), refl), ssh_fits)

web-IsDiagEntry : IsDiagEntry 1 (socket 2 web)
unfolding put_be align4
web-IsDiagEntry =
    ((fits 20 2 1 _ (omega arith) (omega arith) (omega arith) (omega arith), refl), web_fits)

done_fits :
    IsSendableMessage (record { msg_type = 3; flags = 2; seq = 1; payload = put_ne little 4 0 })
unfolding put_ne put_le align4
done_fits = (fits 3 2 1 _ (omega arith) (omega arith) (omega arith) (omega arith), refl)

abbrev first_datagram : Bytes
first_datagram = nl_msg little 1 20 2 (socket_payload web) ++ []

first_size : length first_datagram ≤ 65536
unfolding nl_msg put_ne put_le put_be
first_size = omega arith

abbrev last_datagram : Bytes
last_datagram =
    (nl_msg little 1 20 2 (socket_payload ssh) ++ [])
    ++ (nl_msg little 1 3 2 (put_ne little 4 0) ++ [])

last_size : length last_datagram ≤ 65536
unfolding nl_msg put_ne put_le put_be
last_size = omega arith

wait_established-dump_example :
    wait_established little 1 22 [] (datagram first_datagram ∷ datagram last_datagram ∷ [])
    ≡ some (ok (established 22 (web ∷ ssh ∷ [])))
wait_established-dump_example =
    wait_established-dump little 1 22 ((socket 2 web ∷ []) ∷ []) (socket 2 ssh ∷ []) 2
      (put_ne little 4 0) [] (((web-IsDiagEntry, tt), first_size), tt) (ssh-IsDiagEntry, tt)
      done_fits last_size

established-ssh : established 22 (web ∷ ssh ∷ []) ≡ v4 (198 ∷ 51 ∷ 100 ∷ 7 ∷ []) ∷ []
unfolding established
established-ssh = refl

-- A header with length 0 and sequence 0.
empty_length : ne little (take 4 (replicate 16 0)) ≡ 0
unfolding ne le
empty_length = refl

other_sequence : ne little (take 4 (drop 8 (replicate 16 0))) ≢ 1
unfolding ne le
other_sequence e = absurd (omega arith)

route_messages_endless_example :
    route_messages little (λ index. none) 1000 1 (replicate 16 0) 16 0 no_candidate ≡ none
route_messages_endless_example =
    route_messages_endless little (λ index. none) 1 (replicate 16 0) 16 0 1000 no_candidate
      (omega arith) empty_length other_sequence
