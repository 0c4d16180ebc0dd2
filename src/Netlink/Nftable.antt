-- ===== src/Netlink/Nftable.antt =====
-- internal/netlink/nftable.go: the batches that set up and delete the masquerade table. The constants are those
-- of golang.org/x/sys/unix. Flags have different bits, so their union is written as a sum.
pub mod Batch
use elevpn.Prelude.{
  ℕ, ◌+◌, ◌*◌, ◌-◌, Bool, ltb, ◌==◌, if◌then◌else◌, Option, none, some, List, [], ◌∷◌, ◌++◌, length,
  take, replicate, fault, table_name_empty, Result, ok, err, ◌>>=◌, ◌>>◌, wrapping, bit_or,
}
use elevpn.Bytes.{Bytes, ByteOrder, put_be, put_ne}
use elevpn.Net.{to4}
use elevpn.Netlink.Wire.{
  nl_msg, put_attr, put_nest_attr, data_value, zstr, be32, be_s32, nlm_f_request, nlm_f_ack,
  nlm_f_create, nlm_f_excl, nlm_f_append,
}
use elevpn.Netlink.Acks.{Kernel, request, unless_err, recv_acks, open_netlink}
use elevpn.Server.Config.{or_empty}

pub record NftMasqConfig : Type 0 where
  pub table_name : Bytes
  pub chain_name : Bytes
  pub src_ip : Bytes
  pub src_mask : Bytes
  pub out_interface : Bytes

-- NFNL_SUBSYS_NFTABLES, and the two messages around a batch.
abbrev pub nfnl_subsys_nftables : ℕ
nfnl_subsys_nftables = 10

abbrev pub nfnl_msg_batch_begin : ℕ
nfnl_msg_batch_begin = 16

abbrev pub nfnl_msg_batch_end : ℕ
nfnl_msg_batch_end = 17

abbrev pub nfproto_ipv4 : ℕ
nfproto_ipv4 = 2

-- NFT_REG_1 and NFT_REG_2.
abbrev pub nft_reg_1 : ℕ
nft_reg_1 = 1

abbrev pub nft_reg_2 : ℕ
nft_reg_2 = 2

unfoldable pub nfgen : ℕ → ℕ → Bytes
nfgen family res_id = family ∷ 0 ∷ put_be 2 res_id

-- The sequences that `ApplyMasquerade` waits for.
abbrev pub masquerade_acks : List ℕ
masquerade_acks = 2 ∷ 3 ∷ 4 ∷ []

module _ (o : ByteOrder) where
  unfoldable pub batch_msg : ℕ → ℕ → Bytes
  batch_msg seq msg_type = nl_msg o seq msg_type nlm_f_request (nfgen 0 nfnl_subsys_nftables)

  unfoldable pub nft_msg : ℕ → ℕ → ℕ → ℕ → Bytes → Bytes
  nft_msg seq msg_type flags family attrs =
      nl_msg o seq (bit_or (nfnl_subsys_nftables * 256) msg_type) flags (nfgen family 0 ++ attrs)

  -- The attribute is NFTA_TABLE_NAME and the message NFT_MSG_DELTABLE.
  unfoldable pub build_del_table_msg : ℕ → Bytes → Bytes
  build_del_table_msg seq table_name =
      nft_msg seq 2 (nlm_f_request + nlm_f_ack) nfproto_ipv4 (put_attr o [] 1 (zstr table_name))

  -- NFT_MSG_NEWTABLE
  unfoldable pub build_new_table_msg : ℕ → Bytes → Bytes
  build_new_table_msg seq table_name =
      nft_msg seq 0 (nlm_f_request + nlm_f_ack + nlm_f_create + nlm_f_excl) nfproto_ipv4
        (put_attr o [] 1 (zstr table_name))

  -- NFTA_HOOK_HOOKNUM with NF_INET_POST_ROUTING, and NFTA_HOOK_PRIORITY with NF_IP_PRI_NAT_SRC.
  unfoldable pub hook_attrs : Bytes
  hook_attrs = put_attr o (put_attr o [] 1 (be32 4)) 2 (be_s32 100)

  -- NFTA_CHAIN_TABLE, NFTA_CHAIN_NAME, NFTA_CHAIN_HOOK and NFTA_CHAIN_TYPE, with "nat".
  unfoldable pub chain_attrs : Bytes → Bytes → Bytes
  chain_attrs table_name chain_name =
      put_attr o
        (put_nest_attr o (put_attr o (put_attr o [] 1 (zstr table_name)) 3 (zstr chain_name)) 4
          hook_attrs)
        7 (zstr (b'n' ∷ b'a' ∷ b't' ∷ []))

  -- NFT_MSG_NEWCHAIN
  unfoldable pub build_new_chain_msg : ℕ → Bytes → Bytes → Bytes
  build_new_chain_msg seq table_name chain_name =
      nft_msg seq 3 (nlm_f_request + nlm_f_ack + nlm_f_create + nlm_f_excl) nfproto_ipv4
        (chain_attrs table_name chain_name)

  -- NFTA_EXPR_NAME and NFTA_EXPR_DATA in an NFTA_LIST_ELEM.
  unfoldable pub wrap_expr : Bytes → Bytes → Bytes
  wrap_expr name expr = put_nest_attr o [] 1 (put_nest_attr o (put_attr o [] 1 (zstr name)) 2 expr)

  -- NFTA_PAYLOAD_DREG, BASE, OFFSET and LEN: 4 bytes at 12 of the network header.
  unfoldable pub expr_payload_ipv4_saddr : Bytes
  expr_payload_ipv4_saddr = wrap_expr (b'p' ∷ b'a' ∷ b'y' ∷ b'l' ∷ b'o' ∷ b'a' ∷ b'd' ∷ []) (
      put_attr o (put_attr o (put_attr o (put_attr o [] 1 (be32 nft_reg_1)) 2 (be32 1)) 3 (be32 12))
        4 (be32 4))

  -- NFTA_BITWISE_SREG, DREG, LEN, MASK, XOR and OP.
  unfoldable pub expr_bitwise_mask : Bytes → Bytes
  expr_bitwise_mask mask =
      let registers = put_attr o (put_attr o [] 1 (be32 nft_reg_1)) 2 (be32 nft_reg_1) in
      let masked =
        put_nest_attr o (put_attr o registers 3 (be32 4)) 4 (data_value o (or_empty (to4 mask))) in
      wrap_expr (b'b' ∷ b'i' ∷ b't' ∷ b'w' ∷ b'i' ∷ b's' ∷ b'e' ∷ [])
        (put_attr o (put_nest_attr o masked 5 (data_value o (replicate 4 0))) 6 (be32 0))

  -- NFTA_CMP_SREG, OP with NFT_CMP_EQ, and DATA.
  unfoldable pub expr_cmp : ℕ → Bytes → Bytes
  expr_cmp register value = wrap_expr (b'c' ∷ b'm' ∷ b'p' ∷ []) (
      put_nest_attr o (put_attr o (put_attr o [] 1 (be32 register)) 2 (be32 0)) 3
        (data_value o value))

  unfoldable pub expr_cmp_ipv4 : Bytes → Bytes
  expr_cmp_ipv4 ip4 = expr_cmp nft_reg_1 (or_empty (to4 ip4))

  -- NFTA_META_DREG and KEY, with NFT_META_OIFNAME.
  unfoldable pub expr_meta_oif_name : Bytes
  expr_meta_oif_name =
      wrap_expr (b'm' ∷ b'e' ∷ b't' ∷ b'a' ∷ [])
        (put_attr o (put_attr o [] 1 (be32 nft_reg_2)) 2 (be32 7))

  -- The name in 16 bytes: what does not fit is cut off.
  abbrev pub name16 : Bytes → Bytes
  name16 ifname = take 16 ifname ++ replicate (16 - length ifname) 0

  unfoldable pub expr_cmp_if_name : Bytes → Bytes
  expr_cmp_if_name ifname = expr_cmp nft_reg_2 (name16 ifname)

  unfoldable pub expr_masq : Bytes
  expr_masq = wrap_expr (b'm' ∷ b'a' ∷ b's' ∷ b'q' ∷ []) []

  unfoldable pub masq_exprs : Bytes → Bytes → Bytes → Bytes
  masq_exprs ip4 mask4 oif_name =
      expr_payload_ipv4_saddr
      ++ (expr_bitwise_mask mask4
          ++ (expr_cmp_ipv4 ip4
              ++ (expr_meta_oif_name ++ (expr_cmp_if_name oif_name ++ expr_masq))))

  -- NFTA_RULE_TABLE, NFTA_RULE_CHAIN and NFTA_RULE_EXPRESSIONS.
  unfoldable pub rule_attrs : Bytes → Bytes → Bytes → Bytes → Bytes → Bytes
  rule_attrs table_name chain_name ip4 mask4 oif_name =
      put_attr o (put_attr o (put_attr o [] 1 (zstr table_name)) 2 (zstr chain_name)) 4
        (masq_exprs ip4 mask4 oif_name)

  -- NFT_MSG_NEWRULE
  unfoldable pub build_new_masq_rule_msg : ℕ → Bytes → Bytes → Bytes → Bytes → Bytes → Bytes
  build_new_masq_rule_msg seq table_name chain_name ip4 mask4 oif_name =
      nft_msg seq 6 (nlm_f_request + nlm_f_ack + nlm_f_create + nlm_f_append) nfproto_ipv4
        (rule_attrs table_name chain_name ip4 mask4 oif_name)

  unfoldable pub delete_packet : Bytes → Bytes
  delete_packet table_name =
      batch_msg 1 nfnl_msg_batch_begin
      ++ (build_del_table_msg 2 table_name ++ batch_msg 3 nfnl_msg_batch_end)

  unfoldable pub delete_masquerade_table : Kernel → Bytes → Option (Result (Unit {0}))
  delete_masquerade_table k table_name =
      if length table_name == 0
      then some (err (fault table_name_empty))
      else request o k (delete_packet table_name) (2 ∷ [])

  unfoldable pub masquerade_packet : NftMasqConfig → Bytes
  masquerade_packet spec =
      batch_msg 1 nfnl_msg_batch_begin
      ++ (build_new_table_msg 2 spec.table_name
          ++ (build_new_chain_msg 3 spec.table_name spec.chain_name
              ++ (build_new_masq_rule_msg 4 spec.table_name spec.chain_name spec.src_ip
                    spec.src_mask spec.out_interface
                  ++ batch_msg 5 nfnl_msg_batch_end)))

  unfoldable pub apply_masquerade : Kernel → NftMasqConfig → Option (Result (Unit {0}))
  apply_masquerade k spec =
      unless_err (λ _. recv_acks o k.timeout k.received masquerade_acks)
        (wrapping (open_netlink k) >> wrapping (k.send (masquerade_packet spec)))
