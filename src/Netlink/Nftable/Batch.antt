-- ===== src/Netlink/Nftable/Batch.antt =====
-- internal/netlink/nftable.go: what the kernel reads in the batch of `ApplyMasquerade`.
use elevpn.Prelude.{
  ℕ, ◌^◌, ◌≤◌, ◌<◌, ◌≡◌, refl, ap, ◌∙◌, ◌==◌, if◌then◌else◌, List, [], ◌∷◌, ◌++◌, append-nil, map,
  length, All, arith, bit_and,
}
use elevpn.Bytes.{Bytes, ByteOrder, put_be}
use elevpn.Netlink.Wire.{align4, nl_msg, put_attr, put_nest_attr, zstr, nlm_f_ack}
use elevpn.Netlink.Wire.Read.{
  NlMessage, IsAligned, read_messages, send_all, read_messages-send_all, send_all-IsSendableMessage,
}
use elevpn.Netlink.Wire.Attrs.{put_attr-IsAligned}
use elevpn.Netlink.Nftable.{
  NftMasqConfig, nfgen, batch_msg, nft_msg, build_new_table_msg, build_new_chain_msg,
  build_new_masq_rule_msg, chain_attrs, rule_attrs, masquerade_packet, masquerade_acks,
}

-- The sequences of the messages that ask for an acknowledgement, in their order.
abbrev pub asking : List NlMessage → List ℕ
asking [] = []
asking (m ∷ ms) = if bit_and m.flags nlm_f_ack == nlm_f_ack then m.seq ∷ asking ms else asking ms

module _ (o : ByteOrder) (spec : NftMasqConfig) where
  abbrev table_payload : Bytes
  table_payload = nfgen 2 0 ++ put_attr o [] 1 (zstr spec.table_name)

  abbrev masquerade_messages : List NlMessage
  masquerade_messages =
      record { msg_type = 16; flags = 1; seq = 1; payload = nfgen 0 10 }
      ∷ record { msg_type = 2560; flags = 0x605; seq = 2; payload = table_payload }
      ∷ record {
        msg_type = 2563;
        flags = 0x605;
        seq = 3;
        payload = nfgen 2 0 ++ chain_attrs o spec.table_name spec.chain_name;
      }
      ∷ record {
        msg_type = 2566;
        flags = 0xc05;
        seq = 4;
        payload =
            nfgen 2 0
            ++ rule_attrs o spec.table_name spec.chain_name spec.src_ip spec.src_mask
                spec.out_interface;
      }
      ∷ record { msg_type = 17; flags = 1; seq = 5; payload = nfgen 0 10 }
      ∷ []

  masquerade_packet_lem : masquerade_packet o spec ≡ send_all o masquerade_messages
  unfolding masquerade_packet batch_msg nft_msg build_new_table_msg build_new_chain_msg
      build_new_masq_rule_msg
  masquerade_packet_lem = rw (append-nil (nl_msg o 5 17 1 (nfgen 0 10))) refl

  generic_IsAligned :
      (family res_id : ℕ) (attrs : Bytes)
      → IsAligned attrs
      → IsAligned (nfgen family res_id ++ attrs)
  unfolding nfgen put_be align4
  generic_IsAligned family res_id attrs h = omega (arith, h)

  masquerade_messages-IsAligned : All (λ m. IsAligned m.payload) masquerade_messages
  unfolding nfgen put_be align4 chain_attrs rule_attrs put_nest_attr
  masquerade_messages-IsAligned =
      let empty : IsAligned [] = omega arith in
      let name : (t : ℕ) (text : Bytes) → IsAligned (put_attr o [] t text) =
        λ t text. put_attr-IsAligned o [] t text empty in
      let second : (t u : ℕ) (text more : Bytes)
          → IsAligned (put_attr o (put_attr o [] t text) u more) =
        λ t u text more. put_attr-IsAligned o _ u more (name t text) in
      let chain = second 1 3 (zstr spec.table_name) (zstr spec.chain_name) in
      let rule = second 1 2 (zstr spec.table_name) (zstr spec.chain_name) in
      let whole = λ (attrs : Bytes) (h : IsAligned attrs). generic_IsAligned 2 0 attrs h in
      (
        omega arith,
        (
          whole _ (name 1 (zstr spec.table_name)),
          (
            whole _ (put_attr-IsAligned o _ 7 _ (put_attr-IsAligned o _ _ _ chain)),
            (whole _ (put_attr-IsAligned o _ 4 _ rule), (omega arith, tt)),
          ),
        ),
      )

  -- The kernel reads the batch that `ApplyMasquerade` sends, if it is below 4 GiB, as five messages under
  -- the sequences 1 to 5: the start of a batch, a new table, a new chain and a new rule of nftables, and
  -- the end of the batch. The sequences that `ApplyMasquerade` waits for are exactly those of the messages
  -- that ask for an acknowledgement.
  pub masquerade_packet_read :
      (fuel : ℕ)
      → 5 ≤ fuel
      → length (masquerade_packet o spec) < 2 ^ 32
      → let ms = read_messages o fuel (masquerade_packet o spec) in
        (map (λ m. m.seq) ms ≡ 1 ∷ 2 ∷ 3 ∷ 4 ∷ 5 ∷ [])
        × (map (λ m. m.msg_type) ms ≡ 16 ∷ 2560 ∷ 2563 ∷ 2566 ∷ 17 ∷ [])
        × (asking ms ≡ masquerade_acks)
  masquerade_packet_read fuel le size =
      let sendable =
        send_all-IsSendableMessage o masquerade_messages (rw masquerade_packet_lem at size)
          (omega arith) masquerade_messages-IsAligned in
      let read : read_messages o fuel (masquerade_packet o spec) ≡ masquerade_messages =
        ap (read_messages o fuel) masquerade_packet_lem
        ∙ read_messages-send_all o masquerade_messages fuel sendable le in
      rw read (refl, refl, refl)
