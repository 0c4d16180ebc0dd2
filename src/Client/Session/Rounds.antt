-- ===== src/Client/Session/Rounds.antt =====
-- internal/client/session.go: what a round of `udpToTun` writes.
use elevpn.Prelude.{
  ℕ, ◌+◌, ◌≡◌, ◌⊎◌, inl, inr, refl, sym, ap, ◌==◌, ==_iff, ltb, Bool-cases, Option, [], ◌∷◌, length,
  take, Error, Result, ok, err, wrapping-eq-ok,
}
use elevpn.Bytes.{Bytes}
use elevpn.Protocol.Message.{
  Message, message_type_data, message_header_len, max_payload_size, aead_tag_len,
}
use elevpn.Protocol.ReplayWindow.{accept}
use elevpn.Protocol.Aead.{server_to_client}
use elevpn.Protocol.Packet.{decode_packet}
use elevpn.Client.Session.{
  Session, Outcome, accept_server_sequence, write_packet, deliver_accepted, deliver_decoded,
  session_udp_to_tun_round,
}

-- The buffer that a datagram is read into.
abbrev pub received : Bytes → Bytes
received datagram = take (message_header_len + max_payload_size + aead_tag_len) datagram

-- The datagram is a DATA packet sealed for this client, with a sequence that its window accepts.
pub record IsData (s : Session) (datagram : Bytes) (m : Message) : Type 0 where
  pub decoded : decode_packet s.cipher (received datagram) server_to_client ≡ ok m
  pub type_data : m.message_type ≡ message_type_data
  pub fresh : (accept s.server_replay_window m.sequence).1 ≡ ok tt

Delivers : Session → Bytes → Outcome → Type 0
Delivers s datagram o =
    (o.writes ≡ []) ⊎ ((m : Message) × IsData s datagram m × (o.writes ≡ m.payload ∷ []))

module _ (ctx_err : Option Error) (tun : Bytes → Result ℕ) (s : Session) (datagram : Bytes) where
  accepted-Delivers :
      (m : Message) (r : Session × Result (Unit {0}))
      → r ≡ accept_server_sequence s m.sequence
      → decode_packet s.cipher (received datagram) server_to_client ≡ ok m
      → m.message_type ≡ message_type_data
      → Delivers s datagram (deliver_accepted ctx_err tun m r)
  unfolding Delivers deliver_accepted accept_server_sequence write_packet
  accepted-Delivers m (s', err e) q d t = inl refl
  accepted-Delivers m (s', ok _) q d t = inr (
    m,
    record {
      decoded = d;
      type_data = t;
      fresh = wrapping-eq-ok _ (sym (ap (λ (x : Session × Result (Unit {0})). x.1) q));
    },
    refl,
  )

  decoded-Delivers :
      (r : Result Message)
      → decode_packet s.cipher (received datagram) server_to_client ≡ r
      → Delivers s datagram (deliver_decoded ctx_err tun s r)
  unfolding deliver_decoded
  decoded-Delivers (err e) q = unfold Delivers in inl refl
  decoded-Delivers (ok m) q = elim (Bool-cases (m.message_type == message_type_data)) [
    | inl t ↦ rw t (
        accepted-Delivers m (accept_server_sequence s m.sequence) refl q
          ((==_iff m.message_type message_type_data).0 t))
    | inr f ↦ rw f (unfold Delivers in inl refl)
  ]

  -- A round of the client's `udpToTun` writes nothing to the TUN device, or just the payload of the
  -- datagram, which then is a DATA packet sealed for this client whose sequence the window accepts.
  pub session_udp_to_tun_round_writes :
      let o = session_udp_to_tun_round ctx_err tun s (ok datagram) in
      (o.writes ≡ []) ⊎ ((m : Message) × IsData s datagram m × (o.writes ≡ m.payload ∷ []))
  unfolding session_udp_to_tun_round Delivers
  session_udp_to_tun_round_writes = elim (Bool-cases (ltb 0 (length (received datagram)))) [
    | inl t ↦
        rw t (decoded-Delivers (decode_packet s.cipher (received datagram) server_to_client) refl)
    | inr f ↦ rw f (inl refl)
  ]
