-- ===== src/Server/Loops/Resilience.antt =====
-- internal/server/server.go, `udpToTun`: after which datagrams it goes on.
use elevpn.Prelude.{
  ℕ, ◌≡◌, ◌≢◌, inl, inr, refl, sym, ap, ◌∙◌, Bool, true, false, ◌==◌, Bool-cases, Option, none,
  some, length, take, Error, Result, ok, err, wrapping, wrap, reject, sentinel, drop_packet,
  ok-ne-err, ok-injective, err-injective, ==_iff, of_ne,
}
use elevpn.Bytes.{Bytes}
use elevpn.Net.{UdpAddr, ip_equal}
use elevpn.Protocol.Message.{
  Header, Message, message_type_aloha, message_type_data, message_type_keepalive,
}
use elevpn.Protocol.Codec.{peek_header}
use elevpn.Protocol.Aead.{Crypto, Cipher, CipherSuite, client_to_server}
use elevpn.Protocol.Packet.{decode_packet}
use elevpn.Protocol.ReplayWindow.{accept}
use elevpn.Protocol.ReplayWindow.Errors.{IsReplayError, accept-err}
use elevpn.Server.Peer.{Peer, accept_client_sequence}
use elevpn.Server.PeerStore.{Ptr, get_by_id, found, deref}
use elevpn.Server.Config.{ServerConfig}
use elevpn.Server.Action.{World, lift, attempt}
use elevpn.Server.Action.Kept.{bind_elim}
use elevpn.Server.Handlers.{
  Env, Conn, Tun, handle_keepalive, handle_data, handle_packet_error, or_drop, check_sender,
  deliver,
}
use elevpn.Server.Loops.{
  or_continue, found_cipher, dispatch, peer_round, other_packet, udp_packet, udp_to_tun_round,
  udp_buffer_len,
}

-- `handlePacketError` gives nil.
Logged : World × Result (Unit {0}) → Type 0
Logged r = handle_packet_error r.1 ≡ ok tt

replay_logged : (e : Error) → IsReplayError e → handle_packet_error (err (wrap (wrap e))) ≡ ok tt
replay_logged e (inl a) = rw a refl
replay_logged e (inr (inl a)) = rw a refl
replay_logged e (inr (inr a)) = rw a refl

wrapped_error :
    (r : Result (Unit {0})) (e : Error)
    → wrapping (wrapping r) ≡ err e
    → (d : Error) × (r ≡ err d) × (e ≡ wrap (wrap d))
wrapped_error (ok _) e h = absurd (ok-ne-err h)
wrapped_error (err d) e h = (d, refl, cc)

accept_logged :
    (x : Peer) (seq : ℕ) (e : Error)
    → wrapping (accept_client_sequence x seq).1 ≡ err e
    → handle_packet_error (err e) ≡ ok tt
unfolding accept_client_sequence
accept_logged x seq e h =
    let (d, r, w) = wrapped_error (accept x.client_replay_window seq).1 e h in
    rw w (replay_logged d (accept-err x.client_replay_window seq d r))

found_logged :
    (o : Option Ptr) (e : Error) → wrapping (found o) ≡ err e → handle_packet_error (err e) ≡ ok tt
found_logged none e h = let q : e ≡ wrap (sentinel drop_packet) = cc in rw q refl
found_logged (some none) e h = let q : e ≡ wrap (sentinel drop_packet) = cc in rw q refl
found_logged (some (some p)) e h = absurd (ok-ne-err h)

drop_logged : (o : Result ℕ) (e : Error) → or_drop o ≡ err e → handle_packet_error (err e) ≡ ok tt
drop_logged (ok p) e h = absurd (ok-ne-err h)
drop_logged (err d) e h = let q : e ≡ wrap (sentinel drop_packet) = cc in rw q refl

reject_logged :
    (b : Bool) (e : Error)
    → reject b (wrap (sentinel drop_packet)) ≡ err e
    → handle_packet_error (err e) ≡ ok tt
reject_logged false e h = absurd (ok-ne-err h)
reject_logged true e h = let q : e ≡ wrap (sentinel drop_packet) = cc in rw q refl

module _ (crypto : Crypto) (cfg : ServerConfig) (cs : CipherSuite) (env : Env) (conn : Conn)
    (tun : Tun) where
  keepalive-Logged : (m : Message) (w : World) → Logged (handle_keepalive crypto cfg cs env m w)
  unfolding handle_keepalive Logged
  keepalive-Logged m w =
      bind_elim Logged _ _ w
        (λ p known.
          bind_elim Logged _ _ w (λ _ _. refl)
            (λ e h. accept_logged (deref w.peers.heap p) m.sequence e h))
        (λ e h. unfold get_by_id in found_logged _ e h)

  sender_logged :
      (registered : Option UdpAddr) (addr : UdpAddr) (e : Error)
      → check_sender crypto cfg cs env registered addr ≡ err e
      → handle_packet_error (err e) ≡ ok tt
  sender_logged none addr e h = let q : e ≡ wrap (sentinel drop_packet) = cc in rw q refl
  sender_logged (some a) addr e h = elim (Bool-cases (ip_equal a.ip addr.ip)) [
    | inr f ↦ let q : e ≡ wrap (sentinel drop_packet) = sym (err-injective (rw f at h)) in rw q refl
    | inl t ↦ elim (Bool-cases (a.port == addr.port)) [
      | inr f ↦
          let q : e ≡ wrap (sentinel drop_packet) = sym (err-injective (rw (t, f) at h)) in
          rw q refl
      | inl u ↦ absurd (ok-ne-err (rw (t, u) at h))
    ]
  ]

  -- The device takes every packet as a whole.
  module _ (whole : (payload : Bytes) → tun payload ≡ ok (length payload)) where
    deliver_logged :
        (payload : Bytes) (w : World) → (deliver crypto cfg cs env tun payload w).1 ≡ ok tt
    unfolding attempt
    deliver_logged payload w =
        let same : (length payload == length payload) ≡ true =
          (==_iff (length payload) (length payload)).1 refl in
        rw (whole payload) (rw same refl)

    data-Logged :
        (addr : UdpAddr) (m : Message) (w : World)
        → Logged (handle_data crypto cfg cs env tun (some addr) m w)
    unfolding handle_data Logged
    data-Logged addr m w =
        bind_elim Logged _ _ w
          (λ _ _.
            bind_elim Logged _ _ w
              (λ p _.
                bind_elim Logged _ _ w
                  (λ a _.
                    bind_elim Logged _ _ w
                      (λ _ _.
                        bind_elim Logged _ _ w
                          (λ _ _.
                            bind_elim Logged _ _ _ (λ _ _. refl)
                              (λ e h. absurd (ok-ne-err (sym (deliver_logged m.payload _) ∙ h))))
                          (λ e h. accept_logged (deref w.peers.heap p) m.sequence e h))
                      (λ e h. sender_logged a addr e h))
                  (λ e h. absurd (ok-ne-err h)))
              (λ e h. drop_logged (get_by_id w.peers m.peer_id) e h))
          (λ e h. reject_logged (length m.payload == 0) e h)

    dispatch-Logged :
        (type : ℕ) (addr : UdpAddr) (m : Message) (w : World)
        → Logged (dispatch crypto cfg cs env conn tun type addr m w)
    unfolding dispatch Logged
    dispatch-Logged type addr m w = elim (Bool-cases (type == message_type_keepalive)) [
      | inl t ↦ rw t (keepalive-Logged m w)
      | inr f ↦ elim (Bool-cases (type == message_type_data)) [
        | inl t ↦ rw (f, t) (data-Logged addr m w)
        | inr g ↦ rw (f, g) refl
      ]
    ]

    -- The next round follows.
    GoesOn : World × Result (Unit {0}) → Type 0
    GoesOn r = r.1 ≡ ok tt

    message-GoesOn :
        (r : Result Message) (type : ℕ) (addr : UdpAddr) (w : World)
        → GoesOn (
            or_continue r
              (λ m.
                attempt
                  (dispatch crypto cfg cs env conn tun type addr m)
                  (λ x. lift (handle_packet_error x)))
              w)
    unfolding attempt GoesOn Logged
    message-GoesOn (err e) type addr w = refl
    message-GoesOn (ok m) type addr w = dispatch-Logged type addr m w

    cipher-GoesOn :
        (c : Option Cipher) (buf : Bytes) (type : ℕ) (addr : UdpAddr) (w : World)
        → GoesOn (
            found_cipher c
              (λ c. or_continue (decode_packet c buf client_to_server) (λ m.
                attempt
                  (dispatch crypto cfg cs env conn tun type addr m)
                  (λ x. lift (handle_packet_error x))))
              w)
    cipher-GoesOn none buf type addr w = unfold GoesOn in refl
    cipher-GoesOn (some c) buf type addr w =
        message-GoesOn (decode_packet c buf client_to_server) type addr w

    peer_round-GoesOn :
        (buf : Bytes) (addr : UdpAddr) (type peer : ℕ) (w : World)
        → GoesOn (peer_round crypto cfg cs env conn tun buf addr type peer w)
    unfolding peer_round
    peer_round-GoesOn buf addr type peer w =
        bind_elim GoesOn _ _ w (λ c _. cipher-GoesOn c buf type addr w)
          (λ e h. absurd (ok-ne-err h))

    found-GoesOn :
        (r : Result ℕ) (buf : Bytes) (addr : UdpAddr) (type : ℕ) (w : World)
        → GoesOn (or_continue r (peer_round crypto cfg cs env conn tun buf addr type) w)
    found-GoesOn (ok p) buf addr type w = peer_round-GoesOn buf addr type p w
    found-GoesOn (err e) buf addr type w = unfold GoesOn in refl

    header-GoesOn :
        (r : Result Header) (buf : Bytes) (addr : UdpAddr) (w : World)
        → ((h : Header) → r ≡ ok h → h.message_type ≢ message_type_aloha)
        → peek_header buf ≡ r
        → GoesOn (udp_packet crypto cfg cs env conn tun buf addr w)
    unfolding udp_packet other_packet attempt
    header-GoesOn (err e) buf addr w other q = unfold GoesOn in rw q refl
    header-GoesOn (ok h) buf addr w other q =
        let test : (h.message_type == message_type_aloha) ≡ false =
          of_ne h.message_type message_type_aloha (other h refl) in
        rw (q, test) (found-GoesOn (get_by_id w.peers h.peer_id) buf addr h.message_type w)

    -- While the TUN device takes every packet as a whole, `udpToTun` goes on after every datagram whose
    -- header does not say ALOHA, from anyone and in any state.
    pub udp_to_tun_round_goes_on :
        (datagram : Bytes) (addr : UdpAddr) (w : World)
        → ((h : Header)
            → peek_header (take udp_buffer_len datagram) ≡ ok h
            → h.message_type ≢ message_type_aloha)
        → (udp_to_tun_round crypto cfg cs env conn tun (ok (datagram, addr)) w).1 ≡ ok tt
    unfolding udp_to_tun_round GoesOn
    udp_to_tun_round_goes_on datagram addr w other =
        bind_elim GoesOn _ _ w
          (λ d got.
            header-GoesOn (peek_header (take udp_buffer_len d.0)) (take udp_buffer_len d.0) d.1 w
              (λ h q. other h (
                ap (λ (x : Bytes × UdpAddr). peek_header (take udp_buffer_len x.0))
                  (ok-injective got)
                ∙ q))
              refl)
          (λ e h. absurd (ok-ne-err h))
