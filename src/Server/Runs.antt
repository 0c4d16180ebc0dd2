-- ===== src/Server/Runs.antt =====
-- internal/server/server.go: the three loops of `runTunnel` side by side, as a sequence of their rounds
-- in any order. A round runs to its end before the next one starts.
use elevpn.Prelude.{
  ℕ, suc, ◌+◌, ◌^◌, ◌<◌, ◌≡◌, ◌≢◌, sym, ap, ◌∙◌, inl, inr, some, List, [], ◌∷◌, length, nat_eq,
  bytes_eq, Result,
}
use elevpn.Prelude.Maps.{lookup}
use elevpn.Bytes.{Bytes}
use elevpn.Net.{UdpAddr, addr_eq}
use elevpn.Protocol.Aead.{Crypto, CipherSuite}
use elevpn.Protocol.Payload.{Addr, invalid}
use elevpn.Server.PeerStore.{deref, new_peer_store}
use elevpn.Server.PeerStore.Invariant.{new_peer_store-IsStore, peer_at, same_pointer}
use elevpn.Server.Config.{ServerConfig}
use elevpn.Server.Action.{World}
use elevpn.Server.Handlers.{Env, Conn, Tun}
use elevpn.Server.Handlers.Invariant.{IsServer, less_room}
use elevpn.Server.Loops.{udp_to_tun_round, tun_to_udp_round, expire_round}
use elevpn.Server.Loops.Kept.{
  udp_to_tun_round-IsServer, tun_to_udp_round-IsServer, expire_round-IsServer,
}

-- What one round finds outside.
pub data Round : Type 0 where
  udp_round : Env → Conn → Tun → Result (Bytes × UdpAddr) → Round
  tun_round : Env → Conn → Tun → Result Bytes → Round
  tick : ℕ → Round

abbrev pub start : World
start = record { peers = new_peer_store; calls = [] }

module _ (crypto : Crypto) (cfg : ServerConfig) (cs : CipherSuite) where
  unfoldable pub run_round : Round → World → World
  run_round (udp_round env conn tun received) w =
      (udp_to_tun_round crypto cfg cs env conn tun received w).0
  run_round (tun_round env conn tun received) w =
      (tun_to_udp_round crypto cfg cs env conn tun received w).0
  run_round (tick now) w = expire_round now w

  unfoldable pub run_all : List Round → World → World
  run_all [] w = w
  run_all (r ∷ rs) w = run_all rs (run_round r w)

  run_round-IsServer :
      (n : ℕ) (r : Round) (w : World) → IsServer (suc n) w → IsServer n (run_round r w)
  unfolding run_round
  run_round-IsServer n (udp_round env conn tun received) w s =
      udp_to_tun_round-IsServer crypto cfg cs env conn tun n received w s
  run_round-IsServer n (tun_round env conn tun received) w s =
      tun_to_udp_round-IsServer crypto cfg cs env conn tun n received w (less_room n w s)
  run_round-IsServer n (tick now) w s = expire_round-IsServer n now w (less_room n w s)

  run_all-IsServer :
      (rs : List Round) (w : World) → IsServer (length rs) w → IsServer 0 (run_all rs w)
  unfolding run_all
  run_all-IsServer [] w s = s
  run_all-IsServer (r ∷ rs) w s =
      run_all-IsServer rs (run_round r w) (run_round-IsServer (length rs) r w s)

  start-IsServer : (n : ℕ) → 1 + n < 2 ^ 64 → IsServer n start
  start-IsServer n h = record { store = new_peer_store-IsStore; distinct = tt; room = h }

  -- From the empty store, after any sequence of rounds of the three loops, with anything read and any
  -- answers, and shorter than uint64 has ids: the three maps of the peer store agree, and each id is in
  -- the map once.
  pub run_all-IsStore : (rs : List Round) → 1 + length rs < 2 ^ 64 → IsServer 0 (run_all rs start)
  run_all-IsStore rs h = run_all-IsServer rs start (start-IsServer (length rs) h)

  -- After any such sequence, two registered peers never share a tunnel IP: an address that both have
  -- set is that of one peer.
  pub run_all_one_peer :
      (rs : List Round) (i j p q : ℕ)
      → 1 + length rs < 2 ^ 64
      → let after = (run_all rs start).peers in
        lookup i after.by_id ≡ some (some p)
        → lookup j after.by_id ≡ some (some q)
        → (deref after.heap p).tunnel_ip ≡ (deref after.heap q).tunnel_ip
        → (deref after.heap p).tunnel_ip ≢ invalid
        → i ≡ j
  run_all_one_peer rs i j p q h a b same set =
      let after = (run_all rs start).peers in
      let s = (run_all-IsStore rs h).store in
      let at_p = peer_at after i p s a in
      let at_q = peer_at after j q s b in
      elim at_p.by_tunnel [
        | inl unset ↦ absurd (set unset)
        | inr l ↦ elim at_q.by_tunnel [
          | inl unset ↦ absurd (set (same ∙ unset))
          | inr k ↦
              let e : p ≡ q =
                same_pointer (λ (x : Addr). lookup x after.by_tunnel_ip) _ _ p q l k same in
              sym at_p.same_id ∙ ap (λ (t : ℕ). (deref after.heap t).id) e ∙ at_q.same_id
        ]
      ]
