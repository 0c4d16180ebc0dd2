-- ===== src/Netlink/InetDiag/Sockets.antt =====
-- internal/netlink/inet_diag.go: the payload of a socket in a dump, and which sockets are looked for.
use elevpn.Prelude.{
  ℕ, ◌^◌, ◌≤◌, ◌<◌, ◌≡◌, refl, ap, ◌∙◌, Bool, ◌&&◌, ◌==◌, le→leb, if◌then◌else◌, List, [], ◌∷◌,
  ◌++◌, length, take, drop, length-append, take-append, drop-append, inl, inr, Bool-cases, arith,
}
use elevpn.Bytes.{Bytes, be, put_be, length-put_be, be-put_be_fits}
use elevpn.Protocol.Payload.{Addr, v4}
use elevpn.Netlink.InetDiag.{diag_payload}

-- A socket in a dump: `inet_diag_msg`, and what follows its fields.
pub record DiagSocket : Type 0 where
  pub family : ℕ
  pub state : ℕ
  pub timer : ℕ
  pub retrans : ℕ
  pub source_port : ℕ
  pub destination_port : Bytes
  pub source : Bytes
  pub remote : Bytes
  pub rest : Bytes

abbrev pub socket_payload : DiagSocket → Bytes
socket_payload s =
    s.family
    ∷ s.state
    ∷ s.timer
    ∷ s.retrans
    ∷ (put_be 2 s.source_port ++ ((s.destination_port ++ s.source) ++ (s.remote ++ s.rest)))

pub record IsSocket (s : DiagSocket) : Type 0 where
  pub port_u16 : s.source_port < 2 ^ 16
  pub between : length (s.destination_port ++ s.source) ≡ 18
  pub remote4 : length s.remote ≡ 4

-- An established IPv4 connection of the local port.
abbrev pub is_established : ℕ → DiagSocket → Bool
is_established port s = s.family == 2 && (s.state == 1 && s.source_port == port)

-- The remote addresses of those, in their order.
unfoldable pub established : ℕ → List DiagSocket → List Addr
established port [] = []
established port (s ∷ ss) =
    if is_established port s then v4 s.remote ∷ established port ss else established port ss

pub established-append :
    (port : ℕ) (ss ts : List DiagSocket)
    → established port (ss ++ ts) ≡ established port ss ++ established port ts
unfolding established
established-append port [] ts = refl
established-append port (s ∷ ss) ts = elim (Bool-cases (is_established port s)) [
  | inl t ↦ rw t (ap (◌∷◌ (v4 s.remote)) (established-append port ss ts))
  | inr f ↦ rw f (established-append port ss ts)
]

remote_part :
    (between remote rest : Bytes)
    → length between ≡ 18
    → length remote ≡ 4
    → take 4 (drop 18 (between ++ (remote ++ rest))) ≡ remote
remote_part between remote rest h k =
    ap (take 4) (drop-append 18 between (remote ++ rest) h) ∙ take-append 4 remote rest k

abbrev pub with_found : ℕ → List Addr → DiagSocket → List Addr
with_found port result s = if is_established port s then result ++ (v4 s.remote ∷ []) else result

skip_port : (port : ℕ) (bs : Bytes) → drop 20 (put_be 2 port ++ bs) ≡ drop 18 bs
unfolding put_be
skip_port port bs = refl

pub diag_payload-socket :
    (port : ℕ) (result : List Addr) (s : DiagSocket)
    → IsSocket s
    → diag_payload port result (socket_payload s) ≡ with_found port result s
unfolding diag_payload
diag_payload-socket port result s h =
    let between = s.destination_port ++ s.source in
    let tail = between ++ (s.remote ++ s.rest) in
    let size : 28 ≤ length (socket_payload s) = omega (
      arith,
      length-append (put_be 2 s.source_port) tail,
      length-put_be 2 s.source_port,
      length-append between (s.remote ++ s.rest),
      length-append s.remote s.rest,
      h.between,
      h.remote4,
    ) in
    let read : be (take 2 (put_be 2 s.source_port ++ tail)) ≡ s.source_port =
      ap be (take-append 2 (put_be 2 s.source_port) tail (length-put_be 2 s.source_port))
      ∙ be-put_be_fits 2 s.source_port h.port_u16 in
    let found = skip_port s.source_port tail in
    let remote = remote_part between s.remote s.rest h.between h.remote4 in
    rw (le→leb 28 (length (socket_payload s)) size, read, found) (rw remote refl)
