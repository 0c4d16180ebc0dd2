-- ===== src/Protocol/Payload.antt =====
-- internal/protocol/payload.go: the six bytes that WELCOME carries, and the addresses of net/netip.
pub mod RoundTrip
use elevpn.Prelude.{
  ℕ, ◌<◌, ◌≡◌, Bool, true, false, not, ◌==◌, ◌++◌, length, take, drop, list_beq, Error, fault,
  not_ipv4, mtu_zero, invalid_welcome_length, Result, ok, err, ◌>>=◌, ◌>>◌, reject,
}
use elevpn.Bytes.{Bytes, IsBytes, put_be, be}

-- `netip.Addr`. The zero Addr is no address.
pub data Addr : Type 0 where
  invalid : Addr
  v4 v6 : Bytes → Addr

abbrev pub is4 : Addr → Bool
is4 (v4 _) = true
is4 _ = false

-- `As4`, which is called on IPv4 addresses only.
abbrev pub as4 : Addr → Bytes
as4 (v4 ip) = ip
as4 (v6 ip) = take 4 ip
as4 invalid = put_be 4 0

abbrev pub welcome_payload_len : ℕ
welcome_payload_len = 6

pub record WelcomePayload : Type 0 where
  pub tunnel_ip : Addr
  pub mtu : ℕ

unfoldable pub encode_welcome_payload : WelcomePayload → Result Bytes
encode_welcome_payload payload = do
  reject (not (is4 payload.tunnel_ip)) (fault not_ipv4)
  reject (payload.mtu == 0) (fault mtu_zero)
  ok (as4 payload.tunnel_ip ++ put_be 2 payload.mtu)

unfoldable pub decode_welcome_payload : Bytes → Result WelcomePayload
decode_welcome_payload buf = do
  reject (not (length buf == welcome_payload_len)) (fault invalid_welcome_length)
  ok (record { tunnel_ip = v4 (take 4 buf); mtu = be (take 2 (drop 4 buf)) })
