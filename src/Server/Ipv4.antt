-- ===== src/Server/Ipv4.antt =====
-- internal/server/server.go: `extractIPv4Dst`.
pub mod Accepted
use elevpn.Prelude.{
  ℕ, ◌*◌, ◌/◌, ◌%◌, Bool, not, ltb, ◌==◌, length, get_or, take, drop, Error, fault, sentinel, wrap,
  drop_packet, packet_short, invalid_ihl, header_truncated, total_len_short, packet_truncated,
  Result, ok, err, ◌>>=◌, ◌>>◌, reject,
}
use elevpn.Bytes.{Bytes, be}
use elevpn.Protocol.Payload.{Addr, v4}

unfoldable pub extract_ipv4_dst : Bytes → Result Addr
extract_ipv4_dst packet = do
  reject (ltb (length packet) 20) (fault packet_short)
  let version = get_or packet 0 0 / 16
  reject (not (version == 4)) (wrap (sentinel drop_packet))
  let ihl = get_or packet 0 0 % 16
  reject (ltb ihl 5) (fault invalid_ihl)
  let header_len = ihl * 4
  reject (ltb (length packet) header_len) (fault header_truncated)
  let total_len = be (take 2 (drop 2 packet))
  reject (ltb total_len header_len) (fault total_len_short)
  reject (ltb (length packet) total_len) (fault packet_truncated)
  ok (v4 (take 4 (drop 16 packet)))
