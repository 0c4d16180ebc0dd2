-- ===== src/Server/Ipv4/Accepted.antt =====
-- internal/server/server.go, `extractIPv4Dst`: which packets it accepts.
use elevpn.Prelude.{
  ◌*◌, ◌/◌, ◌%◌, ◌≤◌, ◌≡◌, ◌↔◌, refl, sym, ap, ◌∙◌, not, ltb, ◌==◌, length, get_or, take, drop, ok,
  reject, reject-eq-ok, ge_of, of_ge, eq_of, ok-injective, >>=-eq-ok,
}
use elevpn.Bytes.{Bytes, be}
use elevpn.Protocol.Payload.{Addr, v4}
use elevpn.Server.Ipv4.{extract_ipv4_dst}

-- An IPv4 header of 20 bytes at least, which the packet holds, and a total length between that of the
-- header and that of the packet.
pub record IsIpv4 (packet : Bytes) : Type 0 where
  pub long : 20 ≤ length packet
  pub version : get_or packet 0 0 / 16 ≡ 4
  pub words : 5 ≤ get_or packet 0 0 % 16
  pub header_there : get_or packet 0 0 % 16 * 4 ≤ length packet
  pub total_ge : get_or packet 0 0 % 16 * 4 ≤ be (take 2 (drop 2 packet))
  pub total_le : be (take 2 (drop 2 packet)) ≤ length packet

accepted :
    (packet : Bytes) → IsIpv4 packet → extract_ipv4_dst packet ≡ ok (v4 (take 4 (drop 16 packet)))
unfolding extract_ipv4_dst
accepted packet p =
    rw
      (
        of_ge (length packet) 20 p.long,
        p.version,
        of_ge (get_or packet 0 0 % 16) 5 p.words,
        of_ge (length packet) (get_or packet 0 0 % 16 * 4) p.header_there,
        of_ge (be (take 2 (drop 2 packet))) (get_or packet 0 0 % 16 * 4) p.total_ge,
        of_ge (length packet) (be (take 2 (drop 2 packet))) p.total_le,
      )
      refl

-- `extractIPv4Dst` gives an address exactly when the packet starts with a whole IPv4 header whose total
-- length fits, and it gives bytes 16 to 19.
pub extract_ipv4_dst-ok_iff :
    (packet : Bytes) (ip : Addr)
    → (extract_ipv4_dst packet ≡ ok ip) ↔ (IsIpv4 packet × (ip ≡ v4 (take 4 (drop 16 packet))))
unfolding extract_ipv4_dst
extract_ipv4_dst-ok_iff packet ip = (
  (λ h.
      let (_, a, h₁) = >>=-eq-ok (reject (ltb (length packet) 20) _) _ h in
      let (_, b, h₂) = >>=-eq-ok (reject (not (get_or packet 0 0 / 16 == 4)) _) _ h₁ in
      let (_, c, h₃) = >>=-eq-ok (reject (ltb (get_or packet 0 0 % 16) 5) _) _ h₂ in
      let (_, d, h₄) =
        >>=-eq-ok (reject (ltb (length packet) (get_or packet 0 0 % 16 * 4)) _) _ h₃ in
      let (_, e, h₅) =
        >>=-eq-ok (reject (ltb (be (take 2 (drop 2 packet))) (get_or packet 0 0 % 16 * 4)) _) _
          h₄ in
      let (_, f, h₆) =
        >>=-eq-ok (reject (ltb (length packet) (be (take 2 (drop 2 packet)))) _) _ h₅ in
      (
        record {
          long = ge_of (length packet) 20 (reject-eq-ok _ _ a);
          version = eq_of (get_or packet 0 0 / 16) 4 (reject-eq-ok _ _ b);
          words = ge_of (get_or packet 0 0 % 16) 5 (reject-eq-ok _ _ c);
          header_there = ge_of (length packet) (get_or packet 0 0 % 16 * 4) (reject-eq-ok _ _ d);
          total_ge =
              ge_of (be (take 2 (drop 2 packet))) (get_or packet 0 0 % 16 * 4) (reject-eq-ok _ _ e);
          total_le = ge_of (length packet) (be (take 2 (drop 2 packet))) (reject-eq-ok _ _ f);
        },
        sym (ok-injective h₆),
      )),
  λ (p, e). unfold extract_ipv4_dst in accepted packet p ∙ ap (λ (a : Addr). ok a) (sym e),
)
