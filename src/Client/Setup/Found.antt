-- ===== src/Client/Setup/Found.antt =====
-- internal/vpn/route.go, `resolve`, for the route of internal/client/client.go and route.go.
use elevpn.Prelude.{
  ℕ, ◌≡◌, refl, sym, ap, ◌∙◌, inl, inr, Bool, true, false, Bool-cases, ◌==◌, Option, none, some,
  List, [], ◌∷◌, ◌++◌, append-nil, append_assoc, length, take, drop, ◌&&◌, All-drop, length-drop,
  list_beq, Result, ok, err, hiding, reject, fault, psk_empty, err-ne-ok, ok-injective, >>=-eq-ok,
  ==_iff, arith,
}
use elevpn.Bytes.{Bytes, IsBytes, put_be, be, put_be-be}
use elevpn.Net.{CidrText, to4, v4_in_v6_prefix}
use elevpn.Protocol.Payload.{Addr}
use elevpn.Vpn.Route.{
  IpText, empty, no_ip, ip, parse_ip4, RouteSpec, Resolved, InterfaceIndex, negative, index,
  RouteOps, bypass_ip, or_return, need_route_ip4, usable_index, resolve_bypass, resolve,
}
use elevpn.Server.Config.{or_empty}
use elevpn.Client.Config.{ClientConfig, host_cidr, need_server_ip4, normalize_client}
use elevpn.Client.Bypass.{build_bypass_cidrs, detect_ssh_client_cidrs}

-- The bytes of an address are bytes.
abbrev pub IsIpText : IpText → Type 0
IsIpText empty = Unit {0}
IsIpText no_ip = Unit {0}
IsIpText (ip a) = IsBytes a

abbrev pub IsIp4 : Option Bytes → Type 0
IsIp4 none = Unit {0}
IsIp4 (some a) = (length a ≡ 4) × IsBytes a

and_left : (b c : Bool) → (b && c) ≡ true → b ≡ true
and_left true c h = refl
and_left false c h = h

mapped_length :
    (a : Bytes)
    → (length a == 16 && list_beq (take 12 a) v4_in_v6_prefix) ≡ true
    → length (drop 12 a) ≡ 4
mapped_length a h = omega (arith, length-drop 12 a, (==_iff (length a) 16).0 (and_left _ _ h))

to4-IsIp4 : (a : Bytes) → IsBytes a → IsIp4 (to4 a)
to4-IsIp4 a h = elim (Bool-cases (length a == 4)) [
  | inl four ↦ rw four ((==_iff (length a) 4).0 four, h)
  | inr other ↦ elim (Bool-cases (length a == 16 && list_beq (take 12 a) v4_in_v6_prefix)) [
    | inr neither ↦ rw (other, neither) tt
    | inl mapped ↦ rw (other, mapped) (mapped_length a mapped, All-drop _ 12 a h)
  ]
]

pub parse_ip4-IsIp4 : (t : IpText) → IsIpText t → IsIp4 (parse_ip4 t)
parse_ip4-IsIp4 empty h = tt
parse_ip4-IsIp4 no_ip h = tt
parse_ip4-IsIp4 (ip a) h = to4-IsIp4 a h

-- The CIDR of a host is read as its address.
bypass_ip-host_cidr : (a : Bytes) → length a ≡ 4 → IsBytes a → bypass_ip (host_cidr a) ≡ ok a
unfolding bypass_ip
bypass_ip-host_cidr a four h =
    let back : put_be 4 (be a) ≡ a = ap (λ (n : ℕ). put_be n (be a)) (sym four) ∙ put_be-be a h in
    rw (back, (==_iff (length a) 4).1 four) refl

-- The loop adds addresses at the end, and changes nothing else.
abbrev Grows : Resolved → Resolved × Result (Unit {0}) → Type 0
Grows r q = (more : List Bytes) × (q.0 ≡ record r { bypass_ips = r.bypass_ips ++ more })

Grows-refl : (r : Resolved) → r ≡ record r { bypass_ips = r.bypass_ips ++ [] }
Grows-refl r = ap (λ (t : List Bytes). record r { bypass_ips = t }) (sym (append-nil r.bypass_ips))

Grows-step :
    (r : Resolved) (rest : Resolved → Resolved × Result (Unit {0})) (q : Result Bytes)
    → ((r' : Resolved) → Grows r' (rest r'))
    → Grows r (or_return r q (λ a. rest (record r { bypass_ips = r.bypass_ips ++ (a ∷ []) })))
Grows-step r rest (err e) ih = ([], Grows-refl r)
Grows-step r rest (ok a) ih =
    let (more, e) = ih (record r { bypass_ips = r.bypass_ips ++ (a ∷ []) }) in
    (
      a ∷ more,
      e
          ∙ ap (λ (t : List Bytes). record r { bypass_ips = t })
              (append_assoc r.bypass_ips (a ∷ []) more),
    )

resolve_bypass-Grows : (cidrs : List CidrText) (r : Resolved) → Grows r (resolve_bypass cidrs r)
unfolding resolve_bypass
resolve_bypass-Grows [] r = ([], Grows-refl r)
resolve_bypass-Grows (cidr ∷ cidrs) r =
    Grows-step r (resolve_bypass cidrs) (bypass_ip cidr) (λ r'. resolve_bypass-Grows cidrs r')

or_return-eq-ok :
    {A : Type 0} (r r' : Resolved) (q : Result A) (rest : A → Resolved × Result (Unit {0}))
    → or_return r q rest ≡ (r', ok tt)
    → (a : A) × (q ≡ ok a) × (rest a ≡ (r', ok tt))
or_return-eq-ok r r' (err e) rest h = absurd (err-ne-ok (ap (λ t. t.1) h))
or_return-eq-ok r r' (ok a) rest h = (a, refl, h)

abbrev pub to_server : Bytes → ℕ → ℕ → List Bytes → Resolved
to_server gw i j ips = record {
  gateway = gw;
  gateway_interface_idx = i;
  tunnel_interface_idx = j;
  bypass_ips = ips;
}

pub server_first :
    (server : Bytes) (ssh_ips : Result (List Addr))
    → (rest : List CidrText) × (build_bypass_cidrs (host_cidr server) ssh_ips
        ≡ host_cidr server ∷ rest)
unfolding build_bypass_cidrs
server_first server ssh_ips = elim (Bool-cases (detect_ssh_client_cidrs ssh_ips).1) [
  | inl t ↦ ((detect_ssh_client_cidrs ssh_ips).0, rw t refl)
  | inr f ↦ ([], rw f refl)
]

resolve_bypass_first :
    (a : Bytes) (rest : List CidrText) (gw : Bytes) (i j : ℕ)
    → length a ≡ 4
    → IsBytes a
    → (more : List Bytes) × ((resolve_bypass (host_cidr a ∷ rest) (to_server gw i j [])).0
        ≡ to_server gw i j (a ∷ more))
unfolding resolve_bypass
resolve_bypass_first a rest gw i j four h =
    let (more, e) = resolve_bypass-Grows rest (to_server gw i j (a ∷ [])) in
    (more, rw (bypass_ip-host_cidr a four h) e)

need_route_ip4-eq-ok : (o : Option Bytes) {a : Bytes} → need_route_ip4 o ≡ ok a → o ≡ some a
need_route_ip4-eq-ok none h = absurd (err-ne-ok h)
need_route_ip4-eq-ok (some a) h = ap some (ok-injective h)

usable_index-eq-ok : (q : Result InterfaceIndex) {i : ℕ} → usable_index q ≡ ok i → q ≡ ok (index i)
usable_index-eq-ok (err e) h = absurd (err-ne-ok h)
usable_index-eq-ok (ok negative) h = absurd (err-ne-ok h)
usable_index-eq-ok (ok (index i)) h = ap (λ (n : ℕ). ok (index n)) (ok-injective h)

hiding-eq-ok : {A : Type 0} (q : Result A) {a : A} → hiding q ≡ ok a → q ≡ ok a
hiding-eq-ok (ok a) h = h
hiding-eq-ok (err e) h = absurd (err-ne-ok h)

need_server_ip4-eq-ok : (o : Option Bytes) {a : Bytes} → need_server_ip4 o ≡ ok a → o ≡ some a
need_server_ip4-eq-ok none h = absurd (err-ne-ok h)
need_server_ip4-eq-ok (some a) h = ap some (ok-injective h)

-- What `normalize` says of the server.
pub normal_server :
    (c cfg : ClientConfig) (host : IpText)
    → c.server_endpoint ≡ ok host
    → normalize_client c ≡ ok cfg
    → (a : Bytes) × (parse_ip4 host ≡ some a) × (cfg.server_route_cidr ≡ host_cidr a)
unfolding normalize_client
normal_server c cfg host e h =
    let (t, found, h1) = >>=-eq-ok (hiding c.server_endpoint) _ h in
    let same : t ≡ host = ok-injective (sym (hiding-eq-ok c.server_endpoint found) ∙ e) in
    let (a, read, h2) = >>=-eq-ok (need_server_ip4 (parse_ip4 t)) _ h1 in
    let (u, checked, h3) = >>=-eq-ok (reject (length c.psk == 0) (fault psk_empty)) _ h2 in
    (
      a,
      ap parse_ip4 (sym same) ∙ need_server_ip4-eq-ok (parse_ip4 t) read,
      ap (λ (x : ClientConfig). x.server_route_cidr) (sym (ok-injective h3)),
    )

-- What `resolve` finds for a route whose first CIDR is that of the server.
abbrev pub Found : (Bytes → Result InterfaceIndex) → RouteSpec → Bytes → Resolved → Type 0
Found interface_by_name spec a r =
    (gw : Bytes) × (i : ℕ) × (j : ℕ) × (more : List Bytes) × (parse_ip4 spec.gateway ≡ some gw)
    × (interface_by_name spec.gateway_interface_name ≡ ok (index i))
    × (interface_by_name spec.tunnel_interface_name ≡ ok (index j))
    × (r ≡ to_server gw i j (a ∷ more))

pub resolve_first :
    {K : Type 0} (interface_by_name : Bytes → Result InterfaceIndex) (ops : RouteOps K)
    (spec : RouteSpec) (r r' : Resolved) (a : Bytes) (rest : List CidrText)
    → spec.bypass_cidrs ≡ host_cidr a ∷ rest
    → length a ≡ 4
    → IsBytes a
    → resolve interface_by_name ops spec r ≡ (r', ok tt)
    → Found interface_by_name spec a r'
unfolding resolve
resolve_first interface_by_name ops spec r r' a rest first four h e =
    let (gw, gateway_read, e1) =
      or_return-eq-ok _ r' (need_route_ip4 (parse_ip4 spec.gateway)) _ e in
    let (i, at_gateway, e2) =
      or_return-eq-ok _ r' (usable_index (interface_by_name spec.gateway_interface_name)) _ e1 in
    let (j, at_tunnel, e3) =
      or_return-eq-ok _ r' (usable_index (interface_by_name spec.tunnel_interface_name)) _ e2 in
    let given = need_route_ip4-eq-ok (parse_ip4 spec.gateway) gateway_read in
    let (more, found) = resolve_bypass_first a rest gw i j four h in
    (
      gw,
      i,
      j,
      more,
      given,
      usable_index-eq-ok _ at_gateway,
      usable_index-eq-ok _ at_tunnel,
      ap (λ t. t.0) (sym e3)
          ∙ ap
              (λ (cidrs : List CidrText).
                (resolve_bypass cidrs (to_server (or_empty (parse_ip4 spec.gateway)) i j [])).0)
              first
          ∙ ap
              (λ (o : Option Bytes).
                (resolve_bypass (host_cidr a ∷ rest) (to_server (or_empty o) i j [])).0)
              given
          ∙ found,
    )
