-- ===== src/Vpn/Route.antt =====
-- internal/vpn/route.go and route_ops.go: the bypass routes and the default route of a client. A text is taken as
-- what the package net reads in it.
pub mod Calls
pub mod Ran
use elevpn.Prelude.{
  ℕ, Bool, true, false, not, ◌==◌, if◌then◌else◌, Option, none, some, List, [], ◌∷◌, ◌++◌, length,
  Error, fault, join, wrap, hide, hiding, reject, server_route_ip_empty, gateway_empty,
  gateway_interface_empty, tunnel_interface_empty, ipv4_only, invalid_index, invalid_cidr_format,
  Result, ok, err, ◌>>=◌, ◌>>◌,
}
use elevpn.Bytes.{Bytes, put_be}
use elevpn.Net.{CidrText, malformed, cidr4, cidr6, to4, parse_cidr}
use elevpn.Server.Config.{or_empty}
use elevpn.Vpn.Manager.{Component}

-- A text that `net.ParseIP` reads an address in, or nothing.
pub data IpText : Type 0 where
  empty no_ip : IpText
  ip : Bytes → IpText

abbrev pub is_empty : IpText → Bool
is_empty empty = true
is_empty no_ip = false
is_empty (ip _) = false

-- `net.ParseIP(text).To4()`
abbrev pub parse_ip4 : IpText → Option Bytes
parse_ip4 empty = none
parse_ip4 no_ip = none
parse_ip4 (ip a) = to4 a

pub record RouteSpec : Type 0 where
  pub server_route_ip : IpText
  pub gateway : IpText
  pub gateway_interface_name : Bytes
  pub tunnel_interface_name : Bytes
  pub bypass_cidrs : List CidrText

-- The fields that `resolve` sets. A nil gateway is empty.
pub record Resolved : Type 0 where
  pub gateway : Bytes
  pub gateway_interface_idx : ℕ
  pub tunnel_interface_idx : ℕ
  pub bypass_ips : List Bytes

-- The index of a `net.Interface`.
pub data InterfaceIndex : Type 0 where
  negative : InterfaceIndex
  index : ℕ → InterfaceIndex

-- `validate` of a new route.
unfoldable pub validate : RouteSpec → Result (Unit {0})
validate spec = do
  reject (is_empty spec.server_route_ip) (fault server_route_ip_empty)
  reject (is_empty spec.gateway) (fault gateway_empty)
  reject (length spec.gateway_interface_name == 0) (fault gateway_interface_empty)
  reject (length spec.tunnel_interface_name == 0) (fault tunnel_interface_empty)

-- The address of `net.ParseCIDR`, which is not masked.
abbrev pub cidr_ip : CidrText → Bytes
cidr_ip malformed = []
cidr_ip (cidr4 address prefix) = put_be 4 address
cidr_ip (cidr6 address prefix) = put_be 16 address

abbrev pub need_route_ip4 : Option Bytes → Result Bytes
need_route_ip4 none = err (fault ipv4_only)
need_route_ip4 (some a) = ok a

-- A round of the loop over the CIDRs.
unfoldable pub bypass_ip : CidrText → Result Bytes
bypass_ip cidr = do
  ipnet ← hiding (parse_cidr cidr)
  a ← need_route_ip4 (to4 (cidr_ip cidr))
  reject (not (ipnet.ones == 32)) (fault invalid_cidr_format)
  ok a

abbrev pub usable_index : Result InterfaceIndex → Result ℕ
usable_index (err e) = err (hide e)
usable_index (ok negative) = err (fault invalid_index)
usable_index (ok (index i)) = ok i

-- The fields as they are, and the error; or the rest of the body.
abbrev pub or_return :
    {A : Type 0}
    → Resolved
    → Result A
    → (A → Resolved × Result (Unit {0}))
    → Resolved × Result (Unit {0})
or_return r (err e) rest = (r, err e)
or_return r (ok a) rest = rest a

unfoldable pub resolve_bypass : List CidrText → Resolved → Resolved × Result (Unit {0})
resolve_bypass [] r = (r, ok tt)
resolve_bypass (cidr ∷ cidrs) r =
    or_return r (bypass_ip cidr)
      (λ a. resolve_bypass cidrs (record r { bypass_ips = r.bypass_ips ++ (a ∷ []) }))

-- The interface `routeOperations`, on a host of type `K`.
pub record RouteOps (K : Type 0) : Type 0 where
  pub add_host_route : Bytes → Bytes → ℕ → K → K × Result (Unit {0})
  pub del_host_route : Bytes → Bytes → ℕ → K → K × Result (Unit {0})
  pub replace_default_route : ℕ → K → K × Result (Unit {0})
  pub restore_default_route : Bytes → ℕ → K → K × Result (Unit {0})

-- `errors.Join`, where a nil error is no error.
abbrev pub joined : Result (Unit {0}) → Result (Unit {0}) → Result (Unit {0})
joined (ok _) r = r
joined (err d) (ok _) = err d
joined (err d) (err e) = err (join d e)

abbrev pub wrapped : Result (Unit {0}) → Result (Unit {0})
wrapped (ok u) = ok u
wrapped (err e) = err (wrap e)

abbrev pub join_rollback :
    {K : Type 0} → Error → Resolved → K × Result (Unit {0}) → K × Resolved × Result (Unit {0})
join_rollback e r (k, rollback) = (k, r, joined (err (wrap e)) rollback)

module _ {K : Type 0} (interface_by_name : Bytes → Result InterfaceIndex) (ops : RouteOps K)
    (spec : RouteSpec) where
  unfoldable pub resolve : Resolved → Resolved × Result (Unit {0})
  resolve r =
      let with_gateway = record r { gateway = or_empty (parse_ip4 spec.gateway) } in
      or_return with_gateway (need_route_ip4 (parse_ip4 spec.gateway)) (λ _.
        or_return with_gateway (usable_index (interface_by_name spec.gateway_interface_name)) (λ i.
          let with_index = record with_gateway { gateway_interface_idx = i } in
          or_return with_index (usable_index (interface_by_name spec.tunnel_interface_name)) (λ j.
            resolve_bypass spec.bypass_cidrs
              (record with_index { tunnel_interface_idx = j; bypass_ips = [] }))))

  -- `deleteHostRoutes`, of the addresses given, from the last to the first.
  unfoldable pub delete_host_routes : Resolved → List Bytes → K → K × Result (Unit {0})
  delete_host_routes r [] k = (k, ok tt)
  delete_host_routes r (a ∷ ips) k =
      let (k', later) = delete_host_routes r ips k in
      let (k'', first) = ops.del_host_route a r.gateway r.gateway_interface_idx k' in
      (k'', joined later (wrapped first))

  -- After `addHostRoute`, and the rest of the loop. `done` are the addresses before this one.
  unfoldable pub after_add :
      (rest : List Bytes → K → K × Resolved × Result (Unit {0})) (r : Resolved) (done : List Bytes)
      (a : Bytes)
      → K × Result (Unit {0})
      → K × Resolved × Result (Unit {0})
  after_add rest r done a (k, err e) = join_rollback e r (delete_host_routes r done k)
  after_add rest r done a (k, ok _) = rest (done ++ (a ∷ [])) k

  unfoldable pub after_replace : Resolved → K × Result (Unit {0}) → K × Resolved × Result (Unit {0})
  after_replace r (k, err e) = join_rollback e r (delete_host_routes r r.bypass_ips k)
  after_replace r (k, ok _) = (k, r, ok tt)

  -- The loop over `bypassIPs`, and what follows it.
  unfoldable pub add_host_routes :
      Resolved → List Bytes → List Bytes → K → K × Resolved × Result (Unit {0})
  add_host_routes r [] done k = after_replace r (ops.replace_default_route r.tunnel_interface_idx k)
  add_host_routes r (a ∷ ips) done k =
      after_add (λ done' k'. add_host_routes r ips done' k') r done a
        (ops.add_host_route a r.gateway r.gateway_interface_idx k)

  unfoldable pub apply_resolved :
      K → Resolved × Result (Unit {0}) → K × Resolved × Result (Unit {0})
  apply_resolved k (r, err e) = (k, r, err e)
  apply_resolved k (r, ok _) = add_host_routes r r.bypass_ips [] k

  unfoldable pub route_apply : Resolved → K → K × Resolved × Result (Unit {0})
  route_apply r k = apply_resolved k (resolve r)

  unfoldable pub after_restore : Resolved → K × Result (Unit {0}) → K × Resolved × Result (Unit {0})
  after_restore r (k, err e) = (k, r, err e)
  after_restore r (k, ok _) =
      let (k', result) = delete_host_routes r r.bypass_ips k in (k', r, result)

  unfoldable pub route_cleanup : Resolved → K → K × Resolved × Result (Unit {0})
  route_cleanup r k =
      after_restore r (ops.restore_default_route r.gateway r.gateway_interface_idx k)

  abbrev pub route_component : Resolved → Component K
  route_component r = record {
    Own = Resolved;
    own = r;
    apply = route_apply;
    cleanup = route_cleanup;
  }

abbrev pub unresolved : Resolved
unresolved = record {
  gateway = [];
  gateway_interface_idx = 0;
  tunnel_interface_idx = 0;
  bypass_ips = [];
}

-- `NewRoute`
unfoldable pub new_route :
    {K : Type 0} (interface_by_name : Bytes → Result InterfaceIndex) (ops : RouteOps K)
    → RouteSpec
    → Result (Component K)
new_route interface_by_name ops spec =
    validate spec >>= λ _. ok (route_component interface_by_name ops spec unresolved)
