-- ===== src/Client/Setup/Calls.antt =====
-- internal/client/client.go: what `Run` asks of the routes before the session, whatever the kernel answers.
use elevpn.Prelude.{
  ◌≡◌, refl, sym, subst, ◌∙◌, ◌⊎◌, inl, inr, List, [], ◌∷◌, ◌++◌, append-nil, Error, Result, ok,
  err, ok-ne-err, ◌>>=◌,
}
use elevpn.Bytes.{Bytes}
use elevpn.Protocol.Payload.{Addr}
use elevpn.Netlink.DefaultRoute.{DefaultRoute}
use elevpn.Tun.Host.{Os, Device}
use elevpn.Tun.Device.{Tun, new_tun, tun_apply, tun_cleanup}
use elevpn.Tun.Component.{beside, tun_component, no_device}
use elevpn.Vpn.Manager.{Component, Managed, teardown, after_apply, apply_all}
use elevpn.Vpn.Route.{
  RouteSpec, Resolved, InterfaceIndex, resolve, validate, new_route, route_component, unresolved,
}
use elevpn.Vpn.Route.Calls.{RouteCall, asking, Applied, CleanedUp, route_cleanup_calls}
use elevpn.Vpn.Route.Ran.{RanOrNot, route_apply-Ran}
use elevpn.Client.Config.{ClientConfig}
use elevpn.Client.Handshake.{HandshakeResult}
use elevpn.Client.Setup.{tunnel_cidr, route_spec, client_components, apply_components, client_setup}

module _ (answer : List RouteCall → RouteCall → Result (Unit {0})) (os : Os)
    (interface_by_name : Bytes → Result InterfaceIndex) (cfg : ClientConfig) (tun_name : Bytes)
    (ssh_ips : Result (List Addr)) (k : List RouteCall) where
  -- On an error: no call, or those of an `Apply` of the routes that failed and took back its host routes. Otherwise:
  -- those of an `Apply` that resolved its fields and was refused nothing, and `Teardown` takes them back.
  unfoldable pub SetUp : Result DefaultRoute → Managed (List RouteCall) → Result (Unit {0}) → Type 0
  SetUp default_route m (err e) =
      (calls : List RouteCall) × (m.host ≡ k ++ calls)
      × ((calls ≡ [])
          ⊎ ((info : DefaultRoute) × (r : Resolved) × (d : Error) × (default_route ≡ ok info)
              × (resolve interface_by_name (asking answer) (route_spec cfg tun_name info ssh_ips)
                    unresolved
                  ≡ (r, ok tt))
              × Applied answer k r calls (err d)))
  SetUp default_route m (ok _) =
      (info : DefaultRoute) × (r : Resolved) × (calls : List RouteCall) × (default_route ≡ ok info)
      × (resolve interface_by_name (asking answer) (route_spec cfg tun_name info ssh_ips) unresolved
          ≡ (r, ok tt))
      × (m.host ≡ k ++ calls)
      × Applied answer k r calls (ok tt)
      × ((cleaned : List RouteCall) × (teardown m.components m.host ≡ m.host ++ cleaned)
          × CleanedUp answer m.host r cleaned)

  module _ (info : DefaultRoute) (device : Tun) where
    abbrev spec : RouteSpec
    spec = route_spec cfg tun_name info ssh_ips

    abbrev tun_with : Device → Component (List RouteCall)
    tun_with t = record (tun_component os device) { own = t }

    abbrev route : Component (List RouteCall)
    route = route_component interface_by_name (asking answer) spec unresolved

    beside_same :
        (now : List RouteCall) (q : Device × Result (Unit {0}))
        → (beside {K = List RouteCall} os now q).0 ≡ now
    beside_same now (t, r) = refl

    route_done :
        (t : Device) (v : Resolved × Result (Unit {0}))
        (x : List RouteCall × Resolved × Result (Unit {0}))
        → resolve interface_by_name (asking answer) spec unresolved ≡ v
        → RanOrNot answer k interface_by_name spec x v
        → let m = after_apply (λ cs k'. apply_all [] cs k') (tun_with t ∷ []) route x in
          SetUp (ok info) m m.result
    unfolding after_apply apply_all teardown SetUp
    route_done t (r, err e) (k', r', err d) found (same, _, _) =
        ([], beside_same k' (tun_cleanup os device t) ∙ same ∙ sym (append-nil k), inl refl)
    route_done t (r, err e) (k', r', ok _) found (_, _, h) = absurd (ok-ne-err h)
    route_done t (r, ok _) (k', r', err d) found (calls, same, _, ran) =
        (calls, beside_same k' (tun_cleanup os device t) ∙ same, inr (info, r, d, refl, found, ran))
    route_done t (r, ok _) (k', r', ok _) found (calls, same, own, ran) =
        let (cleaned, went, clean) = route_cleanup_calls answer interface_by_name spec r' k' in
        (
          info,
          r,
          calls,
          refl,
          found,
          same,
          ran,
          (
            cleaned,
            beside_same _ (tun_cleanup os device t) ∙ went,
            subst (λ (s : Resolved). CleanedUp answer k' s cleaned) own clean,
          ),
        )

    tun_done :
        (x : Device × Result (Unit {0}))
        → let m =
            after_apply
              (λ cs k'. apply_all (route ∷ []) cs k')
              []
              (tun_component os device)
              (beside os k x) in
          SetUp (ok info) m m.result
    unfolding after_apply apply_all teardown SetUp
    tun_done (t, err e) = ([], sym (append-nil k), inl refl)
    tun_done (t, ok _) =
        route_done t _ _ refl (route_apply-Ran answer k interface_by_name spec unresolved)

  checked :
      (q : Result Tun) (default_route : Result DefaultRoute)
      → let m = apply_components os interface_by_name (asking answer) cfg tun_name k (
          q >>= λ device. default_route >>= λ info.
          new_route interface_by_name (asking answer) (route_spec cfg tun_name info ssh_ips)
          >>= λ last. ok (tun_component os device ∷ last ∷ [])) in
        SetUp default_route m m.result
  unfolding SetUp new_route
  checked (err e) default_route = ([], sym (append-nil k), inl refl)
  checked (ok device) (err e) = ([], sym (append-nil k), inl refl)
  checked (ok device) (ok info) = validated (validate (route_spec cfg tun_name info ssh_ips))
    where
      validated :
          (v : Result (Unit {0}))
          → let m = apply_components os interface_by_name (asking answer) cfg tun_name k (
              (v >>= λ _. ok (route info device)) >>= λ last.
              ok (tun_component os device ∷ last ∷ [])) in
            SetUp (ok info) m m.result
      validated (err e) = ([], sym (append-nil k), inl refl)
      validated (ok _) = unfold apply_all in tun_done info device (tun_apply os device no_device)

  -- Whatever the kernel answers to the device and to each call, the set-up of `Run` has one of three outcomes. On an error it has asked for
  -- nothing of the routes; or, with the routes resolved, it added host routes until one of them, or the default route
  -- behind all of them, was refused, and then asked to delete those that were added before, from
  -- the last to the first. On nil it has added every host route and then replaced the default route, and none was
  -- refused; `Teardown` then asks to restore the default route by the gateway and, unless that is refused, to
  -- delete every host route, from the last to the first.
  pub client_setup_calls :
      (result : HandshakeResult) (default_route : Result DefaultRoute)
      → let m =
          client_setup os interface_by_name
            (asking answer)
            cfg
            tun_name
            result
            default_route
            ssh_ips
            k in
        SetUp default_route m m.result
  unfolding client_setup client_components
  client_setup_calls result default_route =
      checked (new_tun tun_name (tunnel_cidr result.tunnel_ip) result.mtu) default_route
