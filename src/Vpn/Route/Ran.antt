-- ===== src/Vpn/Route/Ran.antt =====
-- internal/vpn/route.go: the calls of `Apply`, whatever the kernel answers.
use elevpn.Prelude.{
  ◌≡◌, refl, sym, ap, subst, ◌∙◌, List, [], ◌∷◌, ◌++◌, append_assoc, append-nil, Error, Result, ok,
  err, wrap,
}
use elevpn.Bytes.{Bytes}
use elevpn.Vpn.Route.{
  RouteSpec, Resolved, InterfaceIndex, joined, resolve, delete_host_routes, after_add,
  after_replace, add_host_routes, apply_resolved, route_apply,
}
use elevpn.Vpn.Route.Calls.{
  RouteCall, add, replace_default, adds, deletes, adds-append, asking, AllDone, AllDone-append,
  Applied, all_applied, add_refused, replace_refused, deleted_calls,
}

module _ (answer : List RouteCall → RouteCall → Result (Unit {0})) (k : List RouteCall)
    (interface_by_name : Bytes → Result InterfaceIndex) (spec : RouteSpec) where
  -- Some calls came after those of before, and they and the result are as they should be.
  abbrev pub Ran : Resolved → List RouteCall × Resolved × Result (Unit {0}) → Type 0
  Ran r q = (calls : List RouteCall) × (q.0 ≡ k ++ calls) × (q.1 ≡ r) × Applied answer k r calls q.2

  join_err : (d : Error) (x : Result (Unit {0})) → (e : Error) × (joined (err d) x ≡ err e)
  join_err d (ok _) = (d, refl)
  join_err d (err e) = (_, refl)

  module _ (r : Resolved) where
    longer :
        (now : List RouteCall) (done : List Bytes) (c : RouteCall) (later : List RouteCall)
        → now ≡ k ++ adds r done
        → (now ++ (c ∷ [])) ++ later ≡ k ++ (adds r done ++ (c ∷ later))
    longer now done c later e =
        append_assoc now (c ∷ []) later
        ∙ ap (λ (t : List RouteCall). t ++ (c ∷ later)) e
        ∙ append_assoc k (adds r done) (c ∷ later)

    replaced_Ran :
        (now : List RouteCall)
        → now ≡ k ++ adds r r.bypass_ips
        → AllDone answer k (adds r r.bypass_ips)
        → (x : Result (Unit {0})) → answer now (replace_default r.tunnel_interface_idx) ≡ x
        → Ran r (
            after_replace interface_by_name
              (asking answer)
              spec
              r
              (now ++ (replace_default r.tunnel_interface_idx ∷ []), x))
    unfolding after_replace
    replaced_Ran now e all (ok _) got =
        let c = replace_default r.tunnel_interface_idx in
        let here = ap (λ (t : List RouteCall). answer t c) (sym e) ∙ got in
        (
          _,
          sym (append-nil _) ∙ longer now r.bypass_ips c [] e,
          refl,
          all_applied refl (AllDone-append answer k (adds r r.bypass_ips) c all here) refl,
        )
    replaced_Ran now e all (err d) got =
        let c = replace_default r.tunnel_interface_idx in
        let here = ap (λ (t : List RouteCall). answer t c) (sym e) ∙ got in
        let (d', joins) =
          join_err (wrap d)
            (delete_host_routes interface_by_name (asking answer) spec r r.bypass_ips
              (now ++ (c ∷ []))).1 in
        (
          _,
          deleted_calls answer interface_by_name spec r r.bypass_ips _
              ∙ longer now r.bypass_ips c (deletes r r.bypass_ips) e,
          refl,
          replace_refused d d' refl all here joins,
        )

    added_Ran :
        (ips done : List Bytes) (now : List RouteCall)
        → now ≡ k ++ adds r done
        → AllDone answer k (adds r done)
        → r.bypass_ips ≡ done ++ ips
        → Ran r (add_host_routes interface_by_name (asking answer) spec r ips done now)
    unfolding add_host_routes after_add
    added_Ran [] done now e all same =
        let whole : r.bypass_ips ≡ done = same ∙ append-nil done in
        replaced_Ran now (e ∙ ap (λ (t : List Bytes). k ++ adds r t) (sym whole))
          (subst (λ (t : List Bytes). AllDone answer k (adds r t)) (sym whole) all) _ refl
    added_Ran (a ∷ ips) done now e all same =
        let c = add a r.gateway r.gateway_interface_idx in
        go (answer now c) refl (λ got.
          let here = ap (λ (t : List RouteCall). answer t c) (sym e) ∙ got in
          added_Ran ips (done ++ (a ∷ [])) (now ++ (c ∷ []))
            (ap (λ (t : List RouteCall). t ++ (c ∷ [])) e
              ∙ append_assoc k (adds r done) (c ∷ [])
              ∙ ap (λ (t : List RouteCall). k ++ t) (sym (adds-append r done (a ∷ []))))
            (subst (AllDone answer k) (sym (adds-append r done (a ∷ [])))
              (AllDone-append answer k (adds r done) c all here))
            (same ∙ sym (append_assoc done (a ∷ []) ips)))
      where
        go :
            (x : Result (Unit {0}))
            → answer now (add a r.gateway r.gateway_interface_idx) ≡ x
            → (answer now (add a r.gateway r.gateway_interface_idx) ≡ ok tt
                → Ran r (
                    add_host_routes interface_by_name
                      (asking answer)
                      spec
                      r
                      ips
                      (done ++ (a ∷ []))
                      (now ++ (add a r.gateway r.gateway_interface_idx ∷ []))))
            → Ran r (
                after_add interface_by_name
                  (asking answer)
                  spec
                  (λ done' k'.
                    add_host_routes interface_by_name (asking answer) spec r ips done' k')
                  r
                  done
                  a
                  (now ++ (add a r.gateway r.gateway_interface_idx ∷ []), x))
        go (err d) got next =
            let c = add a r.gateway r.gateway_interface_idx in
            let here = ap (λ (t : List RouteCall). answer t c) (sym e) ∙ got in
            let (d', joins) =
              join_err (wrap d)
                (delete_host_routes interface_by_name (asking answer) spec r done
                  (now ++ (c ∷ []))).1 in
            (
              _,
              deleted_calls answer interface_by_name spec r done _
                  ∙ longer now done c (deletes r done) e,
              refl,
              add_refused done a ips d d' same refl all here joins,
            )
        go (ok _) got next = next got

  -- Nothing was asked for, because the fields could not be resolved; or the calls are those on the resolved fields.
  abbrev pub RanOrNot :
      List RouteCall × Resolved × Result (Unit {0}) → Resolved × Result (Unit {0}) → Type 0
  RanOrNot q (r, err e) = (q.0 ≡ k) × (q.1 ≡ r) × (q.2 ≡ err e)
  RanOrNot q (r, ok _) = Ran r q

  resolved_Ran :
      (x : Resolved × Result (Unit {0}))
      → RanOrNot (apply_resolved interface_by_name (asking answer) spec k x) x
  unfolding apply_resolved
  resolved_Ran (r, err e) = (refl, refl, refl)
  resolved_Ran (r, ok _) = added_Ran r r.bypass_ips [] k (sym (append-nil k)) tt refl

  -- Whatever the kernel answers to each call, `Apply` asks for nothing if it cannot resolve its fields. Otherwise it adds the
  -- host routes in their order and then replaces the default route, until a call is refused. If none is, it
  -- gives nil. If one is, it gives an error, after it has asked to delete exactly the host routes that were
  -- added before, from the last to the first, also where deletions are refused.
  pub route_apply-Ran :
      (r : Resolved)
      → RanOrNot
          (route_apply interface_by_name (asking answer) spec r k)
          (resolve interface_by_name (asking answer) spec r)
  unfolding route_apply
  route_apply-Ran r = resolved_Ran (resolve interface_by_name (asking answer) spec r)
