-- ===== src/Vpn/Route/Calls.antt =====
-- internal/vpn/route.go: which operations `Apply` and `Cleanup` ask for, whatever the kernel answers.
use elevpn.Prelude.{
  ℕ, ◌≡◌, refl, sym, ap, ◌∙◌, List, [], ◌∷◌, ◌++◌, append_assoc, append-nil, Error, Result, ok, err,
}
use elevpn.Bytes.{Bytes}
use elevpn.Vpn.Route.{
  RouteSpec, Resolved, InterfaceIndex, RouteOps, delete_host_routes, after_restore, route_cleanup,
}

pub data RouteCall : Type 0 where
  add delete : Bytes → Bytes → ℕ → RouteCall
  replace_default : ℕ → RouteCall
  restore_default : Bytes → ℕ → RouteCall

-- The calls on the host routes of addresses: to add them in their order, and to delete them from the last to the first.
abbrev pub adds : Resolved → List Bytes → List RouteCall
adds r [] = []
adds r (a ∷ ips) = add a r.gateway r.gateway_interface_idx ∷ adds r ips

abbrev pub deletes : Resolved → List Bytes → List RouteCall
deletes r [] = []
deletes r (a ∷ ips) = deletes r ips ++ (delete a r.gateway r.gateway_interface_idx ∷ [])

pub adds-append :
    (r : Resolved) (ips more : List Bytes) → adds r (ips ++ more) ≡ adds r ips ++ adds r more
adds-append r [] more = refl
adds-append r (a ∷ ips) more =
    ap (λ (t : List RouteCall). add a r.gateway r.gateway_interface_idx ∷ t)
      (adds-append r ips more)

-- The answer to a call depends on all calls before it, and on nothing else that is known.
module _ (answer : List RouteCall → RouteCall → Result (Unit {0})) where
  abbrev pub asked : RouteCall → List RouteCall → List RouteCall × Result (Unit {0})
  asked c k = (k ++ (c ∷ []), answer k c)

  -- A kernel that is known by the calls alone.
  abbrev pub asking : RouteOps (List RouteCall)
  asking = record {
    add_host_route = λ a gw i. asked (add a gw i);
    del_host_route = λ a gw i. asked (delete a gw i);
    replace_default_route = λ j. asked (replace_default j);
    restore_default_route = λ gw i. asked (restore_default gw i);
  }

  -- Calls after others were all answered by nil.
  abbrev pub AllDone : List RouteCall → List RouteCall → Type 0
  AllDone k [] = Unit {0}
  AllDone k (c ∷ cs) = (answer k c ≡ ok tt) × AllDone (k ++ (c ∷ [])) cs

  pub AllDone-append :
      (k cs : List RouteCall) (c : RouteCall)
      → AllDone k cs
      → answer (k ++ cs) c ≡ ok tt
      → AllDone k (cs ++ (c ∷ []))
  AllDone-append k [] c h e = (ap (λ (t : List RouteCall). answer t c) (sym (append-nil k)) ∙ e, tt)
  AllDone-append k (x ∷ cs) c h e = (
    h.0,
    AllDone-append (k ++ (x ∷ [])) cs c h.1
        (ap (λ (t : List RouteCall). answer t c) (append_assoc k (x ∷ []) cs) ∙ e),
  )

  -- What the calls of `Apply` are once it has resolved, after the calls `k`, and what it gives.
  pub data Applied (k : List RouteCall) (r : Resolved) (calls : List RouteCall)
      (result : Result (Unit {0})) : Type 0 where
    -- No call was refused.
    all_applied :
        calls ≡ adds r r.bypass_ips ++ (replace_default r.tunnel_interface_idx ∷ [])
        → AllDone k calls
        → result ≡ ok tt
        → Applied k r calls result
    -- A host route was refused: those before it are to be deleted.
    add_refused :
        (done : List Bytes) (a : Bytes) (rest : List Bytes) (d e : Error)
        → r.bypass_ips ≡ done ++ (a ∷ rest)
        → calls ≡ adds r done ++ (add a r.gateway r.gateway_interface_idx ∷ deletes r done)
        → AllDone k (adds r done)
        → answer (k ++ adds r done) (add a r.gateway r.gateway_interface_idx) ≡ err d
        → result ≡ err e
        → Applied k r calls result
    -- The default route was refused: all host routes are to be deleted.
    replace_refused :
        (d e : Error)
        → calls
          ≡ adds r r.bypass_ips ++ (replace_default r.tunnel_interface_idx ∷ deletes r r.bypass_ips)
        → AllDone k (adds r r.bypass_ips)
        → answer (k ++ adds r r.bypass_ips) (replace_default r.tunnel_interface_idx) ≡ err d
        → result ≡ err e
        → Applied k r calls result

  -- The same of `Cleanup`, which stops where the default route cannot be restored.
  pub data CleanedUp (k : List RouteCall) (r : Resolved) (calls : List RouteCall) : Type 0 where
    all_cleaned :
        answer k (restore_default r.gateway r.gateway_interface_idx) ≡ ok tt
        → calls ≡ restore_default r.gateway r.gateway_interface_idx ∷ deletes r r.bypass_ips
        → CleanedUp k r calls
    restore_refused :
        (d : Error)
        → answer k (restore_default r.gateway r.gateway_interface_idx) ≡ err d
        → calls ≡ restore_default r.gateway r.gateway_interface_idx ∷ []
        → CleanedUp k r calls

  module _ (interface_by_name : Bytes → Result InterfaceIndex) (spec : RouteSpec) where
    pub deleted_calls :
        (r : Resolved) (ips : List Bytes) (k : List RouteCall)
        → (delete_host_routes interface_by_name asking spec r ips k).0 ≡ k ++ deletes r ips
    unfolding delete_host_routes
    deleted_calls r [] k = sym (append-nil k)
    deleted_calls r (a ∷ ips) k =
        ap (λ (t : List RouteCall). t ++ (delete a r.gateway r.gateway_interface_idx ∷ []))
          (deleted_calls r ips k)
        ∙ append_assoc k (deletes r ips) (delete a r.gateway r.gateway_interface_idx ∷ [])

    pub route_cleanup_calls :
        (r : Resolved) (k : List RouteCall)
        → (calls : List RouteCall) × ((route_cleanup interface_by_name asking spec r k).0
            ≡ k ++ calls)
          × CleanedUp k r calls
    unfolding route_cleanup after_restore
    route_cleanup_calls r k = go (answer k (restore_default r.gateway r.gateway_interface_idx)) refl
      where
        go :
            (x : Result (Unit {0}))
            → answer k (restore_default r.gateway r.gateway_interface_idx) ≡ x
            → (calls : List RouteCall) × ((after_restore interface_by_name asking spec r
                  (k ++ (restore_default r.gateway r.gateway_interface_idx ∷ []), x)).0
                ≡ k ++ calls)
              × CleanedUp k r calls
        go (err d) e = (_, refl, restore_refused d e refl)
        go (ok _) e = (
          _,
          deleted_calls r r.bypass_ips _
              ∙ append_assoc k (restore_default r.gateway r.gateway_interface_idx ∷ [])
                  (deletes r r.bypass_ips),
          all_cleaned e refl,
        )
