-- ===== src/Server/Setup/Calls.antt =====
-- internal/server/server.go: what `Run` asks of IP forwarding and the table before it listens, whatever the kernel
-- answers.
use elevpn.Prelude.{
  ◌≡◌, refl, sym, ap, ◌∙◌, Option, none, some, List, [], ◌∷◌, ◌++◌, append_assoc, append-nil,
  Result, ok, err, ◌>>=◌,
}
use elevpn.Bytes.{Bytes}
use elevpn.Protocol.Message.{default_tunnel_mtu}
use elevpn.Netlink.DefaultRoute.{DefaultRoute}
use elevpn.Netlink.Nftable.{NftMasqConfig}
use elevpn.Tun.Host.{Os, Device}
use elevpn.Tun.Device.{Tun, new_tun, tun_apply, tun_cleanup}
use elevpn.Tun.Component.{beside, tun_component, no_device}
use elevpn.Vpn.Manager.{Component, teardown, after_apply, apply_all}
use elevpn.Vpn.Forward.{ForwardFile, ip_forward, forward_apply, forward_cleanup, after_read}
use elevpn.Vpn.Masquerade.{
  MasqueradeOps, no_own, apply_config, masquerade, masq_config, masquerade_apply,
  masquerade_cleanup,
}
use elevpn.Server.Config.{ServerConfig}
use elevpn.Server.Setup.{
  server_table, masquerade_spec, server_components, apply_server_components, server_setup,
}
use elevpn.Server.Setup.Outcome.{
  HostCall, write_forward, add_table, delete_table, enabled, forward_calls, table_calls, untouched,
  forward_refused, table_invalid, table_refused, ServerSetUp,
}

module _ (answer : List HostCall → HostCall → Result (Unit {0}))
    (read : List HostCall → Result Bytes) where
  abbrev forward_file : ForwardFile (List HostCall)
  forward_file = forward_calls answer read

  abbrev table_ops : MasqueradeOps (List HostCall)
  table_ops = table_calls answer read

  module _ (os : Os) (cfg : ServerConfig) (tun_name : Bytes) (k : List HostCall) where
    module _ (info : DefaultRoute) (device : Tun) (t : Device) where
      abbrev tun_with : Component (List HostCall)
      tun_with = record (tun_component os device) { own = t }

      abbrev forward_with : Option Bytes → Component (List HostCall)
      forward_with previous = record (ip_forward forward_file) { own = previous }

      abbrev table : Component (List HostCall)
      table = masquerade table_ops (masquerade_spec cfg info)

      beside_host :
          (now : List HostCall) (q : Device × Result (Unit {0}))
          → (beside {K = List HostCall} os now q).0 ≡ now
      beside_host now (_, r) = refl

      torn_down : (now : List HostCall) → teardown (tun_with ∷ []) now ≡ now
      unfolding teardown
      torn_down now = beside_host now (tun_cleanup os device t)

      forward_torn_down :
          (before : Bytes) (now : List HostCall)
          → teardown (tun_with ∷ forward_with (some before) ∷ []) now
            ≡ now ++ (write_forward before ∷ [])
      unfolding teardown forward_cleanup
      forward_torn_down before now = beside_host _ (tun_cleanup os device t)

      all_torn_down :
          (before : Bytes) (now : List HostCall)
          → teardown (tun_with ∷ forward_with (some before) ∷ table ∷ []) now
            ≡ now ++ (delete_table server_table ∷ write_forward before ∷ [])
      unfolding teardown forward_cleanup masquerade_cleanup masquerade_spec
      all_torn_down before now =
          beside_host _ (tun_cleanup os device t)
          ∙ append_assoc now (delete_table server_table ∷ []) (write_forward before ∷ [])

      module _ (before : Bytes) (was : read k ≡ ok before)
          (written : answer k (write_forward enabled) ≡ ok tt) where
        abbrev forwarding : List HostCall
        forwarding = k ++ (write_forward enabled ∷ [])

        table_answered :
            (c : NftMasqConfig)
            → masq_config (masquerade_spec cfg info) ≡ ok c
            → (x : Result (Unit {0})) → answer forwarding (add_table c) ≡ x
            → let m =
                after_apply
                  (λ cs k'. apply_all [] cs k')
                  (tun_with ∷ forward_with (some before) ∷ [])
                  table
                  (forwarding ++ (add_table c ∷ []), tt, x) in
              ServerSetUp answer read cfg k (ok info) m m.result
        unfolding after_apply apply_all ServerSetUp
        table_answered c valid (ok _) got = (
          info,
          before,
          c,
          refl,
          was,
          valid,
          written,
          got,
          append_assoc k (write_forward enabled ∷ []) (add_table c ∷ []),
          all_torn_down before _,
        )
        table_answered c valid (err e) got = (
          _,
          forward_torn_down before _
              ∙ ap (λ (x : List HostCall). x ++ (write_forward before ∷ []))
                  (append_assoc k (write_forward enabled ∷ []) (add_table c ∷ []))
              ∙ append_assoc k (write_forward enabled ∷ add_table c ∷ [])
                  (write_forward before ∷ []),
          table_refused before info c e was written refl valid got refl,
        )

        table_done :
            (q : Result NftMasqConfig)
            → masq_config (masquerade_spec cfg info) ≡ q
            → let m =
                after_apply
                  (λ cs k'. apply_all [] cs k')
                  (tun_with ∷ forward_with (some before) ∷ [])
                  table
                  (no_own table_ops
                    (masquerade_spec cfg info)
                    (apply_config table_ops (masquerade_spec cfg info) forwarding q)) in
              ServerSetUp answer read cfg k (ok info) m m.result
        unfolding after_apply ServerSetUp
        table_done (ok c) valid = table_answered c valid (answer forwarding (add_table c)) refl
        table_done (err e) valid = (
          _,
          forward_torn_down before forwarding
              ∙ append_assoc k (write_forward enabled ∷ []) (write_forward before ∷ []),
          table_invalid before info e was written refl valid refl,
        )

      forward_answered :
          (before : Bytes)
          → read k ≡ ok before
          → (x : Result (Unit {0})) → answer k (write_forward enabled) ≡ x
          → let m =
              after_apply
                (λ cs k'. apply_all (table ∷ []) cs k')
                (tun_with ∷ [])
                (ip_forward forward_file)
                (k ++ (write_forward enabled ∷ []), some before, x) in
            ServerSetUp answer read cfg k (ok info) m m.result
      unfolding after_apply apply_all masquerade_apply ServerSetUp
      forward_answered before was (ok _) got =
          table_done before was got (masq_config (masquerade_spec cfg info)) refl
      forward_answered before was (err e) got =
          (_, torn_down _, forward_refused before e was refl got)

      forward_done :
          (q : Result Bytes)
          → read k ≡ q
          → let m =
              after_apply
                (λ cs k'. apply_all (table ∷ []) cs k')
                (tun_with ∷ [])
                (ip_forward forward_file)
                (after_read forward_file none k q) in
            ServerSetUp answer read cfg k (ok info) m m.result
      unfolding after_read after_apply ServerSetUp
      forward_done (ok before) was =
          forward_answered before was (answer k (write_forward enabled)) refl
      forward_done (err e) was = ([], torn_down k ∙ sym (append-nil k), untouched refl)

    device_done :
        (info : DefaultRoute) (device : Tun) (x : Device × Result (Unit {0}))
        → let m =
            after_apply
              (λ cs k'.
                apply_all
                  (ip_forward forward_file ∷ masquerade table_ops (masquerade_spec cfg info) ∷ [])
                  cs
                  k')
              []
              (tun_component os device)
              (beside os k x) in
          ServerSetUp answer read cfg k (ok info) m m.result
    unfolding after_apply apply_all teardown forward_apply ServerSetUp
    device_done info device (t, err e) = ([], sym (append-nil k), untouched refl)
    device_done info device (t, ok _) = forward_done info device t (read k) refl

    built :
        (route_info : Result DefaultRoute) (q : Result Tun)
        → let m = apply_server_components os forward_file table_ops cfg tun_name k (
            route_info >>= λ info. q >>= λ device. ok (
              tun_component os device
              ∷ ip_forward forward_file
              ∷ masquerade table_ops (masquerade_spec cfg info)
              ∷ [])) in
          ServerSetUp answer read cfg k route_info m m.result
    unfolding ServerSetUp apply_all
    built (err e) q = ([], sym (append-nil k), untouched refl)
    built (ok info) (err e) = ([], sym (append-nil k), untouched refl)
    built (ok info) (ok device) =
        unfold apply_all in device_done info device (tun_apply os device no_device)

    -- Whatever the kernel answers to the device and to each call, the set-up of `Run` has one of five outcomes. On an error it has asked
    -- for nothing of forwarding and the table; or for forwarding alone, which was refused; or for forwarding, which was not refused, and
    -- then, because the table was invalid, or was asked for and refused, to write back what it had read of forwarding at
    -- first. On nil it has asked for forwarding and then for the table, and neither was refused;
    -- `Teardown` then asks to delete the table and, also where that is refused, to write back what was
    -- read of forwarding at first.
    pub server_setup_calls :
        (route_info : Result DefaultRoute)
        → let m =
            server_setup os
              (forward_calls answer read)
              (table_calls answer read)
              cfg
              tun_name
              route_info
              k in
          ServerSetUp answer read cfg k route_info m m.result
    unfolding server_setup server_components
    server_setup_calls route_info =
        built route_info (new_tun tun_name cfg.tun_addr_cidr default_tunnel_mtu)
