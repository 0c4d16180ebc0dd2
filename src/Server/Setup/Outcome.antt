-- ===== src/Server/Setup/Outcome.antt =====
-- internal/server/server.go: the calls on IP forwarding and the table as data, and which of them `Run` may make
-- before it listens.
use elevpn.Prelude.{◌≡◌, List, [], ◌∷◌, ◌++◌, Error, Result, ok, err}
use elevpn.Bytes.{Bytes}
use elevpn.Netlink.DefaultRoute.{DefaultRoute}
use elevpn.Netlink.Nftable.{NftMasqConfig}
use elevpn.Vpn.Manager.{Managed, teardown}
use elevpn.Vpn.Forward.{ForwardFile}
use elevpn.Vpn.Masquerade.{MasqueradeOps, masq_config}
use elevpn.Server.Config.{ServerConfig}
use elevpn.Server.Setup.{server_table, masquerade_spec}

pub data HostCall : Type 0 where
  write_forward : Bytes → HostCall
  add_table : NftMasqConfig → HostCall
  delete_table : Bytes → HostCall

-- "1\n"
abbrev pub enabled : Bytes
enabled = b'1' ∷ 10 ∷ []

module _ (answer : List HostCall → HostCall → Result (Unit {0}))
    (read : List HostCall → Result Bytes) where
  abbrev pub asked_host : HostCall → List HostCall → List HostCall × Result (Unit {0})
  asked_host c k = (k ++ (c ∷ []), answer k c)

  -- A kernel that is known by the calls that change it.
  abbrev pub forward_calls : ForwardFile (List HostCall)
  forward_calls = record {
    read_file = read;
    write_file = λ value. asked_host (write_forward value);
  }

  abbrev pub table_calls : MasqueradeOps (List HostCall)
  table_calls = record {
    apply_masquerade = λ c. asked_host (add_table c);
    delete_masquerade_table = λ name. asked_host (delete_table name);
  }

  -- The calls of a set-up that failed, after the calls `k`.
  pub data Failed (k : List HostCall) (route_info : Result DefaultRoute) (cfg : ServerConfig)
      (calls : List HostCall) : Type 0 where
    -- Forwarding was not asked for.
    untouched : calls ≡ [] → Failed k route_info cfg calls
    -- Forwarding was refused, and what it was could be read.
    forward_refused :
        (before : Bytes) (e : Error)
        → read k ≡ ok before
        → calls ≡ write_forward enabled ∷ []
        → answer k (write_forward enabled) ≡ err e
        → Failed k route_info cfg calls
    -- The table cannot be asked for.
    table_invalid :
        (before : Bytes) (info : DefaultRoute) (e : Error)
        → read k ≡ ok before
        → answer k (write_forward enabled) ≡ ok tt
        → route_info ≡ ok info
        → masq_config (masquerade_spec cfg info) ≡ err e
        → calls ≡ write_forward enabled ∷ write_forward before ∷ []
        → Failed k route_info cfg calls
    -- The table was refused.
    table_refused :
        (before : Bytes) (info : DefaultRoute) (c : NftMasqConfig) (e : Error)
        → read k ≡ ok before
        → answer k (write_forward enabled) ≡ ok tt
        → route_info ≡ ok info
        → masq_config (masquerade_spec cfg info) ≡ ok c
        → answer (k ++ (write_forward enabled ∷ [])) (add_table c) ≡ err e
        → calls ≡ write_forward enabled ∷ add_table c ∷ write_forward before ∷ []
        → Failed k route_info cfg calls

  module _ (cfg : ServerConfig) (k : List HostCall) where
    -- On an error one of the ways to fail; or both calls, and what `Teardown` asks for.
    unfoldable pub ServerSetUp :
        Result DefaultRoute → Managed (List HostCall) → Result (Unit {0}) → Type 0
    ServerSetUp route_info m (err e) =
        (calls : List HostCall) × (m.host ≡ k ++ calls) × Failed k route_info cfg calls
    ServerSetUp route_info m (ok _) =
        (info : DefaultRoute) × (before : Bytes) × (c : NftMasqConfig) × (route_info ≡ ok info)
        × (read k ≡ ok before)
        × (masq_config (masquerade_spec cfg info) ≡ ok c)
        × (answer k (write_forward enabled) ≡ ok tt)
        × (answer (k ++ (write_forward enabled ∷ [])) (add_table c) ≡ ok tt)
        × (m.host ≡ k ++ (write_forward enabled ∷ add_table c ∷ []))
        × (teardown m.components m.host
            ≡ m.host ++ (delete_table server_table ∷ write_forward before ∷ []))
