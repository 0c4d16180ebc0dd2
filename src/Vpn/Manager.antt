-- ===== src/Vpn/Manager.antt =====
-- internal/vpn/vpn.go: `VpnManager`. The components change the host, which is a value of a type `K`; each has
-- fields of its own, which `Apply` sets and `Cleanup` reads.
use elevpn.Prelude.{List, [], ◌∷◌, ◌++◌, hide, Result, ok, err}

-- The interface `VpnComponent`, with the fields of the object that implements it.
pub record Component (K : Type 0) : Type 1 where
  pub Own : Type 0
  pub own : Own
  pub apply : Own → K → K × Own × Result (Unit {0})
  pub cleanup : Own → K → K × Own × Result (Unit {0})

-- What `ApplyAll` leaves: `components` in their order, the host, and the error.
pub record Managed (K : Type 0) : Type 1 where
  pub components : List (Component K)
  pub host : K
  pub result : Result (Unit {0})

module _ {K : Type 0} where
  -- `Teardown`, from the last component to the first. An error of one is logged.
  unfoldable pub teardown : List (Component K) → K → K
  teardown [] k = k
  teardown (c ∷ cs) k = (c.cleanup c.own (teardown cs k)).0

  -- After the `Apply` of a component.
  unfoldable pub after_apply :
      (rest : List (Component K) → K → Managed K) (components : List (Component K))
      (c : Component K)
      → K × c.Own × Result (Unit {0})
      → Managed K
  after_apply rest components c (k, own, err e) = record {
    components = components;
    host = teardown components k;
    result = err (hide e);
  }
  after_apply rest components c (k, own, ok _) =
      rest (components ++ (record c { own = own } ∷ [])) k

  unfoldable pub apply_all : List (Component K) → List (Component K) → K → Managed K
  apply_all [] components k = record { components = components; host = k; result = ok tt }
  apply_all (c ∷ cs) components k =
      after_apply (λ components' k'. apply_all cs components' k') components c (c.apply c.own k)
