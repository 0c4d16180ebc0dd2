-- ===== src/Prelude/Maps.antt =====
-- Go's maps as association lists. A write replaces the entry in place or adds one at the end, so the
-- order of the list is one of the orders in which Go may range over the map.
use mathlib.Core.Path.{◌≡◌, refl, sym, ◌∙◌}
use mathlib.Core.Logic.{◌≢◌, ◌⊎◌, inl, inr}
use mathlib.Core.Bool.{false≢true}
use mathlib.Core.Option.{Option, none, some, some-injective}
use mathlib.Core.List.{List, [], ◌∷◌}
use native.Mathlib.Omega.{arith}
use elevpn.Prelude.Tests.{Eq, beq_ne, Bool-cases, if◌then◌else◌}

pub record Entry {ℓ κ} (K : Type ℓ) (V : Type κ) : Type (ℓ ⊔ κ) where
  pub key : K
  pub value : V

abbrev pub Map {ℓ κ} : Type ℓ → Type κ → Type (ℓ ⊔ κ)
Map K V = List (Entry K V)

pub none≢some {ℓ} : {A : Type ℓ} {a : A} → none ≢ some a
none≢some h = cc

module _ {ℓ κ} {K : Type ℓ} {V : Type κ} ⦃e : Eq K⦄ where
  unfoldable pub lookup : K → Map K V → Option V
  lookup k [] = none
  lookup k (x ∷ m) = if e.beq x.key k then some x.value else lookup k m

  unfoldable pub insert : K → V → Map K V → Map K V
  insert k v [] = record { key = k; value = v } ∷ []
  insert k v (x ∷ m) = if e.beq x.key k then record { key = k; value = v } ∷ m else x ∷ insert k v m

  unfoldable pub delete : K → Map K V → Map K V
  delete k [] = []
  delete k (x ∷ m) = let rest = delete k m in if e.beq x.key k then rest else x ∷ rest

  pub lookup-insert :
      (k j : K) (v : V) (m : Map K V)
      → lookup j (insert k v m) ≡ (if e.beq k j then some v else lookup j m)
  unfolding lookup insert
  lookup-insert k j v [] = refl
  lookup-insert k j v (x ∷ m) =
      ground (arith, e.beq_iff k j, e.beq_iff x.key k, e.beq_iff x.key j, lookup-insert k j v m)

  pub lookup-delete :
      (k j : K) (m : Map K V) → lookup j (delete k m) ≡ (if e.beq k j then none else lookup j m)
  unfolding lookup delete
  lookup-delete k j [] = ground arith
  lookup-delete k j (x ∷ m) =
      ground (arith, e.beq_iff k j, e.beq_iff x.key k, e.beq_iff x.key j, lookup-delete k j m)

  pub lookup-insert_self : (k : K) (v : V) (m : Map K V) → lookup k (insert k v m) ≡ some v
  lookup-insert_self k v m = rw (lookup-insert k k v m, (e.beq_iff k k).1 refl) refl

  pub lookup-insert_ne :
      (k j : K) (v : V) (m : Map K V) → k ≢ j → lookup j (insert k v m) ≡ lookup j m
  lookup-insert_ne k j v m h = rw (lookup-insert k j v m, beq_ne e k j h) refl

  pub lookup-delete_self : (k : K) (m : Map K V) → lookup k (delete k m) ≡ none
  lookup-delete_self k m = rw (lookup-delete k k m, (e.beq_iff k k).1 refl) refl

  pub lookup-delete_ne : (k j : K) (m : Map K V) → k ≢ j → lookup j (delete k m) ≡ lookup j m
  lookup-delete_ne k j m h = rw (lookup-delete k j m, beq_ne e k j h) refl

  -- What is found after a write or a delete was written just now, or was found before.
  pub lookup-insert_cases :
      (k j : K) (v w : V) (m : Map K V)
      → lookup j (insert k v m) ≡ some w
      → ((k ≡ j) × (v ≡ w)) ⊎ ((k ≢ j) × (lookup j m ≡ some w))
  lookup-insert_cases k j v w m h = elim (Bool-cases (e.beq k j)) [
    | inl same ↦
        let k≡j = (e.beq_iff k j).0 same in
        let here : some v ≡ some w = rw (lookup-insert k j v m, same) at h in
        inl (k≡j, some-injective v w here)
    | inr other ↦ inr (
      (λ k≡j. false≢true (sym other ∙ (e.beq_iff k j).1 k≡j)),
      rw (lookup-insert k j v m, other) at h,
    )
  ]

  pub lookup-delete_cases :
      (k j : K) (w : V) (m : Map K V)
      → lookup j (delete k m) ≡ some w
      → (k ≢ j) × (lookup j m ≡ some w)
  lookup-delete_cases k j w m h = elim (Bool-cases (e.beq k j)) [
    | inl same ↦
        let gone : none ≡ some w = rw (lookup-delete k j m, same) at h in absurd (none≢some gone)
    | inr other ↦ (
      (λ k≡j. false≢true (sym other ∙ (e.beq_iff k j).1 k≡j)),
      rw (lookup-delete k j m, other) at h,
    )
  ]
