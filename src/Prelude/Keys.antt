-- ===== src/Prelude/Keys.antt =====
-- Maps that hold each key once, as Go's do, and walks over their entries.
use elevpn.Prelude.Tests.{Eq, beq_ne, beq_refl, Bool-cases}
use elevpn.Prelude.Lists.{length, All}
use elevpn.Prelude.Maps.{Map, Entry, lookup, insert, delete, none≢some}
use Prim.Native.Nat.{suc}
use mathlib.Core.Path.{◌≡◌, refl, sym, ap, subst, ◌∙◌}
use mathlib.Core.Logic.{◌≢◌, inl, inr}
use mathlib.Core.Bool.{Bool, false, ◌||◌, false≢true}
use mathlib.Core.Option.{none, some}
use mathlib.Core.List.{[], ◌∷◌}
use native.Mathlib.Omega.{arith}

module _ {ℓ κ} {K : Type ℓ} {V : Type κ} where
  -- No entry has the key.
  abbrev pub Lacks : K → Map K V → Type ℓ
  Lacks k = All (λ y. y.key ≢ k)

  abbrev pub KeysDistinct : Map K V → Type ℓ
  KeysDistinct [] = Unit {ℓ}
  KeysDistinct (x ∷ m) = Lacks x.key m × KeysDistinct m

module _ {ℓ κ} {K : Type ℓ} {V : Type κ} ⦃e : Eq K⦄ where
  lookup-Lacks : (k : K) (m : Map K V) → Lacks k m → lookup k m ≡ none
  unfolding lookup
  lookup-Lacks k [] h = refl
  lookup-Lacks k (x ∷ m) h = rw (beq_ne e x.key k h.0) (lookup-Lacks k m h.1)

  delete_absent : (k : K) (m : Map K V) → Lacks k m → delete k m ≡ m
  unfolding delete
  delete_absent k [] h = refl
  delete_absent k (x ∷ m) h = rw (beq_ne e x.key k h.0) (ap (◌∷◌ x) (delete_absent k m h.1))

  delete-Lacks : (k j : K) (m : Map K V) → Lacks j m → Lacks j (delete k m)
  unfolding delete
  delete-Lacks k j [] h = tt
  delete-Lacks k j (x ∷ m) h = elim (Bool-cases (e.beq x.key k)) [
    | inl same ↦ rw same (delete-Lacks k j m h.1)
    | inr other ↦ rw other (h.0, delete-Lacks k j m h.1)
  ]

  pub delete-KeysDistinct : (k : K) (m : Map K V) → KeysDistinct m → KeysDistinct (delete k m)
  unfolding delete
  delete-KeysDistinct k [] d = tt
  delete-KeysDistinct k (x ∷ m) d = elim (Bool-cases (e.beq x.key k)) [
    | inl same ↦ rw same (delete-KeysDistinct k m d.1)
    | inr other ↦ rw other (delete-Lacks k x.key m d.0, delete-KeysDistinct k m d.1)
  ]

  pub insert-Lacks : (k j : K) (v : V) (m : Map K V) → k ≢ j → Lacks j m → Lacks j (insert k v m)
  unfolding insert
  insert-Lacks k j v [] ne h = (ne, tt)
  insert-Lacks k j v (x ∷ m) ne h = elim (Bool-cases (e.beq x.key k)) [
    | inl same ↦ rw same (ne, h.1)
    | inr other ↦ rw other (h.0, insert-Lacks k j v m ne h.1)
  ]

  pub insert-KeysDistinct :
      (k : K) (v : V) (m : Map K V) → KeysDistinct m → KeysDistinct (insert k v m)
  unfolding insert
  insert-KeysDistinct k v [] d = (tt, tt)
  insert-KeysDistinct k v (x ∷ m) d = elim (Bool-cases (e.beq x.key k)) [
    | inl same ↦ rw same (subst (λ (j : K). Lacks j m) ((e.beq_iff x.key k).0 same) d.0, d.1)
    | inr other ↦ rw other (
      insert-Lacks k x.key v m (λ k≡x. false≢true (sym other ∙ (e.beq_iff x.key k).1 (sym k≡x)))
          d.0,
      insert-KeysDistinct k v m d.1,
    )
  ]

  -- Deleting a key that is there takes away one entry.
  pub length-delete :
      (k : K) (v : V) (m : Map K V)
      → KeysDistinct m
      → lookup k m ≡ some v
      → length m ≡ suc (length (delete k m))
  unfolding lookup delete
  length-delete k v [] d h = absurd (none≢some h)
  length-delete k v (x ∷ m) d h = elim (Bool-cases (e.beq x.key k)) [
    | inl same ↦
        let lacks = subst (λ (j : K). Lacks j m) ((e.beq_iff x.key k).0 same) d.0 in
        rw same (ap (λ (t : Map K V). suc (length t)) (sym (delete_absent k m lacks)))
    | inr other ↦ rw other (ap suc (length-delete k v m d.1 (rw other at h)))
  ]

  weaken :
      (x : Entry K V) (m xs : Map K V)
      → Lacks x.key xs
      → All (λ y. lookup y.key m ≡ some y.value) xs
      → All (λ y. lookup y.key (x ∷ m) ≡ some y.value) xs
  unfolding lookup
  weaken x m [] l a = tt
  weaken x m (y ∷ ys) l a =
      (rw (beq_ne e x.key y.key (λ h. l.0 (sym h))) a.0, weaken x m ys l.1 a.1)

  -- Each entry is what a lookup of its key finds.
  pub entries_found : (m : Map K V) → KeysDistinct m → All (λ y. lookup y.key m ≡ some y.value) m
  unfolding lookup
  entries_found [] d = tt
  entries_found (x ∷ m) d = (rw (beq_refl e x.key) refl, weaken x m m d.0 (entries_found m d.1))

  abbrev pub has_key : K → Map K V → Bool
  has_key k [] = false
  has_key k (x ∷ m) = e.beq x.key k || has_key k m

  pub has_key-Lacks : (k : K) (m : Map K V) → Lacks k m → has_key k m ≡ false
  has_key-Lacks k [] h = refl
  has_key-Lacks k (x ∷ m) h = rw (beq_ne e x.key k h.0) (has_key-Lacks k m h.1)

  pub lookup-has_key : (k : K) (m : Map K V) → has_key k m ≡ false → lookup k m ≡ none
  unfolding lookup
  lookup-has_key k [] h = refl
  lookup-has_key k (x ∷ m) h = ground (arith, lookup-has_key k m)
