-- ===== src/Netlink/Acks/Missing.antt =====
-- internal/netlink/socket.go, `recvAcks`: the sequences that its map still misses, which is what its state
-- stands for.
use elevpn.Prelude.{
  ℕ, suc, ◌+◌, ◌≡◌, ◌≢◌, inl, inr, refl, sym, ap, subst, ltb, ◌∙◌, Bool, true, false, ◌==◌,
  Bool-cases, Option-cases, if◌then◌else◌, Option, some, List, [], ◌∷◌, ◌++◌, append_assoc,
  append-nil, length, All, length-append, ==_iff, of_ne, nat_eq, arith,
}
use mathlib.Core.Option.{some-injective}
use elevpn.Prelude.Maps.{Map, Entry, lookup, insert, none≢some}
use elevpn.Prelude.Keys.{KeysDistinct, Lacks, insert-KeysDistinct, insert-Lacks}
use elevpn.Netlink.Acks.{AckState, expect, mark}

-- The keys that are false.
pub missing_keys : Map ℕ Bool → List ℕ
missing_keys [] = []
missing_keys (x ∷ m) = if x.value then missing_keys m else x.key ∷ missing_keys m

unfoldable pub remove : ℕ → List ℕ → List ℕ
remove s [] = []
remove s (k ∷ ks) = if k == s then remove s ks else k ∷ remove s ks

remove_absent : (s : ℕ) (ks : List ℕ) → All (λ k. k ≢ s) ks → remove s ks ≡ ks
unfolding remove
remove_absent s [] h = refl
remove_absent s (k ∷ ks) h = rw (of_ne k s h.0) (ap (◌∷◌ k) (remove_absent s ks h.1))

missing_keys-All : (s : ℕ) (m : Map ℕ Bool) → Lacks s m → All (λ k. k ≢ s) (missing_keys m)
unfolding missing_keys
missing_keys-All s [] h = tt
missing_keys-All s (x ∷ m) h = elim (Bool-cases x.value) [
  | inl t ↦ rw t (missing_keys-All s m h.1)
  | inr f ↦ rw f (h.0, missing_keys-All s m h.1)
]

remove-missing_keys :
    (s : ℕ) (m : Map ℕ Bool) → Lacks s m → remove s (missing_keys m) ≡ missing_keys m
remove-missing_keys s m h = remove_absent s (missing_keys m) (missing_keys-All s m h)

-- A sequence that is not missing leaves the missing ones as they are.
not_missing :
    (s : ℕ) (m : Map ℕ Bool)
    → KeysDistinct m
    → lookup s m ≢ some false
    → remove s (missing_keys m) ≡ missing_keys m
unfolding missing_keys remove lookup
not_missing s [] d h = refl
not_missing s (x ∷ m) d h = elim (Bool-cases (x.key == s)) [
  | inl same ↦
      let lacks = subst (λ (j : ℕ). Lacks j m) ((==_iff x.key s).0 same) d.0 in
      elim (Bool-cases x.value) [
        | inl t ↦ rw t (remove-missing_keys s m lacks)
        | inr f ↦ absurd (h (rw (same, f) refl))
      ]
  | inr other ↦
      let rest = not_missing s m d.1 (λ e. h (rw other e)) in
      elim (Bool-cases x.value) [ inl t ↦ rw t rest | inr f ↦ rw (f, other) (ap (◌∷◌ x.key) rest) ]
]

-- Marking a sequence that is missing takes it from the missing ones, and nothing else.
now_found :
    (s : ℕ) (m : Map ℕ Bool)
    → KeysDistinct m
    → lookup s m ≡ some false
    → (missing_keys (insert s true m) ≡ remove s (missing_keys m))
      × (length (missing_keys m) ≡ suc (length (missing_keys (insert s true m))))
      × (length (insert s true m) ≡ length m)
unfolding missing_keys remove lookup insert
now_found s [] d h = absurd (none≢some h)
now_found s (x ∷ m) d h = elim (Bool-cases (x.key == s)) [
  | inl same ↦
      let lacks = subst (λ (j : ℕ). Lacks j m) ((==_iff x.key s).0 same) d.0 in
      let f : x.value ≡ false = some-injective _ _ (rw same at h) in
      rw (same, f, same) (sym (remove-missing_keys s m lacks), refl, refl)
  | inr other ↦
      let (gone, fewer, kept) = now_found s m d.1 (rw other at h) in
      elim (Bool-cases x.value) [
        | inl t ↦ rw (other, t) (gone, fewer, ap suc kept)
        | inr f ↦ rw (other, f) (rw other (ap (◌∷◌ x.key) gone), ap suc fewer, ap suc kept)
      ]
]

-- What holds of the state of `recvAcks` at all times.
pub record IsAckState (st : AckState) : Type 0 where
  pub distinct : KeysDistinct st.expected
  pub counted : st.got + length (missing_keys st.expected) ≡ length st.expected

pub missing : AckState → List ℕ
missing st = missing_keys st.expected

some-true : ◌≢◌ {A = Option Bool} (some true) (some false)
some-true e = cc

-- An acknowledgement takes its sequence from the missing ones.
pub mark_lem :
    (st : AckState) (seq : ℕ)
    → IsAckState st
    → IsAckState (mark st seq) × (missing (mark st seq) ≡ remove seq (missing st))
unfolding mark missing
mark_lem st seq h = elim (Option-cases (lookup seq st.expected)) [
  | inl absent ↦
      rw absent (h, sym (not_missing seq st.expected h.distinct (λ e. none≢some (sym absent ∙ e))))
  | inr (true, found) ↦
      rw found (h, sym (not_missing seq st.expected h.distinct (λ e. some-true (sym found ∙ e))))
  | inr (false, found) ↦
      let (gone, fewer, kept) = now_found seq st.expected h.distinct found in
      rw found (
        record {
          distinct = insert-KeysDistinct seq true st.expected h.distinct;
          counted = omega (arith, fewer, kept, h.counted);
        },
        gone,
      )
]

pub waits_iff :
    (st : AckState) → IsAckState st → ltb st.got (length st.expected) ≡ ltb 0 (length (missing st))
unfolding missing
waits_iff st h = ground (arith, h.counted)

insert_absent :
    (s : ℕ) (v : Bool) (m : Map ℕ Bool)
    → Lacks s m
    → insert s v m ≡ m ++ (record { key = s; value = v } ∷ [])
unfolding insert
insert_absent s v [] h = refl
insert_absent s v (x ∷ m) h = rw (of_ne x.key s h.0) (ap (◌∷◌ x) (insert_absent s v m h.1))

missing_keys-append :
    (m m' : Map ℕ Bool) → missing_keys (m ++ m') ≡ missing_keys m ++ missing_keys m'
unfolding missing_keys
missing_keys-append [] m' = refl
missing_keys-append (x ∷ m) m' = elim (Bool-cases x.value) [
  | inl t ↦ rw t (missing_keys-append m m')
  | inr f ↦ rw f (ap (◌∷◌ x.key) (missing_keys-append m m'))
]

-- No sequence is waited for twice.
abbrev pub AllDistinct : List ℕ → Type 0
AllDistinct [] = Unit
AllDistinct (s ∷ ks) = All (λ k. s ≢ k) ks × AllDistinct ks

insert_lacking :
    (s : ℕ) (m : Map ℕ Bool) (ks : List ℕ)
    → All (λ k. s ≢ k) ks
    → All (λ k. Lacks k m) ks
    → All (λ k. Lacks k (insert s false m)) ks
insert_lacking s m [] ne h = tt
insert_lacking s m (k ∷ ks) ne h =
    (insert-Lacks s k false m ne.0 h.0, insert_lacking s m ks ne.1 h.1)

expect_lem :
    (want : List ℕ) (m : Map ℕ Bool)
    → KeysDistinct m
    → AllDistinct want
    → All (λ k. Lacks k m) want
    → KeysDistinct (expect want m)
      × (missing_keys (expect want m) ≡ missing_keys m ++ want)
      × (length (expect want m) ≡ length m + length want)
unfolding expect
expect_lem [] m d w h = (d, sym (append-nil (missing_keys m)), omega arith)
expect_lem (s ∷ want) m d w h =
    let m' = insert s false m in
    let (distinct, keys, size) =
      expect_lem want m' (insert-KeysDistinct s false m d) w.1 (insert_lacking s m want w.0 h.1) in
    let added = insert_absent s false m h.0 in
    (
      distinct,
      keys
          ∙ ap (λ (t : Map ℕ Bool). missing_keys t ++ want) added
          ∙ ap (λ (t : List ℕ). t ++ want)
              (missing_keys-append m (record { key = s; value = false } ∷ []))
          ∙ unfold missing_keys in append_assoc (missing_keys m) (s ∷ []) want,
      omega (
        arith,
        size,
        ap (length {A = Entry ℕ Bool}) added,
        length-append m (record { key = s; value = false } ∷ []),
      ),
    )

Lacks-nothing : (ks : List ℕ) → All (λ k. Lacks {V = Bool} k []) ks
Lacks-nothing [] = tt
Lacks-nothing (k ∷ ks) = (tt, Lacks-nothing ks)

abbrev pub start : List ℕ → AckState
start want = record { expected = expect want []; got = 0 }

-- At the start all that is wanted is missing.
pub start_lem :
    (want : List ℕ) → AllDistinct want → IsAckState (start want) × (missing (start want) ≡ want)
unfolding missing
start_lem want w =
    let (distinct, keys, size) = expect_lem want [] tt w (Lacks-nothing want) in
    let all : missing_keys (expect want []) ≡ want = unfold missing_keys in keys in
    (record { distinct = distinct; counted = omega (arith, size, ap (length {A = ℕ}) all) }, all)
