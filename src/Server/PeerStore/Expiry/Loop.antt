-- ===== src/Server/PeerStore/Expiry/Loop.antt =====
-- internal/server/peer_store.go, `deleteExpired` as a whole: which peers are left, and how many were deleted.
use elevpn.Prelude.{
  ℕ, ◌+◌, ◌≡◌, ◌≢◌, inl, inr, refl, sym, ap, subst, ◌∙◌, true, false, Bool-cases, if◌then◌else◌,
  Option, none, some, List, [], ◌∷◌, length, All, nat_eq, bytes_eq, ◌==◌, arith, ==_iff,
}
use elevpn.Prelude.Maps.{Map, Entry, lookup, delete, lookup-delete_ne, lookup-delete_self}
use elevpn.Prelude.Keys.{
  Lacks, KeysDistinct, delete-KeysDistinct, length-delete, entries_found, has_key, has_key-Lacks,
  lookup-has_key,
}
use elevpn.Net.{addr_eq}
use elevpn.Server.Peer.{Peer, expired}
use elevpn.Server.PeerStore.{Ptr, PeerStore, deref, forget, delete_one, delete_loop, delete_expired}
use elevpn.Server.PeerStore.Invariant.{IsStore}
use elevpn.Server.PeerStore.Expiry.{forget-IsStore}

module _ (now timeout : ℕ) where
  -- What a lookup finds once the expired peers are gone.
  abbrev pub survivor : List Peer → Option Ptr → Option Ptr
  survivor heap none = none
  survivor heap (some none) = none
  survivor heap (some (some p)) = if expired (deref heap p) now timeout then none else some (some p)

  -- What the rounds for the entries `xs` make of a store and a count.
  pub record Outcome (ps : PeerStore) (n : ℕ) (xs : Map ℕ Ptr) (r : PeerStore × ℕ) : Type 0 where
    pub same_heap : r.0.heap ≡ ps.heap
    pub same_next : r.0.next_id ≡ ps.next_id
    pub store : IsStore r.0
    pub distinct : KeysDistinct r.0.by_id
    pub left :
        (id : ℕ)
        → lookup id r.0.by_id
          ≡ (if has_key id xs then survivor ps.heap (lookup id ps.by_id) else lookup id ps.by_id)
    pub counted : r.1 + length r.0.by_id ≡ n + length ps.by_id

  found_kept :
      (id : ℕ) (m xs : Map ℕ Ptr)
      → Lacks id xs
      → All (λ y. lookup y.key m ≡ some y.value) xs
      → All (λ y. lookup y.key (delete id m) ≡ some y.value) xs
  found_kept id m [] l a = tt
  found_kept id m (y ∷ ys) l a =
      (lookup-delete_ne id y.key m (λ e. l.0 (sym e)) ∙ a.0, found_kept id m ys l.1 a.1)

  forget-KeysDistinct :
      (ps : PeerStore) (id p : ℕ) → KeysDistinct ps.by_id → KeysDistinct (forget ps id p).by_id
  unfolding forget
  forget-KeysDistinct ps id p = delete-KeysDistinct id ps.by_id

  found_after :
      (ps : PeerStore) (id p : ℕ) (xs : Map ℕ Ptr)
      → Lacks id xs
      → All (λ y. lookup y.key ps.by_id ≡ some y.value) xs
      → All (λ y. lookup y.key (forget ps id p).by_id ≡ some y.value) xs
  unfolding forget
  found_after ps id p xs = found_kept id ps.by_id xs

  one_expired :
      (ps : PeerStore) (n : ℕ) (x : Entry ℕ Ptr) (p : ℕ)
      → x.value ≡ some p
      → expired (deref ps.heap p) now timeout ≡ true
      → delete_one now timeout (ps, n) x ≡ (forget ps x.key p, n + 1)
  unfolding delete_one
  one_expired ps n x p e t = rw (e, delete_one) (rw t refl)

  one_kept :
      (ps : PeerStore) (n : ℕ) (x : Entry ℕ Ptr) (p : ℕ)
      → x.value ≡ some p
      → expired (deref ps.heap p) now timeout ≡ false
      → delete_one now timeout (ps, n) x ≡ (ps, n)
  unfolding delete_one
  one_kept ps n x p e t = rw (e, delete_one) (rw t refl)

  -- The round of an expired peer, then the other rounds.
  after_expired :
      (ps : PeerStore) (n : ℕ) (x : Entry ℕ Ptr) (xs : Map ℕ Ptr) (p : ℕ) (r : PeerStore × ℕ)
      → Lacks x.key xs
      → KeysDistinct ps.by_id
      → lookup x.key ps.by_id ≡ some (some p)
      → expired (deref ps.heap p) now timeout ≡ true
      → Outcome (forget ps x.key p) (n + 1) xs r
      → Outcome ps n (x ∷ xs) r
  unfolding forget
  after_expired ps n x xs p r lacks distinct here t o = record {
    same_heap = o.same_heap;
    same_next = o.same_next;
    store = o.store;
    distinct = o.distinct;
    left = λ id. elim (Bool-cases (x.key == id)) [
      | inl same ↦
          let e : x.key ≡ id = (==_iff x.key id).0 same in
          let gone : survivor ps.heap (lookup id ps.by_id) ≡ none = rw (sym e, here) (rw t refl) in
          let cut : has_key id xs ≡ false =
            has_key-Lacks id xs (subst (λ (k : ℕ). Lacks k xs) e lacks) in
          rw same (
            rw (o.left id, cut)
              (ap (λ (k : ℕ). lookup id (delete k ps.by_id)) e
                ∙ lookup-delete_self id ps.by_id
                ∙ sym gone))
      | inr other ↦ rw other (
          o.left id
          ∙ ap (λ (l : Option Ptr). if has_key id xs then survivor ps.heap l else l)
              (lookup-delete_ne x.key id ps.by_id (beq_false x.key id other)))
    ];
    counted = omega (arith, o.counted, length-delete x.key (some p) ps.by_id distinct here);
  }
    where
      beq_false : (a b : ℕ) → (a == b) ≡ false → a ≢ b
      beq_false a b h e = ground arith

  after_kept :
      (ps : PeerStore) (n : ℕ) (x : Entry ℕ Ptr) (xs : Map ℕ Ptr) (p : ℕ) (r : PeerStore × ℕ)
      → Lacks x.key xs
      → lookup x.key ps.by_id ≡ some (some p)
      → expired (deref ps.heap p) now timeout ≡ false
      → Outcome ps n xs r
      → Outcome ps n (x ∷ xs) r
  after_kept ps n x xs p r lacks here t o = record {
    same_heap = o.same_heap;
    same_next = o.same_next;
    store = o.store;
    distinct = o.distinct;
    left = λ id. elim (Bool-cases (x.key == id)) [
      | inl same ↦
          let e : x.key ≡ id = (==_iff x.key id).0 same in
          let stays : survivor ps.heap (lookup id ps.by_id) ≡ lookup id ps.by_id =
            rw (sym e, here) (rw t refl) in
          let cut : has_key id xs ≡ false =
            has_key-Lacks id xs (subst (λ (k : ℕ). Lacks k xs) e lacks) in
          rw same (rw (o.left id, cut) (sym stays))
      | inr other ↦ rw other (o.left id)
    ];
    counted = o.counted;
  }

  delete_loop-Outcome :
      (xs : Map ℕ Ptr) (ps : PeerStore) (n : ℕ)
      → IsStore ps
      → KeysDistinct ps.by_id
      → KeysDistinct xs
      → All (λ y. lookup y.key ps.by_id ≡ some y.value) xs
      → Outcome ps n xs (delete_loop now timeout (ps, n) xs)
  unfolding delete_loop
  delete_loop-Outcome [] ps n s d dx a = record {
    same_heap = refl;
    same_next = refl;
    store = s;
    distinct = d;
    left = λ id. refl;
    counted = refl;
  }
  delete_loop-Outcome (x ∷ xs) ps n s d dx a =
      let (p, e, at) = s.ids x.key x.value a.0 in
      let here : lookup x.key ps.by_id ≡ some (some p) = a.0 ∙ ap (λ (t : Ptr). some t) e in
      elim (Bool-cases (expired (deref ps.heap p) now timeout)) [
        | inl t ↦ rw (one_expired ps n x p e t) (
            after_expired ps n x xs p _ dx.0 d here t (
              delete_loop-Outcome xs (forget ps x.key p) (n + 1) (forget-IsStore ps x.key p s here)
                (forget-KeysDistinct ps x.key p d) dx.1 (found_after ps x.key p xs dx.0 a.1)))
        | inr t ↦
            rw (one_kept ps n x p e t)
              (after_kept ps n x xs p _ dx.0 here t (delete_loop-Outcome xs ps n s d dx.1 a.1))
      ]

  everywhere :
      (ps : PeerStore) (id : ℕ)
      → (if has_key id ps.by_id then survivor ps.heap (lookup id ps.by_id) else lookup id ps.by_id)
        ≡ survivor ps.heap (lookup id ps.by_id)
  everywhere ps id = elim (Bool-cases (has_key id ps.by_id)) [
    | inl t ↦ rw t refl
    | inr f ↦ rw (f, lookup-has_key id ps.by_id f) refl
  ]

  -- In a store whose maps agree, with each id once, `deleteExpired` deletes the expired peers and no
  -- other: afterwards a lookup by id finds what it
  -- found before, unless the peer there has expired; the peers and the next id stay; the three maps
  -- still agree, with each id once; and the count is how many ids are gone.
  pub delete_expired-left :
      (ps : PeerStore)
      → IsStore ps
      → KeysDistinct ps.by_id
      → let (after, count) = delete_expired ps now timeout in
        ((id : ℕ) → lookup id after.by_id ≡ survivor ps.heap (lookup id ps.by_id))
        × (after.heap ≡ ps.heap)
        × (after.next_id ≡ ps.next_id)
        × IsStore after
        × KeysDistinct after.by_id
        × (count + length after.by_id ≡ length ps.by_id)
  unfolding delete_expired
  delete_expired-left ps s d =
      let o = delete_loop-Outcome ps.by_id ps 0 s d d (entries_found ps.by_id d) in
      (
        (λ id. o.left id ∙ everywhere ps id),
        o.same_heap,
        o.same_next,
        o.store,
        o.distinct,
        omega (arith, o.counted),
      )
