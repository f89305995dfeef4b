-- ===== src/LruCache/Records.antt =====
-- common/lrucache.hpp: the records of the cache after its operations.
use leveldb_daemon.Prelude.{
  ℕ, ◌-◌, ◌≤◌, ◌<◌, ◌≡◌, refl, ap, ◌∙◌, Bool, Option, none, some, List, [], ◌∷◌, ◌++◌, length, drop,
  arith, length-append, length-drop, Option-cases, inl, inr,
}
use leveldb_daemon.LruCache.{
  Bimap, BimapContract, lookup, without, LruCache, get, insert, make_room, erase_old, new_lrucache,
  size, Operation, asked, inserted, run,
}

module _ {K V : Type 0} (same : K → K → Bool) where
  -- The record of k with value v as the newest, and at most n records
  abbrev pub renewed : K → V → List (K × V) → List (K × V)
  renewed k v rs = without same k rs ++ (k, v) ∷ []

  abbrev pub newest : ℕ → List (K × V) → List (K × V)
  newest n rs = drop (length rs - n) rs

  unfoldable pub get_spec : K → List (K × V) → List (K × V)
  get_spec k rs = elim (lookup same k rs) [ none ↦ rs | some v ↦ renewed k v rs ]

  -- The answers of the cache, by the records alone.
  unfoldable pub run_spec : ℕ → List (Operation K V) → List (K × V) → List (Option V) × List (K × V)
  unfolding get_spec
  run_spec n [] rs = ([], rs)
  run_spec n (asked k ∷ os) rs =
      (lookup same k rs ∷ (run_spec n os (get_spec k rs)).0, (run_spec n os (get_spec k rs)).1)
  run_spec n (inserted k v ∷ os) rs = run_spec n os (newest n (renewed k v rs))

  lookup-append :
      (k : K) (rs qs : List (K × V))
      → lookup same k rs ≡ none
      → lookup same k (rs ++ qs) ≡ lookup same k qs
  lookup-append k [] qs h = refl
  lookup-append k ((j, v) ∷ rs) qs h = ground (arith, lookup-append k rs qs)

  lookup-without : (k : K) (rs : List (K × V)) → lookup same k (without same k rs) ≡ none
  lookup-without k [] = refl
  lookup-without k ((j, v) ∷ rs) = ground (arith, lookup-without k rs)

  lookup-tail :
      (k : K) (r : K × V) (rs : List (K × V))
      → lookup same k (r ∷ rs) ≡ none
      → lookup same k rs ≡ none
  lookup-tail k (j, v) rs h = ground arith

  without-absent : (k : K) (rs : List (K × V)) → lookup same k rs ≡ none → without same k rs ≡ rs
  without-absent k [] h = refl
  without-absent k ((j, v) ∷ rs) h = ground (arith, without-absent k rs)

  length-without : (k : K) (rs : List (K × V)) → length (without same k rs) ≤ length rs
  length-without k [] = ground arith
  length-without k ((j, v) ∷ rs) = ground (arith, length-without k rs)

  length-without-found :
      (k : K) (v : V) (rs : List (K × V))
      → lookup same k rs ≡ some v
      → length (without same k rs) < length rs
  length-without-found k v [] h = ground arith
  length-without-found k v ((j, w) ∷ rs) h =
      ground (arith, length-without-found k v rs, length-without k rs)

  length-get_spec : (k : K) (rs : List (K × V)) (n : ℕ) → length rs ≤ n → length (get_spec k rs) ≤ n
  unfolding get_spec
  length-get_spec k rs n h = elim (Option-cases (lookup same k rs)) [
    | inl e ↦ ground arith
    | inr (v, e) ↦
        ground
          (arith, length-without-found k v rs, length-append {0} (without same k rs) ((k, v) ∷ []))
  ]

module _ {A : Type 0} where
  drop_none : (m : ℕ) (xs : List A) → m ≡ 0 → drop m xs ≡ xs
  drop_none m xs h = rw h refl

  drop_one : (m : ℕ) (x : A) (xs : List A) → m ≡ 1 → drop m (x ∷ xs) ≡ xs
  drop_one m x xs h = rw h refl

module _ {K V : Type 0} (same : K → K → Bool) (B : Bimap K V) (C : BimapContract same B) where
  erase_old_lem : (k : K) (c : B.Cache) → C.records (erase_old B k c) ≡ without same k (C.records c)
  erase_old_lem k c =
      ground (arith, C.find_lem c k, C.records-erase c k, without-absent same k (C.records c))

  -- With at most n records, what make_room leaves has at most n - 1 and lacks what was absent
  make_room_lem :
      (n : ℕ) (k : K) (v : V) (c : B.Cache) (rs : List (K × V))
      → 0 < n
      → C.records c ≡ rs
      → length rs ≤ n
      → lookup same k rs ≡ none
      → (C.records (make_room B n c) ++ (k, v) ∷ [] ≡ newest same n (rs ++ (k, v) ∷ []))
        × (lookup same k (C.records (make_room B n c)) ≡ none)
  make_room_lem n k v c [] p e l h =
      ground (
        arith,
        C.size_lem c,
        drop_none {A = K × V} (1 - n) ((k, v) ∷ []),
        ap (length {A = K × V}) e,
      )
  make_room_lem n k v c (r ∷ rs) p e l h = ground (
    arith,
    C.size_lem c,
    C.records-erase_first c r rs,
    drop_none {A = K × V} (length (r ∷ (rs ++ (k, v) ∷ [])) - n) (r ∷ (rs ++ (k, v) ∷ [])),
    drop_one {A = K × V} (length (r ∷ (rs ++ (k, v) ∷ [])) - n) r (rs ++ (k, v) ∷ []),
    length-append {0} rs ((k, v) ∷ []),
    lookup-tail same k r rs,
  )

  -- After the removals the key is absent, so the new record stands at the end
  insert-records :
      (k : K) (v : V) (l : LruCache B)
      → 0 < l.capacity
      → length (C.records l.cache) ≤ l.capacity
      → (l' : LruCache B) × (insert B k v l ≡ some l')
        × (l'.capacity ≡ l.capacity)
        × (C.records l'.cache ≡ newest same l.capacity (renewed same k v (C.records l.cache)))
  unfolding insert
  insert-records k v l p h =
      let c : B.Cache = erase_old B k l.cache in
      let d : B.Cache = make_room B l.capacity c in
      let e = erase_old_lem k l.cache in
      let (r, a) =
        make_room_lem l.capacity k v c (without same k (C.records l.cache)) p e
          (omega (arith, h, length-without same k (C.records l.cache)))
          (lookup-without same k (C.records l.cache)) in
      (
        record l { cache = B.insert d k v },
        ground (arith, C.size_lem l.cache),
        refl,
        ground (arith, r, a, C.find_lem d k, C.records-insert d k v),
      )

  length-newest : (n : ℕ) (rs : List (K × V)) → length (newest same n rs) ≤ n
  length-newest n rs = omega (arith, length-drop (length rs - n) rs)

  get-records :
      (k : K) (l : LruCache B)
      → ((get B k l).0 ≡ lookup same k (C.records l.cache))
        × ((get B k l).1.capacity ≡ l.capacity)
        × (C.records (get B k l).1.cache ≡ get_spec same k (C.records l.cache))
  unfolding get get_spec
  get-records k l = elim (Option-cases (B.find l.cache k)) [
    | inl e ↦ ground (arith, C.find_lem l.cache k)
    | inr (v, e) ↦ ground (arith, C.find_lem l.cache k, C.records-relocate l.cache k v)
  ]

  -- The two runs give the same answers, and the cache never holds more records than its capacity
  run-records :
      (n : ℕ) (os : List (Operation K V)) (l : LruCache B) (rs : List (K × V))
      → 0 < n
      → l.capacity ≡ n
      → C.records l.cache ≡ rs
      → length rs ≤ n
      → (l' : LruCache B) × (run B os l ≡ some ((run_spec same n os rs).0, l'))
        × (C.records l'.cache ≡ (run_spec same n os rs).1)
        × (length (C.records l'.cache) ≤ n)
  unfolding run run_spec
  run-records n [] l rs p c e h = (l, refl, e, omega (arith, ap (length {A = K × V}) e))
  run-records n (asked k ∷ os) l rs p c e h =
      let (a, b, q) = get-records k l in
      let (m, x, y, z) =
        run-records n os (get B k l).1 (get_spec same k rs) p (b ∙ c) (q ∙ ap (get_spec same k) e)
          (length-get_spec same k rs n h) in
      (m, ground (arith, x, a, ap (lookup same k) e), y, z)
  run-records n (inserted k v ∷ os) l rs p c e h =
      let (l', a, b, q) =
        insert-records k v l (omega (arith, p, c))
          (omega (arith, h, c, ap (length {A = K × V}) e)) in
      let (m, x, y, z) =
        run-records n os l' (newest same n (renewed same k v rs)) p (b ∙ c) (q ∙ (rw (c, e) refl))
          (length-newest n (renewed same k v rs)) in
      (m, ground (arith, x, a), y, z)

  -- For a container that does what is documented, a new cache with capacity `n` that is not 0 gives, to every
  -- sequence of lookups and insertions, the answers of a plain list that keeps the `n` records used
  -- last; no assertion fails, and in the end the cache has at most `n` records, which are
  -- those of the list in the same order.
  pub least_recently_used :
      (n : ℕ) (os : List (Operation K V))
      → 0 < n
      → (l : LruCache B) × (l' : LruCache B) × (new_lrucache B n ≡ some l)
        × (run B os l ≡ some ((run_spec same n os []).0, l'))
        × (C.records l'.cache ≡ (run_spec same n os []).1)
        × (size B l' ≤ n)
  least_recently_used n os p =
      let l : LruCache B = record { capacity = n; cache = B.empty } in
      let (l', a, b, q) = run-records n os l [] p refl C.records-empty (omega arith) in
      (l, l', ground arith, a, b, omega (arith, q, C.size_lem l'.cache))
