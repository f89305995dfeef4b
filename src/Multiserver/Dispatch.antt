-- ===== src/Multiserver/Dispatch.antt =====
-- common/multiserver_hlp.hpp: which method a request reaches.
use leveldb_daemon.Prelude.{
  ℕ, suc, ◌+◌, ◌≡◌, refl, ap, ◌∙◌, Bool, true, false, Option, none, some, List, [], ◌∷◌, is_empty,
  if◌then◌else◌, arith, Option-cases, inl, inr, ◌≢◌, ◌≤◌,
}
use leveldb_daemon.Prelude.Int.{ℤ, pos, negsuc, leb_ℤ, wrap, i32_half}
use leveldb_daemon.Prelude.Bytes.{Bytes, beq}
use leveldb_daemon.Assoc.{find, assign, find-assign}
use leveldb_daemon.Multiserver.{
  JsonRpcReq, Outcome, unknown_method, invoke_request, invoke_notify, fill_map, get_method_number,
  run_method_request, serve,
}

module _ {M : Type 0} (name : M → Bytes) (has_id : M → ℤ → Bool) where
  -- The last method of a table with a name.
  abbrev pub last_named : Bytes → List M → Option M
  last_named m [] = none
  last_named m (x ∷ xs) = elim (last_named m xs) [
    | some y ↦ some y
    | none ↦ if beq (name x) m then some x else none
  ]

  -- A request with an id is answered under the id; without one it is a notification.
  abbrev pub invoked : JsonRpcReq → M → Outcome M
  invoked req x =
      if leb_ℤ (pos 0) req.id
      then invoke_request x (wrap i32_half req.id) req.params
      else invoke_notify x req.params

  -- What the method that was found, if any, makes of a request.
  abbrev pub answered : JsonRpcReq → Option M → Outcome M
  answered req none = unknown_method req.params
  answered req (some x) = invoked req x

  never_run :
      (n : ℕ) (xs : List M) (req : JsonRpcReq)
      → run_method_request name has_id (negsuc n) xs req ≡ unknown_method req.params
  unfolding run_method_request
  never_run n [] req = refl
  never_run n (x ∷ xs) req = never_run (suc n) xs req

  find-fill_map-none :
      (m : Bytes) (xs : List M) (v : ℕ) (map : List (Bytes × ℕ))
      → last_named m xs ≡ none
      → find m (fill_map name has_id xs v map) ≡ find m map
  unfolding fill_map
  find-fill_map-none m [] v map h = refl
  find-fill_map-none m (x ∷ xs) v map h = elim (Option-cases (last_named m xs)) [
    | inl e ↦
        find-fill_map-none m xs (v + 1) (assign (name x) v map) e
        ∙ find-assign (name x) m v map
        ∙ ground (arith, e)
    | inr (y, e) ↦ absurd (ground (arith, e))
  ]

  find-fill_map-some :
      (m : Bytes) (xs : List M) (v : ℕ) (map : List (Bytes × ℕ)) (y : M) (req : JsonRpcReq)
      → last_named m xs ≡ some y
      → (i : ℕ) × (find m (fill_map name has_id xs v map) ≡ some (v + i))
        × (run_method_request name has_id (pos i) xs req ≡ invoked req y)
  unfolding fill_map run_method_request
  find-fill_map-some m [] v map y req h = absurd (ground arith)
  find-fill_map-some m (x ∷ xs) v map y req h = elim (Option-cases (last_named m xs)) [
    | inl e ↦ (
      0,
      find-fill_map-none m xs (v + 1) (assign (name x) v map) e
          ∙ find-assign (name x) m v map
          ∙ ground (arith, e),
      ground (arith, e),
    )
    | inr (z, e) ↦
        let (i, found, runs) = find-fill_map-some m xs (v + 1) (assign (name x) v map) z req e in
        (suc i, found ∙ ap some (omega arith), runs ∙ ground (arith, e))
  ]

  get_method_number-none :
      (methods : List M) (m : Bytes)
      → last_named m methods ≡ none
      → get_method_number name has_id methods m ≡ negsuc 0
  unfolding get_method_number find
  get_method_number-none methods m e = ground (arith, find-fill_map-none m methods 0 [] e)

  get_method_number-some :
      (methods : List M) (y : M) (req : JsonRpcReq)
      → last_named req.method methods ≡ some y
      → (i : ℕ) × (get_method_number name has_id methods req.method ≡ pos i)
        × (run_method_request name has_id (pos i) methods req ≡ invoked req y)
  unfolding get_method_number
  get_method_number-some methods y req e =
      let (i, found, runs) = find-fill_map-some req.method methods 0 [] y req e in
      (i, ground (arith, found), runs)

  -- A request (it has a method and no result) is served by the last method of the table with its name,
  -- as a request if its id is not negative and as a notification otherwise; if no method has the name,
  -- it is answered as unknown.
  pub serve_lem :
      (methods : List M) (req : JsonRpcReq)
      → is_empty req.result ≡ true
      → is_empty req.method ≡ false
      → serve name has_id methods req ≡ answered req (last_named req.method methods)
  unfolding serve
  serve_lem methods req no_result has_method = elim (Option-cases (last_named req.method methods)) [
    | inl e ↦
        rw (no_result, has_method, get_method_number-none methods req.method e, e)
          (never_run 0 methods req)
    | inr (y, e) ↦
        let (i, number, runs) = get_method_number-some methods y req e in
        rw (no_result, has_method, number, e) runs
  ]

  -- A request whose id is above the range of `int` is answered, if its method is there, under another
  -- id than it has.
  serve_other_id :
      (methods : List M) (req : JsonRpcReq) (y : M) (id : ℕ)
      → is_empty req.result ≡ true
      → is_empty req.method ≡ false
      → last_named req.method methods ≡ some y
      → req.id ≡ pos id
      → i32_half ≤ id
      → (other : ℤ) × (serve name has_id methods req ≡ invoke_request y other req.params)
        × (other ≢ req.id)
  unfolding wrap
  serve_other_id methods req y id no_result has_method named e h = (
    wrap i32_half req.id,
    serve_lem methods req no_result has_method ∙ ground (arith, named),
    λ q. ground (arith, q),
  )
