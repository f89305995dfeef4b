-- ===== src/Mysql/Ownership.antt =====
-- common/mymysql.hpp: who holds a result, and what is freed.
use leveldb_daemon.Prelude.{
  ℕ, zero, suc, ◌+◌, ◌<◌, ◌≡◌, refl, ap, ◌∙◌, Bool, true, false, ◌&&◌, Option, none, some, List, [],
  ◌∷◌, ◌==◌, ltb, if◌then◌else◌, length, arith,
}
use leveldb_daemon.Mysql.{
  Results, Use, default_construct, construct, copy_construct, set_result, assign, destroy, get_at,
  put_at, free_held, pop_held, use_result, use_results,
}

-- How often an address stands in a list; in a member `_result`; and in the results held.
abbrev pub times_in : ℕ → List ℕ → ℕ
times_in a [] = 0
times_in a (b ∷ bs) = (if a == b then 1 else 0) + times_in a bs

abbrev pub times_of : ℕ → Option ℕ → ℕ
times_of a none = 0
times_of a (some b) = if a == b then 1 else 0

abbrev pub times_held : ℕ → List (Option ℕ) → ℕ
times_held a [] = 0
times_held a (r ∷ rs) = times_of a r + times_held a rs

-- What the library gave the objects, and what copy constructors found in a member that they had not set.
abbrev pub times_given : ℕ → List Use → ℕ
times_given a [] = 0
times_given a (construct r ∷ us) = times_of a r + times_given a us
times_given a (set_result i r ∷ us) = times_of a r + times_given a us
times_given a (default_construct ∷ us) = times_given a us
times_given a (copy_construct r j ∷ us) = times_given a us
times_given a (assign i j ∷ us) = times_given a us
times_given a (destroy ∷ us) = times_given a us

abbrev pub times_found : ℕ → List Use → ℕ
times_found a [] = 0
times_found a (copy_construct r j ∷ us) = times_of a r + times_found a us
times_found a (construct r ∷ us) = times_found a us
times_found a (set_result i r ∷ us) = times_found a us
times_found a (default_construct ∷ us) = times_found a us
times_found a (assign i j ∷ us) = times_found a us
times_found a (destroy ∷ us) = times_found a us

-- The objects that are assigned to and copied live, `n` of them at first.
abbrev pub in_scope : ℕ → List Use → Bool
in_scope n [] = true
in_scope n (default_construct ∷ us) = in_scope (suc n) us
in_scope n (construct r ∷ us) = in_scope (suc n) us
in_scope n (copy_construct r j ∷ us) = ltb j n && in_scope (suc n) us
in_scope n (set_result i r ∷ us) = ltb i n && in_scope n us
in_scope n (assign i j ∷ us) = ltb i n && ltb j n && in_scope n us
in_scope zero (destroy ∷ us) = false
in_scope (suc n) (destroy ∷ us) = in_scope n us

times-put_at :
    (a i : ℕ) (v : Option ℕ) (rs : List (Option ℕ))
    → i < length rs
    → times_held a (put_at i v rs) + times_of a (get_at i rs) ≡ times_held a rs + times_of a v
times-put_at a i v [] h = absurd (omega arith)
times-put_at a zero v (r ∷ rs) h = omega arith
times-put_at a (suc i) v (r ∷ rs) h = omega (arith, times-put_at a i v rs (omega (arith, h)))

length-put_at : (i : ℕ) (v : Option ℕ) (rs : List (Option ℕ)) → length (put_at i v rs) ≡ length rs
length-put_at i v [] = refl
length-put_at zero v (r ∷ rs) = refl
length-put_at (suc i) v (r ∷ rs) = omega (arith, length-put_at i v rs)

times-free_held :
    (a : ℕ) (r : Option ℕ) (freed : List ℕ)
    → times_in a (free_held r freed) ≡ times_of a r + times_in a freed
times-free_held a none freed = omega arith
times-free_held a (some b) freed = omega arith

-- A copied object is put on the list with its member, which is cleared where it was.
get-put_at :
    (i j : ℕ) (v : Option ℕ) (rs : List (Option ℕ))
    → i < length rs
    → get_at j (put_at i v rs) ≡ (if i == j then v else get_at j rs)
get-put_at i j v [] h = absurd (omega arith)
get-put_at zero zero v (r ∷ rs) h = refl
get-put_at zero (suc j) v (r ∷ rs) h = ground arith
get-put_at (suc i) zero v (r ∷ rs) h = ground arith
get-put_at (suc i) (suc j) v (r ∷ rs) h = ground (arith, get-put_at i j v rs)

times-assign :
    (a i j : ℕ) (rs : List (Option ℕ))
    → i < length rs
    → j < length rs
    → times_held a (put_at j none (put_at i (get_at j rs) rs)) + times_of a (get_at i rs)
      ≡ times_held a rs
times-assign a i j rs h k =
    let v = get_at j rs in
    let back : get_at j (put_at i v rs) ≡ v = ground (arith, get-put_at i j v rs h) in
    omega (
      arith,
      times-put_at a i v rs h,
      times-put_at a j none (put_at i v rs) (omega (arith, k, length-put_at i v rs)),
      ap (times_of a) back,
    )

ltb_lem : (a b : ℕ) → ltb a b ≡ true → a < b
ltb_lem a b h = ground arith

pop_lem :
    (a : ℕ) (held : List (Option ℕ)) (freed : List ℕ) (us : List Use)
    → in_scope (length held) (destroy ∷ us) ≡ true
    → (times_held a (pop_held held freed).held + times_in a (pop_held held freed).freed
        ≡ times_held a held + times_in a freed)
      × (in_scope (length (pop_held held freed).held) us ≡ true)
pop_lem a [] freed us h = absurd (ground arith)
pop_lem a (r ∷ held) freed us h = (omega (arith, times-free_held a r freed), h)

-- One use: what is held and what was freed, with what is found and given.
use_lem :
    (a : ℕ) (u : Use) (us : List Use) (s : Results)
    → in_scope (length s.held) (u ∷ us) ≡ true
    → (times_held a (use_result u s).held
          + times_in a (use_result u s).freed
          + times_given a us
          + times_found a us
        ≡ times_held a s.held
          + times_in a s.freed
          + times_given a (u ∷ us)
          + times_found a (u ∷ us))
      × (in_scope (length (use_result u s).held) us ≡ true)
unfolding use_result
use_lem a default_construct us s h = (omega arith, h)
use_lem a (construct r) us s h = (omega arith, h)
use_lem a (copy_construct r j) us s h =
    let k : j < length s.held = ltb_lem j (length s.held) (ground arith) in
    let left = length-put_at j none s.held in
    (
      omega (arith, times-put_at a j none s.held k, times-free_held a r s.freed),
      ap (λ n. in_scope (suc n) us) left ∙ ground arith,
    )
use_lem a (set_result i r) us s h =
    let k : i < length s.held = ltb_lem i (length s.held) (ground arith) in
    let left = length-put_at i r s.held in
    (
      omega (arith, times-put_at a i r s.held k, times-free_held a (get_at i s.held) s.freed),
      ap (λ n. in_scope n us) left ∙ ground arith,
    )
use_lem a (assign i j) us s h =
    let k : i < length s.held = ltb_lem i (length s.held) (ground arith) in
    let l : j < length s.held = ltb_lem j (length s.held) (ground arith) in
    let moved = put_at i (get_at j s.held) s.held in
    let left = length-put_at j none moved ∙ length-put_at i (get_at j s.held) s.held in
    (
      omega (arith, times-assign a i j s.held k l, times-free_held a (get_at i s.held) s.freed),
      ap (λ n. in_scope n us) left ∙ ground arith,
    )
use_lem a destroy us s h =
    let (now, scope) = pop_lem a s.held s.freed us h in (omega (arith, now), scope)

-- Of each result as many references are held or were freed as the library gave to the objects, and copy
-- constructors found in a member that they had not set.
pub results_balanced :
    (a : ℕ) (us : List Use) (s : Results)
    → in_scope (length s.held) us ≡ true
    → times_held a (use_results us s).held + times_in a (use_results us s).freed
      ≡ times_held a s.held + times_in a s.freed + times_given a us + times_found a us
unfolding use_results
results_balanced a [] s h = omega arith
results_balanced a (u ∷ us) s h =
    let (now, scope) = use_lem a u us s h in
    omega (arith, now, results_balanced a us (use_result u s) scope)
