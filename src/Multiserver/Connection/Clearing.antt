-- ===== src/Multiserver/Connection/Clearing.antt =====
-- common/multiserver.hpp: what `ad_invoke_first::clear` leaves, if no thread interferes.
use leveldb_daemon.Prelude.{
  ℕ, zero, suc, ◌≡◌, refl, ap, sym, ◌∙◌, Bool, true, false, Option, none, some, List, [], ◌∷◌,
  arith, if◌then◌else◌, ◌==◌, ==_iff, keep, Option-cases, Bool-cases, inl, inr,
}
use leveldb_daemon.Locks.{try_lock, unlock, exchange}
use leveldb_daemon.Multiserver.Connection.{
  Object, Store, at_address, update, listed, clear_one, clear_round, clear_rounds, clear,
}

abbrev pub is_locked : Option Object → Bool
is_locked none = false
is_locked (some o) = o.mtx.value

-- An object whose mutex is free loses its client.
abbrev pub cleared : Option Object → Option Object
cleared none = none
cleared (some o) = some (if o.mtx.value then o else record o { client = none })

at_address-update :
    (a b : ℕ) (o : Object) (st : Store)
    → at_address b (update a o st) ≡ (
        if a == b
        then (elim (at_address b st) as (λ x. Option Object) [ none ↦ none | some p ↦ some o ])
        else at_address b st)
at_address-update a b o [] = ground arith
at_address-update a b o ((c, p) ∷ st) = ground (arith, at_address-update a b o st)

cleared_twice : (x : Option Object) → cleared (cleared x) ≡ cleared x
cleared_twice none = refl
cleared_twice (some o) = ground arith

is_locked-cleared : (x : Option Object) → is_locked (cleared x) ≡ is_locked x
is_locked-cleared none = refl
is_locked-cleared (some o) = ground arith

held : (o : Object) → o.mtx.value ≡ true → record o { mtx = record { value = true } } ≡ o
held o h = ap (λ v. record o { mtx = record { value = v } }) (sym h)

unheld :
    (o : Object)
    → o.mtx.value ≡ false
    → record o { mtx = record { value = false }; client = none } ≡ record o { client = none }
unheld o h = ap (λ v. record o { mtx = record { value = v }; client = none }) (sym h)

absent : (a b : ℕ) (st : Store) → at_address a st ≡ none → (a == b) ≡ true → at_address b st ≡ none
absent a b st e h = ap (λ c. at_address c st) (sym ((==_iff a b).0 h)) ∙ e

same_object :
    (a b : ℕ) (o : Object) (st : Store)
    → at_address a st ≡ some o
    → (a == b) ≡ true
    → at_address b st ≡ some o
same_object a b o st e h = ap (λ c. at_address c st) (sym ((==_iff a b).0 h)) ∙ e

clear_one_at :
    (a b : ℕ) (st : Store)
    → at_address b (clear_one a st).1
      ≡ (if a == b then cleared (at_address b st) else at_address b st)
unfolding clear_one try_lock exchange unlock
clear_one_at a b st = elim (Option-cases (at_address a st)) [
  | inl e ↦ ground (arith, e, absent a b st e)
  | inr (o, e) ↦ elim (Bool-cases o.mtx.value) [
    | inl h ↦ ground (
      arith,
      e,
      h,
      held o h,
      at_address-update a b (record o { mtx = record { value = true } }) st,
      same_object a b o st e,
    )
    | inr h ↦ ground (
      arith,
      e,
      h,
      unheld o h,
      at_address-update a b (record o { mtx = record { value = false }; client = none }) st,
      same_object a b o st e,
    )
  ]
]

clear_round_at :
    (requests : List ℕ) (b : ℕ) (st : Store)
    → at_address b (clear_round requests st).1
      ≡ (if listed b requests then cleared (at_address b st) else at_address b st)
unfolding clear_round
clear_round_at [] b st = refl
clear_round_at (a ∷ requests) b st = ground (
  arith,
  clear_one_at a b st,
  clear_round_at requests b (clear_one a st).1,
  cleared_twice (at_address b st),
  ==_iff a b,
)

abbrev pub locked_in : Store → List ℕ → List ℕ
locked_in st requests = keep (λ a. is_locked (at_address a st)) requests

clear_one_kept : (a : ℕ) (st : Store) → (clear_one a st).0 ≡ is_locked (at_address a st)
unfolding clear_one try_lock exchange
clear_one_kept a st = ground arith

clear_one-locked :
    (a b : ℕ) (st : Store)
    → is_locked (at_address b (clear_one a st).1) ≡ is_locked (at_address b st)
clear_one-locked a b st = ground (arith, clear_one_at a b st, is_locked-cleared (at_address b st))

clear_one-locked_in :
    (a : ℕ) (requests : List ℕ) (st : Store)
    → locked_in (clear_one a st).1 requests ≡ locked_in st requests
clear_one-locked_in a [] st = refl
clear_one-locked_in a (b ∷ requests) st =
    ground (arith, clear_one-locked_in a requests st, clear_one-locked a b st)

clear_round_kept :
    (requests : List ℕ) (st : Store) → (clear_round requests st).0 ≡ locked_in st requests
unfolding clear_round
clear_round_kept [] st = refl
clear_round_kept (a ∷ requests) st = ground (
  arith,
  clear_one_kept a st,
  clear_round_kept requests (clear_one a st).1,
  clear_one-locked_in a requests st,
)

clear_round-locked_in :
    (requests bs : List ℕ) (st : Store) → locked_in (clear_round requests st).1 bs ≡ locked_in st bs
clear_round-locked_in requests [] st = refl
clear_round-locked_in requests (b ∷ bs) st = ground (
  arith,
  clear_round-locked_in requests bs st,
  clear_round_at requests b st,
  is_locked-cleared (at_address b st),
)

locked_in_twice : (st : Store) (bs : List ℕ) → locked_in st (locked_in st bs) ≡ locked_in st bs
locked_in_twice st [] = refl
locked_in_twice st (b ∷ bs) = ground (arith, locked_in_twice st bs)

listed-locked_in :
    (b : ℕ) (st : Store) (bs : List ℕ) → listed b (locked_in st bs) ≡ true → listed b bs ≡ true
listed-locked_in b st [] h = h
listed-locked_in b st (c ∷ bs) h = ground (arith, listed-locked_in b st bs)

clear_rounds_kept :
    (n : ℕ) (requests : List ℕ) (st : Store)
    → (clear_rounds (suc n) requests st).0 ≡ locked_in st requests
unfolding clear_rounds
clear_rounds_kept zero requests st = ground (arith, clear_round_kept requests st)
clear_rounds_kept (suc n) requests st =
    let rest = (clear_round requests st).0 in
    let st₁ = (clear_round requests st).1 in
    ground (
      arith,
      clear_round_kept requests st,
      clear_rounds_kept n rest st₁,
      ap (locked_in st₁) (clear_round_kept requests st),
      clear_round-locked_in requests (locked_in st requests) st,
      locked_in_twice st requests,
    )

clear_rounds_at :
    (n : ℕ) (requests : List ℕ) (b : ℕ) (st : Store)
    → at_address b (clear_rounds (suc n) requests st).1
      ≡ (if listed b requests then cleared (at_address b st) else at_address b st)
unfolding clear_rounds
clear_rounds_at zero requests b st = ground (arith, clear_round_at requests b st)
clear_rounds_at (suc n) requests b st =
    let rest = (clear_round requests st).0 in
    let st₁ = (clear_round requests st).1 in
    ground (
      arith,
      clear_round_at requests b st,
      clear_rounds_at n rest b st₁,
      ap (listed b) (clear_round_kept requests st),
      listed-locked_in b st requests,
      cleared_twice (at_address b st),
    )

-- If no thread interferes, `clear` leaves in the set exactly the requests whose mutex is held; each
-- other request of the set loses its client, and no other object changes.
pub clear_lem :
    (requests : List ℕ) (st : Store) (b : ℕ)
    → ((clear requests st).0 ≡ locked_in st requests)
      × (at_address b (clear requests st).1
          ≡ (if listed b requests then cleared (at_address b st) else at_address b st))
clear_lem requests st b = (clear_rounds_kept 2 requests st, clear_rounds_at 2 requests b st)
