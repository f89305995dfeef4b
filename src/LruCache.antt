-- ===== src/LruCache.antt =====
-- common/lrucache.hpp: a cache of a fixed number of records, which drops the one that was not used for the
-- longest time. The container `boost::bimap` is a parameter; the mutex of the cache makes each
-- method one step.
pub mod Records
use leveldb_daemon.Prelude.{
  ℕ, zero, suc, ◌+◌, ◌≡◌, Bool, true, false, Option, none, some, List, [], ◌∷◌, ◌++◌, ◌==◌, leb,
  if◌then◌else◌, length, keep, not,
}

-- What the code calls of a bimap with a set of keys on its left, a list on its right and a value with each
-- record: `left.find`, `right.relocate` of the record of a key to the end, `left.erase`,
-- `right.erase(right.begin())`, and `insert`, which puts the record at the end of the right.
pub record Bimap (K V : Type 0) : Type 1 where
  pub Cache : Type 0
  pub empty : Cache
  pub size : Cache → ℕ
  pub find : Cache → K → Option V
  pub relocate : Cache → K → Cache
  pub erase : Cache → K → Cache
  pub erase_first : Cache → Cache
  pub insert : Cache → K → V → Cache
  pub right : Cache → List K

module _ {K V : Type 0} (same : K → K → Bool) where
  abbrev pub lookup : K → List (K × V) → Option V
  lookup k [] = none
  lookup k ((j, v) ∷ rs) = if same j k then some v else lookup k rs

  abbrev pub without : K → List (K × V) → List (K × V)
  without k rs = keep (λ r. not (same r.0 k)) rs

  -- The documented behaviour, by the records in the order of the right view.
  pub record BimapContract (B : Bimap K V) : Type 0 where
    pub records : B.Cache → List (K × V)
    pub records-empty : records B.empty ≡ []
    pub size_lem : (c : B.Cache) → B.size c ≡ length (records c)
    pub find_lem : (c : B.Cache) (k : K) → B.find c k ≡ lookup k (records c)
    pub records-relocate :
        (c : B.Cache) (k : K) (v : V)
        → B.find c k ≡ some v
        → records (B.relocate c k) ≡ without k (records c) ++ (k, v) ∷ []
    pub records-erase : (c : B.Cache) (k : K) → records (B.erase c k) ≡ without k (records c)
    pub records-erase_first :
        (c : B.Cache) (r : K × V) (rs : List (K × V))
        → records c ≡ r ∷ rs
        → records (B.erase_first c) ≡ rs
    pub records-insert :
        (c : B.Cache) (k : K) (v : V)
        → B.find c k ≡ none
        → records (B.insert c k v) ≡ records c ++ (k, v) ∷ []

-- What the users of one cache ask it for, in the order of its mutex.
pub data Operation (K V : Type 0) : Type 0 where
  asked : K → Operation K V
  inserted : K → V → Operation K V

module _ {K V : Type 0} (B : Bimap K V) where
  -- class lrucache
  pub record LruCache : Type 0 where
    pub capacity : ℕ
    pub cache : B.Cache

  -- lrucache::lrucache; `none` is a failed assertion
  abbrev pub new_lrucache : ℕ → Option LruCache
  new_lrucache c = if c == 0 then none else some (record { capacity = c; cache = B.empty })

  -- lrucache::get
  unfoldable pub get : K → LruCache → Option V × LruCache
  get k l = elim (B.find l.cache k) [
    | none ↦ (none, l)
    | some v ↦ (some v, record l { cache = B.relocate l.cache k })
  ]

  -- lrucache::size and lrucache::get_keys: the keys, the one used last first
  abbrev pub size : LruCache → ℕ
  size l = B.size l.cache

  abbrev pub reversed : List K → List K
  reversed [] = []
  reversed (k ∷ ks) = reversed ks ++ k ∷ []

  abbrev pub get_keys : LruCache → List K
  get_keys l = reversed (B.right l.cache)

  -- What `insert` makes room in, and where it puts the record.
  abbrev pub make_room : ℕ → B.Cache → B.Cache
  make_room capacity c = if B.size c == capacity then B.erase_first c else c

  abbrev pub erase_old : K → B.Cache → B.Cache
  erase_old k c = elim (B.find c k) [ none ↦ c | some v ↦ B.erase c k ]

  -- lrucache::insert; `none` is a failed assertion
  unfoldable pub insert : K → V → LruCache → Option LruCache
  insert k v l =
      if leb (B.size l.cache) l.capacity
      then some (record l { cache = B.insert (make_room l.capacity (erase_old k l.cache)) k v })
      else none

  -- lrucache_functional::operator()
  abbrev pub store : K → V → LruCache → Option (V × LruCache)
  unfolding insert
  store k v l = elim (insert k v l) [ none ↦ none | some l' ↦ some (v, l') ]

  unfoldable pub call : (K → V) → K → LruCache → Option (V × LruCache)
  unfolding get insert
  call fn k l =
      let r = get k l in
      elim r.0 as (λ o. Option (V × LruCache)) [
        | some v ↦ some (v, r.1)
        | none ↦ store k (fn k) r.1
      ]

  -- The answers of `get`, and the cache at the end; `none` when an assertion failed
  unfoldable pub run : List (Operation K V) → LruCache → Option (List (Option V) × LruCache)
  unfolding get insert
  run [] l = some ([], l)
  run (asked k ∷ os) l = elim (run os (get k l).1) [
    | none ↦ none
    | some r ↦ some ((get k l).0 ∷ r.0, r.1)
  ]
  run (inserted k v ∷ os) l = elim (insert k v l) [ none ↦ none | some l' ↦ run os l' ]
