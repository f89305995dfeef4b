-- ===== src/JsonObject/RoundTrip.antt =====
-- common/aj_type_list_inst.hpp: reading an object that was written.
use leveldb_daemon.Prelude.{
  ℕ, zero, suc, ◌≡◌, ◌≤◌, ◌<◌, refl, ap, ◌∙◌, Bool, true, false, not, ◌&&◌, ◌||◌, some, List, [],
  ◌∷◌, ◌++◌, ◌==◌, leb, drop, length, arith, length-append,
}
use mathlib.Core.List.{append_assoc}
use leveldb_daemon.Prelude.Bytes.{Bytes, beq}
use leveldb_daemon.Prelude.Exec.{ok}
use leveldb_daemon.StringValue.{quote}
use leveldb_daemon.JsonObject.{
  Field, JsonParser, strip_name, serialize_member, serialize_members, print_object, set_at,
  behind_name, unserialize_member_name, find_member, parse_at, unserialize_members, parse_object,
}

-- A character that neither is white space nor begins a comment.
abbrev pub starts_token : ℕ → Bool
starts_token c = not (leb c 32) && not (c == b'/')

-- What the library documents of the calls.
pub record Documented (P : JsonParser) : Type 0 where
  pub is_null_brace : (s : Bytes) → P.is_null (b'{' ∷ s) ≡ false
  pub is_string_quote : (s : Bytes) → P.is_string (quote ∷ s) ≡ true
  pub parse_space_token :
      (c : ℕ) (s : Bytes) → starts_token c ≡ true → P.parse_space (c ∷ s) ≡ (ok tt, c ∷ s)

abbrev pub no_quote : Bytes → Bool
no_quote [] = true
no_quote (c ∷ s) = not (c == quote) && no_quote s

-- A member whose value is read back, up to a comma or a brace, whatever the member held.
pub record Readable {V : Type 0} (f : Field V) (v : V) : Type 0 where
  pub name_plain : no_quote f.name ≡ true
  pub first : ℕ
  pub others : Bytes
  pub print_first : f.print v ≡ first ∷ others
  pub first_token : starts_token first ≡ true
  pub parse_print :
      (w : V) (c : ℕ) (t : Bytes)
      → (c == b',' || c == b'}') ≡ true
      → f.parse w (f.print v ++ c ∷ t) ≡ (ok v, c ∷ t)

strip_name-name :
    (n s : Bytes) → no_quote n ≡ true → strip_name n (n ++ quote ∷ s) ≡ ([], quote ∷ s)
unfolding strip_name
strip_name-name [] s h = refl
strip_name-name (c ∷ n) s h = ground (arith, strip_name-name n s)

module _ (P : JsonParser) (D : Documented P) where
  behind_name_lem :
      (c : ℕ) (s : Bytes) → starts_token c ≡ true → behind_name P (b':' ∷ c ∷ s) ≡ (ok true, c ∷ s)
  behind_name_lem c s h = rw (D.parse_space_token b':' (c ∷ s) refl, D.parse_space_token c s h) refl

  member_name_lem :
      (n : Bytes) (c : ℕ) (s : Bytes)
      → no_quote n ≡ true
      → starts_token c ≡ true
      → unserialize_member_name P n (quote ∷ (n ++ quote ∷ b':' ∷ c ∷ s)) ≡ (ok true, c ∷ s)
  unfolding unserialize_member_name
  member_name_lem n c s h k =
      rw (D.is_string_quote (n ++ quote ∷ b':' ∷ c ∷ s), strip_name-name n (b':' ∷ c ∷ s) h)
        (behind_name_lem c s k)

module _ {V : Type 0} where
  drop-set_at :
      (k : ℕ) (v : V) (ms : List (Field V × V)) → drop (suc k) (set_at k v ms) ≡ drop (suc k) ms
  drop-set_at zero v [] = refl
  drop-set_at zero v ((f, w) ∷ ms) = refl
  drop-set_at (suc k) v [] = refl
  drop-set_at (suc k) v (m ∷ ms) = drop-set_at k v ms

  drop-suc :
      (k : ℕ) (ms : List (Field V × V)) (x : Field V × V) (xs : List (Field V × V))
      → drop k ms ≡ x ∷ xs
      → drop (suc k) ms ≡ xs
  drop-suc zero [] x xs h = absurd (ground arith)
  drop-suc zero (m ∷ ms) x xs h = ground (arith, h)
  drop-suc (suc k) [] x xs h = absurd (ground arith)
  drop-suc (suc k) (m ∷ ms) x xs h = drop-suc k ms x xs h

  -- The members of an object with new values, from the place `k` on.
  abbrev assigned : ℕ → List V → List (Field V × V) → List (Field V × V)
  assigned k [] ms = ms
  assigned k (v ∷ vs) ms = assigned (suc k) vs (set_at k v ms)

  -- Members with a new value and an old one.
  abbrev pub with_new : List (Field V × V × V) → List (Field V × V)
  with_new [] = []
  with_new ((f, v, w) ∷ ts) = (f, v) ∷ with_new ts

  abbrev pub with_old : List (Field V × V × V) → List (Field V × V)
  with_old [] = []
  with_old ((f, v, w) ∷ ts) = (f, w) ∷ with_old ts

  abbrev new_values : List (Field V × V × V) → List V
  new_values [] = []
  new_values ((f, v, w) ∷ ts) = v ∷ new_values ts

  abbrev pub AllReadable : List (Field V × V × V) → Type 0
  AllReadable [] = Unit {0}
  AllReadable ((f, v, w) ∷ ts) = Readable f v × AllReadable ts

  -- The text of a member before another text, and of the members behind it.
  abbrev member_text : Field V → V → Bytes → Bytes
  member_text f v u = quote ∷ (f.name ++ quote ∷ b':' ∷ (f.print v ++ u))

  abbrev more_text : List (Field V × V × V) → Bytes → Bytes
  more_text [] t = b'}' ∷ t
  more_text ((f, v, w) ∷ ts) t = b',' ∷ member_text f v (more_text ts t)

module _ (P : JsonParser) (D : Documented P) {V : Type 0} where
  find_member_lem :
      (f : Field V) (v w : V) (ms : List (Field V × V)) (i : ℕ) (u : Bytes)
      → Readable f v
      → find_member P ((f, w) ∷ ms) i (member_text f v u) ≡ (ok (some i), f.print v ++ u)
  unfolding find_member
  find_member_lem f v w ms i u r =
      let named = member_name_lem P D f.name r.first (r.others ++ u) r.name_plain r.first_token in
      rw (r.print_first) (ground (arith, named))

  parse_at_lem :
      (f : Field V) (v w : V) (rest ms : List (Field V × V)) (i c : ℕ) (t : Bytes)
      → Readable f v
      → drop i ms ≡ (f, w) ∷ rest
      → (c == b',' || c == b'}') ≡ true
      → parse_at P i ms (f.print v ++ c ∷ t) ≡ (ok (set_at i v ms), c ∷ t)
  unfolding parse_at
  parse_at_lem f v w rest ms i c t r d h = ground (arith, d, r.parse_print w c t h)

  unserialize_members_lem :
      (fuel k : ℕ) (f : Field V) (v w : V) (ts : List (Field V × V × V)) (ms : List (Field V × V))
      (t : Bytes)
      → drop k ms ≡ with_old ((f, v, w) ∷ ts)
      → AllReadable ((f, v, w) ∷ ts)
      → length ts < fuel
      → unserialize_members P fuel k ms (member_text f v (more_text ts t))
        ≡ (ok (assigned k (new_values ((f, v, w) ∷ ts)) ms), b'}' ∷ t)
  unfolding unserialize_members
  unserialize_members_lem zero k f v w ts ms t d r h = absurd (omega arith)
  unserialize_members_lem (suc fuel) k f v w [] ms t d r h =
      let found = find_member_lem f v w [] k (b'}' ∷ t) r.0 in
      let parsed = parse_at_lem f v w [] ms k b'}' t r.0 d refl in ground (arith, d, found, parsed)
  unserialize_members_lem (suc fuel) k f v w ((g, x, y) ∷ ts) ms t d r h =
      let u = member_text g x (more_text ts t) in
      let found = find_member_lem f v w (with_old ((g, x, y) ∷ ts)) k (b',' ∷ u) r.0 in
      let parsed = parse_at_lem f v w (with_old ((g, x, y) ∷ ts)) ms k b',' u r.0 d refl in
      let d' = drop-set_at k v ms ∙ drop-suc k ms (f, w) (with_old ((g, x, y) ∷ ts)) d in
      let next =
        unserialize_members_lem fuel (suc k) g x y ts (set_at k v ms) t d' r.1 (omega (arith, h)) in
      ground (arith, d, found, parsed, next)

  assigned-cons :
      (k : ℕ) (vs : List V) (m : Field V × V) (ms : List (Field V × V))
      → assigned (suc k) vs (m ∷ ms) ≡ m ∷ assigned k vs ms
  assigned-cons k [] m ms = refl
  assigned-cons k (v ∷ vs) m ms = assigned-cons (suc k) vs m (set_at k v ms)

  assigned-with_old :
      (ts : List (Field V × V × V)) → assigned 0 (new_values ts) (with_old ts) ≡ with_new ts
  assigned-with_old [] = refl
  assigned-with_old ((f, v, w) ∷ ts) =
      assigned-cons 0 (new_values ts) (f, v) (with_old ts)
      ∙ ap (λ ms. (f, v) ∷ ms) (assigned-with_old ts)

  serialize_member-append :
      (f : Field V) (v : V) (u : Bytes) → serialize_member (f, v) ++ u ≡ member_text f v u
  unfolding serialize_member
  serialize_member-append f v u =
      ap (λ s. quote ∷ s)
        (append_assoc (f.name ++ quote ∷ b':' ∷ []) (f.print v) u
          ∙ append_assoc f.name (quote ∷ b':' ∷ []) (f.print v ++ u))

  serialize_members-more_text :
      (ts : List (Field V × V × V)) (t : Bytes)
      → serialize_members (with_new ts) false ++ b'}' ∷ t ≡ more_text ts t
  unfolding serialize_members
  serialize_members-more_text [] t = refl
  serialize_members-more_text ((f, v, w) ∷ ts) t =
      ap (λ s. b',' ∷ s)
        (append_assoc (serialize_member (f, v)) (serialize_members (with_new ts) false) (b'}' ∷ t)
          ∙ ap (λ s. serialize_member (f, v) ++ s) (serialize_members-more_text ts t)
          ∙ serialize_member-append f v (more_text ts t))

  length-more_text : (ts : List (Field V × V × V)) (t : Bytes) → length ts ≤ length (more_text ts t)
  length-more_text [] t = omega arith
  length-more_text ((f, v, w) ∷ ts) t = omega (
    arith,
    length-more_text ts t,
    length-append f.name (quote ∷ b':' ∷ (f.print v ++ more_text ts t)),
    length-append (f.print v) (more_text ts t),
  )

  written :
      (f : Field V) (v w : V) (ts : List (Field V × V × V)) (t : Bytes)
      → print_object (with_new ((f, v, w) ∷ ts)) ++ t ≡ b'{' ∷ member_text f v (more_text ts t)
  unfolding print_object
  written f v w ts t =
      ap (λ s. b'{' ∷ s)
        (append_assoc (serialize_members (with_new ((f, v, w) ∷ ts)) true) (b'}' ∷ []) t
          ∙ append_assoc (serialize_member (f, v)) (serialize_members (with_new ts) false)
              (b'}' ∷ t)
          ∙ ap (λ s. serialize_member (f, v) ++ s) (serialize_members-more_text ts t)
          ∙ serialize_member-append f v (more_text ts t))

  -- An object that was written, whatever text follows it, is read back into an object of the same members,
  -- whatever these held: each gets the value that was written; where each member is read back up to a
  -- comma or a brace, no name has a quote, and the library does what it documents.
  pub parse_object-print_object :
      (ts : List (Field V × V × V)) (t : Bytes)
      → AllReadable ts
      → parse_object P (with_old ts) (print_object (with_new ts) ++ t) ≡ (ok (with_new ts), t)
  unfolding parse_object beq
  parse_object-print_object [] t r =
      unfold print_object in rw (D.is_null_brace (b'}' ∷ t), D.parse_space_token b'}' t refl) refl
  parse_object-print_object ((f, v, w) ∷ ts) t r =
      let u = member_text f v (more_text ts t) in
      let loop =
        unserialize_members_lem (suc (suc (length u))) 0 f v w ts (with_old ((f, v, w) ∷ ts)) t refl
          r (omega (arith, length-more_text ((f, v, w) ∷ ts) t)) in
      rw (written f v w ts t, D.is_null_brace u, D.parse_space_token quote _ refl)
        (ground (arith, loop, D.parse_space_token b'}' t refl, assigned-with_old ((f, v, w) ∷ ts)))
