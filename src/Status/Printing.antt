-- ===== src/Status/Printing.antt =====
-- The form of what `rep_status` answers, and the numbers in it.
use leveldb_daemon.Prelude.{
  ℕ, zero, suc, ◌+◌, ◌*◌, ◌/◌, ◌%◌, ◌-◌, ◌≡◌, ◌<◌, refl, ap, sym, ◌∙◌, false, List, [], ◌∷◌, ◌++◌,
  ltb, arith, Bool-cases, inl, inr,
}
use mathlib.Core.List.{append_assoc, append-nil}
use leveldb_daemon.Prelude.Bytes.{Bytes, codes}
use leveldb_daemon.Serializers.{Serializers}
use leveldb_daemon.Replication.{Client}
use leveldb_daemon.Status.{digits, decimal, write_status, status_loop, rep_status}

-- The number that a text of decimal digits stands for, after the value of those before it.
abbrev pub value_from : ℕ → Bytes → ℕ
value_from v [] = v
value_from v (c ∷ s) = value_from (v * 10 + (c - 48)) s

value_from-append : (s t : Bytes) (v : ℕ) → value_from v (s ++ t) ≡ value_from (value_from v s) t
value_from-append [] t v = refl
value_from-append (c ∷ s) t v = value_from-append s t (v * 10 + (c - 48))

value_from-digits : (fuel n : ℕ) → n < fuel → value_from 0 (digits fuel n) ≡ n
unfolding digits
value_from-digits zero n h = absurd (omega (arith, h))
value_from-digits (suc fuel) n h = elim (Bool-cases (ltb n 10)) [
  | inl e ↦ ground (arith, e)
  | inr e ↦
      rw (e, value_from-append (digits fuel (n / 10)) ((48 + n % 10) ∷ []) 0)
        (ground (arith, value_from-digits fuel (n / 10) (ground (arith, e))))
]

-- The digits that are printed for a size stand for it: the rounds that `decimal` gives are enough.
pub value_from-decimal : (n : ℕ) → value_from 0 (decimal n) ≡ n
unfolding decimal
value_from-decimal n = value_from-digits (suc n) n (omega arith)

module _ (J : Serializers) where
  -- One member of the answer: the id as the key, and the state of the slave.
  abbrev pub member : Bytes × Client → Bytes
  member (id, c) = codes "\"" ++ id ++ codes "\"" ++ codes ":" ++ write_status J c []

  abbrev pub joined_rest : List (Bytes × Client) → Bytes
  joined_rest [] = []
  joined_rest (e ∷ es) = codes "," ++ (member e ++ joined_rest es)

  -- The members with commas between them.
  abbrev pub joined : List (Bytes × Client) → Bytes
  joined [] = []
  joined (e ∷ es) = member e ++ joined_rest es

  write_status-member :
      (id : Bytes) (c : Client) (out : Bytes)
      → write_status J c (out ++ (codes "\"" ++ id ++ codes "\"" ++ codes ":"))
        ≡ out ++ member (id, c)
  unfolding write_status
  write_status-member id c out =
      append_assoc out (codes "\"" ++ id ++ codes "\"" ++ codes ":") (write_status J c [])

  status_loop-rest :
      (cs : List (Bytes × Client)) (out : Bytes)
      → status_loop J cs false out ≡ out ++ joined_rest cs
  unfolding status_loop
  status_loop-rest [] out = sym (append-nil out)
  status_loop-rest ((id, c) ∷ cs) out =
      ap (status_loop J cs false) (write_status-member id c (out ++ codes ","))
      ∙ status_loop-rest cs ((out ++ codes ",") ++ member (id, c))
      ∙ append_assoc (out ++ codes ",") (member (id, c)) (joined_rest cs)
      ∙ append_assoc out (codes ",") (member (id, c) ++ joined_rest cs)

  -- `rep_status` answers one object: a brace, the members in the order of the registry with commas
  -- between them (none behind the last), and a brace.
  rep_status_lem :
      (cs : List (Bytes × Client)) → rep_status J cs ≡ codes "{" ++ joined cs ++ codes "}"
  unfolding rep_status status_loop
  rep_status_lem [] = refl
  rep_status_lem ((id, c) ∷ cs) =
      ap (λ t. t ++ codes "}")
        (ap (status_loop J cs false) (write_status-member id c (codes "{"))
          ∙ status_loop-rest cs (codes "{" ++ member (id, c))
          ∙ append_assoc (codes "{") (member (id, c)) (joined_rest cs))
