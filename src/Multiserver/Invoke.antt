-- ===== src/Multiserver/Invoke.antt =====
-- common/multiserver_hlp.hpp: the invokers, which parse the parameters of a request and call its method.
-- The classes of the methods are parameters: what they have, whether their parser returns, and what
-- they do with the parsed parameters in a state (they may throw).
use leveldb_daemon.Prelude.{
  Bool, true, false, Option, none, some, List, is_empty, if◌then◌else◌, ◌≡◌, inl, inr, arith,
  Bool-cases, Option-cases, ap, subst, ◌∙◌, ◌≢◌,
}
use leveldb_daemon.Prelude.Int.{ℤ, pos, leb_ℤ, wrap, i32_half, InRange, wrap-InRange_i32}
use leveldb_daemon.Prelude.Bytes.{Bytes}
use leveldb_daemon.Prelude.Exec.{ok, Exec, pure, ◌>>=◌, ◌>>◌, Result-cases}
use leveldb_daemon.Multiserver.{
  JsonRpcReq, Outcome, unknown_method, invoke_request, invoke_notify, call_not_supported,
  lost_result, serve,
}
use leveldb_daemon.Multiserver.Dispatch.{last_named, serve_lem}

-- What is written to the client.
pub data Reply : Type 0 where
  silent : Reply
  answer : Bytes → ℤ → Reply
  invalid_json : Bytes → Reply
  unknown : Bytes → Reply
  lost : Bytes → Reply

pub record Classes (M S X : Type 0) : Type 0 where
  pub name : M → Bytes
  pub has_id : M → ℤ → Bool
  pub has_request : M → Bool
  pub has_notify : M → Bool
  pub parses : M → Bytes → Bool
  -- the printed answer, if the result is true
  pub request : M → Bytes → ℤ → Exec X S (Option Bytes)
  pub notify : M → Bytes → Exec X S (Unit {0})

module _ {M S X : Type 0} (K : Classes M S X) where
  abbrev pub reply_of : ℤ → Option Bytes → Reply
  reply_of id none = silent
  reply_of id (some res) = answer res id

  -- invoke_requester::execute
  unfoldable pub execute_request : M → ℤ → Bytes → Exec X S Reply
  execute_request x id params s =
      if K.has_request x
      then (if K.parses x params
          then (K.request x params id >>= λ res. pure (reply_of id res)) s
          else pure (invalid_json params) s)
      else pure silent s

  -- invoke_notifier::execute
  unfoldable pub execute_notify : M → Bytes → Exec X S Reply
  execute_notify x params s =
      if K.has_notify x
      then (if K.parses x params
          then (K.notify x params >> pure silent) s
          else pure (invalid_json params) s)
      else pure silent s

  -- What a thread of a pool does for a request whose client is there.
  unfoldable pub perform : Outcome M → Exec X S Reply
  unfolding execute_request execute_notify
  perform (unknown_method params) s = pure (unknown params) s
  perform (invoke_request x id params) s = execute_request x id params s
  perform (invoke_notify x params) s = execute_notify x params s
  perform (call_not_supported x) s = pure silent s
  perform (lost_result params) s = pure (lost params) s

  unfoldable pub run : List M → JsonRpcReq → Exec X S Reply
  run methods req = perform (serve K.name K.has_id methods req)

  execute_request-answer :
      (x : M) (id i : ℤ) (params res : Bytes) (s : S)
      → (execute_request x id params s).0 ≡ ok (answer res i)
      → i ≡ id
  unfolding execute_request
  execute_request-answer x id i params res s h = elim (Bool-cases (K.has_request x)) [
    | inr e ↦ absurd (ground (arith, e))
    | inl e ↦ elim (Bool-cases (K.parses x params)) [
      | inr p ↦ absurd (ground (arith, e, p))
      | inl p ↦ elim (Result-cases (K.request x params id s).0) [
        | inr (t, r) ↦ absurd (ground (arith, e, p, r))
        | inl (a, r) ↦ elim (Option-cases a) [
          | inl q ↦ absurd (ground (arith, e, p, r, q))
          | inr (b, q) ↦ ground (arith, e, p, r, q)
        ]
      ]
    ]
  ]

  execute_notify-answer :
      (x : M) (i : ℤ) (params res : Bytes) (s : S)
      → (execute_notify x params s).0 ≢ ok (answer res i)
  unfolding execute_notify
  execute_notify-answer x i params res s h = elim (Bool-cases (K.has_notify x)) [
    | inr e ↦ ground (arith, e)
    | inl e ↦ elim (Bool-cases (K.parses x params)) [
      | inr p ↦ ground (arith, e, p)
      | inl p ↦ elim (Result-cases (K.notify x params s).0) [
        | inr (t, r) ↦ ground (arith, e, p, r)
        | inl (a, r) ↦ ground (arith, e, p, r)
      ]
    ]
  ]

  -- If a request whose id is in the range of `int` is answered with a result, the answer bears its id, and the
  -- id is not negative: a notification is never answered.
  pub run-answer :
      (methods : List M) (req : JsonRpcReq) (s : S) (res : Bytes) (i : ℤ)
      → is_empty req.result ≡ true
      → is_empty req.method ≡ false
      → InRange i32_half req.id
      → (run methods req s).0 ≡ ok (answer res i)
      → (i ≡ req.id) × (leb_ℤ (pos 0) req.id ≡ true)
  unfolding run perform
  run-answer methods req s res i no_result has_method small h =
      let served = serve_lem K.name K.has_id methods req no_result has_method in
      elim (Option-cases (last_named K.name K.has_id req.method methods)) [
        | inl e ↦ absurd (ground (arith, served, e, ap (λ o. (perform o s).0) served))
        | inr (y, e) ↦ elim (Bool-cases (leb_ℤ (pos 0) req.id)) [
          | inl numbered ↦
              let called : serve K.name K.has_id methods req
                  ≡ invoke_request y (wrap i32_half req.id) req.params =
                served ∙ ground (arith, e, numbered) in
              (
                execute_request-answer y (wrap i32_half req.id) i req.params res s
                      (subst (λ o. (perform o s).0 ≡ ok (answer res i)) called h)
                    ∙ wrap-InRange_i32 req.id small,
                numbered,
              )
          | inr notified ↦
              let called : serve K.name K.has_id methods req ≡ invoke_notify y req.params =
                served ∙ ground (arith, e, notified) in
              absurd (
                execute_notify-answer y i req.params res s
                  (subst (λ o. (perform o s).0 ≡ ok (answer res i)) called h))
        ]
      ]
