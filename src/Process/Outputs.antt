-- ===== src/Process/Outputs.antt =====
-- src/daemon.cpp, src/common/misc.hpp: where the output of the daemon goes.
use leveldb_daemon.Prelude.{
  Bool-cases, ℕ, zero, suc, ◌<◌, ◌⊎◌, ◌≡◌, refl, Bool, true, false, some, [], ◌∷◌, ◌==◌, ◌||◌, ap,
  sym, ◌∙◌, arith, if◌then◌else◌, ==_iff, inl, inr,
}
use leveldb_daemon.Prelude.Exec.{Result, ok, Result-cases}
use leveldb_daemon.Prelude.Bytes.{Bytes}
use leveldb_daemon.Process.Identities.{Manual, asked, change_user_lem}
use leveldb_daemon.Process.{
  File, Process, Identity, System, null, child, Error, Ending, goes_on, exits, change_user,
  redirect_output, given, daemonize, enter,
}

redirected_files :
    (S : System) (log : Bytes) (p : Process) (m : ℕ)
    → (if given log then redirect_output S log p else p).files m
      ≡ (if m == 1 || m == 2 then (if given log then S.freopen log else p.files m) else p.files m)
unfolding redirect_output
redirected_files S [] p m = ground arith
redirected_files S (c ∷ log) p m = ground (arith, ==_iff 1 m, ==_iff 2 m, ==_iff m 1, ==_iff m 2)

redirected_identity :
    (S : System) (log : Bytes) (p : Process)
    → (if given log then redirect_output S log p else p).identity ≡ p.identity
unfolding redirect_output
redirected_identity S [] p = refl
redirected_identity S (c ∷ log) p = refl

abbrev process_of : Process → Ending → Process
process_of p (goes_on q) = q
process_of p (exits k) = p

daemonized_files :
    (n : ℕ) (a : Bool) (p q : Process)
    → 2 < n
    → daemonize (some n) child a a p ≡ goes_on q
    → (q.files 0 ≡ some null)
      × (q.files 1 ≡ (if a then p.files 1 else some null))
      × (q.files 2 ≡ (if a then p.files 2 else some null))
      × ((m : ℕ) → 2 < m → (n == m) ≡ false → q.files m ≡ p.files m)
      × (q.identity ≡ p.identity)
unfolding daemonize
daemonized_files n true p q h e =
    let same : (m : ℕ) → (process_of p (daemonize (some n) child true true p)).files m ≡ q.files m =
      λ m. ap (λ d. (process_of p d).files m) e in
    let self = ==_iff n n in
    (
      ground (arith, same 0, ==_iff 0 n, ==_iff n 0),
      ground (arith, same 1, ==_iff 1 n, ==_iff n 1),
      ground (arith, same 2, ==_iff 2 n, ==_iff n 2),
      λ m k d. ground (arith, same m, ==_iff 0 m, ==_iff 1 m, ==_iff 2 m),
      sym (ap (λ d. (process_of p d).identity) e),
    )
daemonized_files n false p q h e =
    let same : (m : ℕ)
        → (process_of p (daemonize (some n) child false false p)).files m ≡ q.files m =
      λ m. ap (λ d. (process_of p d).files m) e in
    let self = ==_iff n n in
    (
      ground (arith, same 0, ==_iff 0 n, ==_iff n 0),
      ground (arith, same 1, ==_iff 1 n, ==_iff n 1),
      ground (arith, same 2, ==_iff 2 n, ==_iff n 2),
      λ m k d. ground (arith, same m, ==_iff 0 m, ==_iff 1 m, ==_iff 2 m),
      sym (ap (λ d. (process_of p d).identity) e),
    )

small_cases : (m : ℕ) → (m ≡ 0) ⊎ ((m ≡ 1) ⊎ ((m ≡ 2) ⊎ (2 < m)))
small_cases zero = inl refl
small_cases (suc zero) = inr (inl refl)
small_cases (suc (suc zero)) = inr (inr (inl refl))
small_cases (suc (suc (suc m))) = inr (inr (inr (omega arith)))

entered :
    (S : System) (log user : Bytes) (n m : ℕ) (p q : Process)
    → 2 < n
    → (n == m) ≡ false
    → enter S log user true (some n) child p ≡ ok (goes_on q)
    → (q.files m ≡ (
        if m == 0
        then some null
        else if m == 1 || m == 2
        then (if given log then S.freopen log else some null)
        else p.files m))
      × (q.identity ≡ (if given user then (change_user S user p.identity).1 else p.identity))
      × ((if given user then (change_user S user p.identity).0 else ok tt) ≡ ok tt)
unfolding enter
entered S log user n m p q h d e =
    let p₁ : Process = if given log then redirect_output S log p else p in
    let r : Result Error (Unit {0}) × Identity =
      if given user then change_user S user p₁.identity else (ok tt, p₁.identity) in
    elim (Result-cases r.0) [
      | inr (x, f) ↦ absurd (ground (arith, e, f))
      | inl (t, f) ↦
          let started : daemonize (some n) child (given log) (given log)
                (record p₁ { identity = r.1 })
              ≡ goes_on q =
            ground (arith, e, f) in
          let (f0, f1, f2, others, who) =
            daemonized_files n (given log) (record p₁ { identity = r.1 }) q h started in
          (
            elim (small_cases m) [
              | inl z ↦ ground (arith, z, f0)
              | inr (inl z) ↦ ground (arith, z, f1, redirected_files S log p 1)
              | inr (inr (inl z)) ↦ ground (arith, z, f2, redirected_files S log p 2)
              | inr (inr (inr z)) ↦ ground (
                arith,
                others m z d,
                redirected_files S log p m,
                ==_iff m 0,
                ==_iff m 1,
                ==_iff m 2,
              )
            ],
            who
                ∙ ap (λ i. (if given user then change_user S user i else (ok tt, i)).1)
                    (redirected_identity S log p)
                ∙ ground arith,
            ground (
              arith,
              f,
              redirected_identity S log p,
              ap (change_user S user) (redirected_identity S log p),
            ),
          )
    ]

-- Each file and the user of a daemon that root starts as a child, if `main` comes to the database: its input is
-- "/dev/null"; its output and its errors are the log file, which could be opened, or "/dev/null" where none is
-- given; its other files stay as they are, other than the number of "/dev/null", which is none of the three;
-- and it has the user, the group and the groups that were asked for, or those of before where none is given;
-- where the calls of the system do what their manual pages say.
pub enter-files :
    (S : System) (M : Manual S) (log user : Bytes) (n m : ℕ) (f : File) (p q : Process)
    → 2 < n
    → (n == m) ≡ false
    → p.identity.euid ≡ 0
    → (given log ≡ true → S.freopen log ≡ some f)
    → enter S log user true (some n) child p ≡ ok (goes_on q)
    → (q.files m ≡ (
        if m == 0
        then some null
        else if m == 1 || m == 2
        then some (if given log then f else null)
        else p.files m))
      × ((if given user then asked S M user else some p.identity) ≡ some q.identity)
enter-files S M log user n m f p q h d root opens e =
    let (files, who, done) = entered S log user n m p q h d e in
    (
      elim (Bool-cases (given log)) [
        | inl g ↦ ground (arith, files, g, opens g)
        | inr g ↦ ground (arith, files, g)
      ],
      elim (Bool-cases (given user)) [
        | inr g ↦ ground (arith, who, g)
        | inl g ↦ elim (change_user_lem S M user p.identity root) [
          | inl (fine, goal) ↦ ground (arith, who, g, goal)
          | inr (x, threw, _, _) ↦ absurd (ground (arith, done, g, threw))
        ]
      ],
    )
