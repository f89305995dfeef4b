-- ===== src/Process/Identities.antt =====
-- src/common/misc.hpp: who a process is after `change_user`.
use leveldb_daemon.Prelude.{
  ℕ, ◌≡◌, sym, subst, Bool, true, false, Option, none, some, List, [], ◌==◌, arith, ◌⊎◌, inl, inr,
  Option-cases, if◌then◌else◌, not, ◌&&◌,
}
use leveldb_daemon.Prelude.Exec.{Result, ok, throw}
use leveldb_daemon.Prelude.Bytes.{Bytes}
use leveldb_daemon.Process.{
  Identity, System, Error, no_user, not_assumed, split, unsigned, assume_identity, change_user,
}

-- What the manual pages say of the calls, for a process whose effective user is root; `members` are the
-- groups of a user by the database of groups, with the one given.
pub record Manual (S : System) : Type 0 where
  pub members : Bytes → ℕ → List ℕ
  pub sets_gid :
      (g : ℕ) (i j : Identity) → i.euid ≡ 0 → S.setgid g i ≡ some j → j ≡ record i { gid = g }
  pub sets_members :
      (name : Bytes) (g : ℕ) (i j : Identity)
      → i.euid ≡ 0
      → S.initgroups name g i ≡ some j
      → j ≡ record i { groups = members name g }
  pub sets_groups :
      (gs : List ℕ) (i j : Identity)
      → i.euid ≡ 0
      → S.setgroups gs i ≡ some j
      → j ≡ record i { groups = gs }
  pub sets_uid :
      (u : ℕ) (i j : Identity)
      → i.euid ≡ 0
      → S.setuid u i ≡ some j
      → j ≡ record i { uid = u; euid = u }

module _ (S : System) (M : Manual S) where
  -- Who is meant: a user by its name, or two numbers with a slash between them.
  abbrev pub asked : Bytes → Option Identity
  asked user = elim (split user) [
    | some (u, g) ↦
        let n = unsigned (S.atoi u) in
        some (record { uid = n; euid = n; gid = unsigned (S.atoi g); groups = [] })
    | none ↦ elim (S.getpwnam user) [
      | none ↦ none
      | some (u, g) ↦ some (record { uid = u; euid = u; gid = g; groups = M.members user g })
    ]
  ]

  -- How a change ends that asks for some identity: with it, or still as root.
  abbrev pub Ends : Option Identity → Identity → Result Error (Unit {0}) × Identity → Type 0
  Ends goal i r =
      ((r.0 ≡ ok tt) × (goal ≡ some r.1))
      ⊎ ((x : Error) × (r.0 ≡ throw x) × (r.1.euid ≡ 0) × (r.1.uid ≡ i.uid))

  grouped :
      (by_name : Bool) (name : Bytes) (g : ℕ) (i j : Identity)
      → i.euid ≡ 0
      → (if by_name then S.initgroups name g i else S.setgroups [] i) ≡ some j
      → j ≡ record i { groups = if by_name then M.members name g else [] }
  grouped true name g i j h e = M.sets_members name g i j h e
  grouped false name g i j h e = M.sets_groups [] i j h e

  assume_identity_lem :
      (by_name : Bool) (name : Bytes) (u g : ℕ) (i : Identity)
      → i.euid ≡ 0
      → Ends
          (some (record {
            uid = u;
            euid = u;
            gid = g;
            groups = if by_name then M.members name g else [];
          }))
          i
          (assume_identity S by_name name u g i)
  assume_identity_lem by_name name u g i h = elim (Option-cases (S.setgid g i)) [
    | inl e ↦ inr (not_assumed, ground (arith, e), ground (arith, e), ground (arith, e))
    | inr (i₁, e) ↦
        let a = M.sets_gid g i i₁ h e in
        let h₁ : i₁.euid ≡ 0 = ground (arith, a) in
        elim (Option-cases (if by_name then S.initgroups name g i₁ else S.setgroups [] i₁)) [
          | inl f ↦
              inr (not_assumed, ground (arith, e, f), ground (arith, e, f), ground (arith, e, f, a))
          | inr (i₂, f) ↦
              let b = grouped by_name name g i₁ i₂ h₁ f in
              let h₂ : i₂.euid ≡ 0 = ground (arith, b) in
              elim (Option-cases (S.setuid u i₂)) [
                | inl k ↦ inr (
                  not_assumed,
                  ground (arith, e, f, k),
                  ground (arith, e, f, k),
                  ground (arith, e, f, k, a, b),
                )
                | inr (i₃, k) ↦
                    let c = M.sets_uid u i₂ i₃ h₂ k in
                    inl (ground (arith, e, f, k), ground (arith, e, f, k, a, b, c))
              ]
        ]
  ]

  -- `change_user`, called by root, either returns, and then the process has the user, the group and no other
  -- groups than those that were asked for, or it throws, and then the process is still root.
  pub change_user_lem :
      (user : Bytes) (i : Identity) → i.euid ≡ 0 → Ends (asked user) i (change_user S user i)
  unfolding change_user
  change_user_lem user i h =
      let guard : not (i.uid == 0) && not (i.euid == 0) ≡ false = ground arith in
      elim (Option-cases (split user)) [
        | inr ((u, g), e) ↦
            let n = unsigned (S.atoi u) in
            let k = unsigned (S.atoi g) in
            let meant : asked user ≡ some (record { uid = n; euid = n; gid = k; groups = [] }) =
              ground (arith, e) in
            subst (λ goal. Ends goal i (change_user S user i)) (sym meant)
              (rw (guard, e) (assume_identity_lem false user n k i h))
        | inl e ↦ elim (Option-cases (S.getpwnam user)) [
          | inl f ↦ inr (no_user, ground (arith, e, f), ground (arith, e, f), ground (arith, e, f))
          | inr ((u, g), f) ↦
              let meant : asked user
                  ≡ some (record { uid = u; euid = u; gid = g; groups = M.members user g }) =
                ground (arith, e, f) in
              subst (λ goal. Ends goal i (change_user S user i)) (sym meant)
                (rw (guard, e, f) (assume_identity_lem true user u g i h))
        ]
      ]
