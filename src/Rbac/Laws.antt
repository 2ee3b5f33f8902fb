-- ===== src/Rbac/Laws.antt =====
-- What `Grant` and `Revoke` change of what a user can do.
use isopace.Common.{
  ◌≡◌, refl, sym, ap, ◌∙◌, ◌⊎◌, inl, inr, true, false, ◌||◌, ◌&&◌, Option, none, some, List, [],
  ◌∷◌, arith,
}
use isopace.Common.{if◌then◌else◌, Bytes, eq_bytes, eq_bytes→eq, ok, err, Bool-cases, Option-cases}
use isopace.Rbac.{
  Policy, User, put, has, insert, remove, grant, revoke, role_can, any_role, can, no_such_user,
}

module _ {Credential : Type 0} (p : Policy Credential) (perm : Bytes) where
  -- A role that is among the others adds nothing.
  any_role-has :
      (r : Bytes) (rs : List Bytes)
      → has r rs ≡ true
      → (role_can p r perm || any_role p perm rs) ≡ any_role p perm rs
  unfolding any_role has
  any_role-has r [] h = absurd (cc)
  any_role-has r (x ∷ rs) h = elim (Bool-cases (eq_bytes r x)) [
    | inl e ↦ let q : r ≡ x = eq_bytes→eq r x e in rw q (ground arith)
    | inr e ↦ ground (arith, any_role-has r rs)
  ]

  any_role-insert :
      (r : Bytes) (rs : List Bytes)
      → any_role p perm (insert r rs) ≡ (role_can p r perm || any_role p perm rs)
  unfolding insert any_role
  any_role-insert r rs = elim (Bool-cases (has r rs)) [
    | inl h ↦ rw h (sym (any_role-has r rs h))
    | inr h ↦ rw h refl
  ]

  any_role-remove :
      (r : Bytes) (rs : List Bytes)
      → any_role p perm rs ≡ (any_role p perm (remove r rs) || (has r rs && role_can p r perm))
  unfolding remove any_role has
  any_role-remove r [] = refl
  any_role-remove r (x ∷ rs) = elim (Bool-cases (eq_bytes r x)) [
    | inl e ↦
        let q : r ≡ x = eq_bytes→eq r x e in
        ground (arith, any_role-remove r rs, ap (λ z. role_can p z perm) q)
    | inr e ↦ ground (arith, any_role-remove r rs)
  ]

  -- Only the roles of the policy count for what a set of roles can do.
  any_role_users :
      (us : Bytes → Option (User Credential)) (rs : List Bytes)
      → any_role (record p { users = us }) perm rs ≡ any_role p perm rs
  unfolding any_role role_can
  any_role_users us [] = refl
  any_role_users us (r ∷ rs) = rw (any_role_users us rs) refl

  can-some :
      (u : Bytes) {usr : User Credential}
      → p.users u ≡ some usr
      → can p u perm ≡ any_role p perm usr.roles
  unfolding can
  can-some u q = rw (can, q) refl

  can-none : (u : Bytes) → p.users u ≡ none → can p u perm ≡ false
  unfolding can
  can-none u q = rw (can, q) refl

put_here :
    {A : Type 0} (k key : Bytes) (v : A) (m : Bytes → Option A)
    → eq_bytes k key ≡ true
    → put key v m k ≡ some v
unfolding put
put_here k key v m e = rw e refl

put_other :
    {A : Type 0} (k key : Bytes) (v : A) (m : Bytes → Option A)
    → eq_bytes k key ≡ false
    → put key v m k ≡ m k
unfolding put
put_other k key v m e = rw e refl

module _ {Credential : Type 0} (p : Policy Credential) (perm : Bytes) where
  -- Changing the roles of one user.
  can-put :
      (user u : Bytes) (usr : User Credential) (rs : List Bytes)
      → can (record p { users = put user (record usr { roles = rs }) p.users }) u perm
        ≡ (if eq_bytes u user then any_role p perm rs else can p u perm)
  can-put user u usr rs =
      let new : User Credential = record usr { roles = rs } in
      let us = put user new p.users in
      let q : Policy Credential = record p { users = us } in
      elim (Bool-cases (eq_bytes u user)) [
        | inl e ↦
            can-some q perm u (put_here u user new p.users e)
            ∙ any_role_users p perm us rs
            ∙ rw e refl
        | inr e ↦
            let same = put_other u user new p.users e in
            elim (Option-cases (p.users u)) [
              | inl n ↦ can-none q perm u (same ∙ n) ∙ sym (can-none p perm u n) ∙ rw e refl
              | inr (v, n) ↦
                  can-some q perm u (same ∙ n)
                  ∙ any_role_users p perm us v.roles
                  ∙ sym (can-some p perm u n)
                  ∙ rw e refl
            ]
      ]

module _ {Credential : Type 0} (p : Policy Credential) (user role : Bytes) where
  grant-some :
      (usr : User Credential)
      → p.users user ≡ some usr
      → grant user role p
        ≡ ok (record p { users = put user (record usr { roles = insert role usr.roles }) p.users })
  unfolding grant
  grant-some usr q = rw (grant, q) refl

  revoke-some :
      (usr : User Credential)
      → p.users user ≡ some usr
      → revoke user role p
        ≡ ok (record p { users = put user (record usr { roles = remove role usr.roles }) p.users })
  unfolding revoke
  revoke-some usr q = rw (revoke, q) refl

  -- A user that exists can do, after `Grant`, what it could before and what the role can; no other user
  -- gains or loses anything. An unknown user is refused.
  pub can-grant :
      ((p.users user ≡ none) × (grant user role p ≡ err no_such_user))
      ⊎ ((q : Policy Credential) × ((grant user role p ≡ ok q)
            × ((u perm : Bytes)
                → can q u perm ≡ (can p u perm || (eq_bytes u user && role_can p role perm)))))
  unfolding grant
  can-grant = elim (Option-cases (p.users user)) [
    | inl q ↦ inl (q, rw (grant, q) refl)
    | inr (usr, q) ↦ inr (
      _,
      (
        grant-some usr q,
        λ u perm. elim (Bool-cases (eq_bytes u user)) [
          | inl e ↦
              let same : u ≡ user = eq_bytes→eq u user e in
              can-put p perm user u usr (insert role usr.roles)
              ∙ ground (
                arith,
                any_role-insert p perm role usr.roles,
                can-some p perm user q,
                ap (λ z. can p z perm) same,
              )
          | inr e ↦ can-put p perm user u usr (insert role usr.roles) ∙ ground arith
        ],
      ),
    )
  ]

  -- After `Revoke`, what the user could do is what it still can and what the role could, if the user
  -- had it; no other user gains or loses anything. An unknown user is refused.
  pub can-revoke :
      ((p.users user ≡ none) × (revoke user role p ≡ err no_such_user))
      ⊎ ((usr : User Credential) × ((q : Policy Credential) × ((p.users user ≡ some usr)
              × ((revoke user role p ≡ ok q)
                  × ((u perm : Bytes)
                      → can p u perm ≡ (
                          can q u perm
                          || (eq_bytes u user && (has role usr.roles && role_can p role perm))))))))
  unfolding revoke
  can-revoke = elim (Option-cases (p.users user)) [
    | inl q ↦ inl (q, rw (revoke, q) refl)
    | inr (usr, q) ↦ inr (
      usr,
      (
        _,
        (
          q,
          (
            revoke-some usr q,
            λ u perm. elim (Bool-cases (eq_bytes u user)) [
              | inl e ↦
                  let same : u ≡ user = eq_bytes→eq u user e in
                  ground (
                    arith,
                    can-put p perm user u usr (remove role usr.roles),
                    any_role-remove p perm role usr.roles,
                    can-some p perm user q,
                    ap (λ z. can p z perm) same,
                  )
              | inr e ↦ ground (arith, can-put p perm user u usr (remove role usr.roles))
            ],
          ),
        ),
      ),
    )
  ]
