-- ===== src/Rbac.antt =====
-- rbac/rbac.go: roles, users and permissions, which are all strings. A map is a function with `none`
-- for a missing key, and a set of strings a list in which one string stands at most once. The
-- mutex has no counterpart. The hash of a password is the work of credentials.go and of the
-- library under it, so `Credential`, `hashPassword` and `Verify` are arguments.
pub mod Laws
pub mod Runs
use isopace.Common.{
  ℕ, zero, suc, ◌+◌, ◌-◌, Bool, true, false, ◌||◌, ◌&&◌, not, Option, none, some, List, [], ◌∷◌,
  ◌++◌,
}
use isopace.Common.{◌==◌, if◌then◌else◌, Bytes, eq_bytes, length, take, drop, ltb, Result, ok, err}

-- `userRec`
pub record User (Credential : Type 0) : Type 0 where
  pub roles : List Bytes
  pub cred : Option Credential

pub record Policy (Credential : Type 0) : Type 0 where
  pub roles : Bytes → Option (List Bytes)
  pub users : Bytes → Option (User Credential)

pub data RbacError : Type 0 where
  no_such_user hash_error : RbacError

-- `m[key] = v`
pub put : {A : Type 0} → Bytes → A → (Bytes → Option A) → Bytes → Option A
put key v m k = if eq_bytes k key then some v else m k

-- The members of a set.
pub has : Bytes → List Bytes → Bool
has x [] = false
has x (y ∷ ys) = eq_bytes x y || has x ys

pub insert : Bytes → List Bytes → List Bytes
unfolding has
insert x xs = if has x xs then xs else x ∷ xs

-- `delete(set, x)`
pub remove : Bytes → List Bytes → List Bytes
remove x [] = []
remove x (y ∷ ys) = let rest = remove x ys in if eq_bytes x y then rest else y ∷ rest

pub set_of : List Bytes → List Bytes
unfolding insert
set_of [] = []
set_of (x ∷ xs) = insert x (set_of xs)

pub has_prefix : Bytes → Bytes → Bool
has_prefix s [] = true
has_prefix [] (p ∷ ps) = false
has_prefix (c ∷ s) (p ∷ ps) = c == p && has_prefix s ps

pub has_suffix : Bytes → Bytes → Bool
has_suffix s suffix =
    if ltb (length s) (length suffix)
    then false
    else eq_bytes (drop (length s - length suffix) s) suffix

abbrev pub star : Bytes
star = b'*' ∷ []

abbrev pub colon_star : Bytes
colon_star = b':' ∷ b'*' ∷ []

-- `permMatch`
pub perm_match : Bytes → Bytes → Bool
unfolding has_prefix has_suffix
perm_match granted requested =
    if eq_bytes granted star || eq_bytes granted requested
    then true
    else if has_suffix granted colon_star
    then has_prefix requested (take (length granted - 1) granted)
    else false

-- The inner loop of `Can`.
pub any_match : Bytes → List Bytes → Bool
unfolding perm_match
any_match perm [] = false
any_match perm (g ∷ gs) = perm_match g perm || any_match perm gs

module _ {Credential : Type 0} where
  abbrev pub new_policy : Policy Credential
  new_policy = record { roles = λ _. none; users = λ _. none }

  pub add_role : Bytes → List Bytes → Policy Credential → Policy Credential
  unfolding put set_of
  add_role name perms p = record p { roles = put name (set_of perms) p.roles }

  pub add_user : Bytes → List Bytes → Policy Credential → Policy Credential
  unfolding put set_of
  add_user name roles p =
      let cred : Option Credential = elim (p.users name) [ none ↦ none | some u ↦ u.cred ] in
      record p { users = put name (record { roles = set_of roles; cred = cred }) p.users }

  pub grant : Bytes → Bytes → Policy Credential → Result RbacError (Policy Credential)
  unfolding put insert
  grant user role p = elim (p.users user) [
    | none ↦ err no_such_user
    | some u ↦ ok (record p { users = put user (record u { roles = insert role u.roles }) p.users })
  ]

  pub revoke : Bytes → Bytes → Policy Credential → Result RbacError (Policy Credential)
  unfolding put remove
  revoke user role p = elim (p.users user) [
    | none ↦ err no_such_user
    | some u ↦ ok (record p { users = put user (record u { roles = remove role u.roles }) p.users })
  ]

  -- `SetPassword`, with what `hashPassword` answers.
  pub set_password :
      (Bytes → Option Credential)
      → Bytes
      → Bytes
      → Policy Credential
      → Result RbacError (Policy Credential)
  unfolding put
  set_password hash user password p = elim (hash password) [
    | none ↦ err hash_error
    | some c ↦ elim (p.users user) [
      | none ↦ err no_such_user
      | some u ↦ ok (record p { users = put user (record u { cred = some c }) p.users })
    ]
  ]

  -- `Authenticate`; the work on the dummy credential has no effect.
  pub authenticate : (Credential → Bytes → Bool) → Bytes → Bytes → Policy Credential → Bool
  authenticate verify user password p = elim (p.users user) [
    | none ↦ false
    | some u ↦ elim u.cred [ none ↦ false | some c ↦ verify c password ]
  ]

  -- A role that is not defined grants nothing.
  pub role_can : Policy Credential → Bytes → Bytes → Bool
  unfolding any_match
  role_can p role perm = elim (p.roles role) [ none ↦ false | some gs ↦ any_match perm gs ]

  -- The outer loop of `Can`.
  pub any_role : Policy Credential → Bytes → List Bytes → Bool
  unfolding role_can
  any_role p perm [] = false
  any_role p perm (r ∷ rs) = role_can p r perm || any_role p perm rs

  pub can : Policy Credential → Bytes → Bytes → Bool
  unfolding any_role
  can p user perm = elim (p.users user) [ none ↦ false | some u ↦ any_role p perm u.roles ]
