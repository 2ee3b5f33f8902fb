-- ===== src/Rbac/Runs.antt =====
-- Tests, and the theorems at concrete inputs.
use isopace.Common.{ℕ, ◌≡◌, refl, ◌⊎◌, true, false, ◌||◌, ◌&&◌, none, [], ◌∷◌}
use isopace.Common.{Bytes, eq_bytes, ok, err}
use isopace.Rbac.{
  Policy, new_policy, add_role, add_user, grant, can, role_can, any_role, any_match, perm_match,
  has_prefix, has_suffix, has, put, set_of, insert, no_such_user,
}
use isopace.Rbac.Laws.{can-grant}

abbrev clerk : Bytes
clerk = b'c' ∷ []

abbrev ann : Bytes
ann = b'a' ∷ []

-- "tx:*" and "tx:read"
abbrev all_tx : Bytes
all_tx = b't' ∷ b'x' ∷ b':' ∷ b'*' ∷ []

abbrev read_tx : Bytes
read_tx = b't' ∷ b'x' ∷ b':' ∷ b'r' ∷ []

perm_match-all_tx : perm_match all_tx read_tx ≡ true
unfolding perm_match has_prefix has_suffix eq_bytes
perm_match-all_tx = refl

perm_match-read_tx : perm_match read_tx all_tx ≡ false
unfolding perm_match has_prefix has_suffix eq_bytes
perm_match-read_tx = refl

-- A policy with the role and a user who has it.
shop : Policy ℕ
unfolding add_user add_role
shop = add_user ann (clerk ∷ []) (add_role clerk (all_tx ∷ []) new_policy)

can-shop : can shop ann read_tx ≡ true
unfolding shop add_user add_role put set_of insert has can any_role role_can any_match perm_match
    has_prefix has_suffix eq_bytes
can-shop = refl

can-grant_example :
    ((shop.users ann ≡ none) × (grant ann clerk shop ≡ err no_such_user))
    ⊎ ((q : Policy ℕ) × ((grant ann clerk shop ≡ ok q)
          × ((u perm : Bytes)
              → can q u perm ≡ (can shop u perm || (eq_bytes u ann && role_can shop clerk perm)))))
can-grant_example = can-grant shop ann clerk
