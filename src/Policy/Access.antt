-- ===== src/Policy/Access.antt =====
-- Permissions of roles, and the test that an approver is a person.
pub mod Duties
use procurement_automation.Prelude.{
  Bool, true, false, if◌then◌else◌, Option, none, some, List, [], ◌∷◌, ◌++◌, String, contains,
}
use procurement_automation.Prelude.Text.{Codes, Unicode, codes, upper, is_one_of}
use procurement_automation.Errors.{Error, Result, ok, err}
use procurement_automation.Vocabulary.Access.{
  Role, Permission, Permission-discrete, role_permissions, role_of,
}
use procurement_automation.Approval.{Approval}

-- The permissions of one raw role name; an unknown name grants none.
abbrev pub grants_of : Option Role → List Permission
grants_of none = []
grants_of (some r) = role_permissions r

-- `permissions_for_roles`; a set is a list here, of which only membership is read.
unfoldable pub permissions_for_roles : List String → List Permission
permissions_for_roles [] = []
permissions_for_roles (raw ∷ rest) = grants_of (role_of raw) ++ permissions_for_roles rest

-- `permission in permissions_for_roles(roles)`
unfoldable pub has_permission : List String → Permission → Bool
unfolding permissions_for_roles Permission-discrete
has_permission roles p = contains Permission-discrete (permissions_for_roles roles) p

-- `require_permission`
unfoldable pub require_permission : List String → Permission → Result (Unit {0})
require_permission roles p = if has_permission roles p then ok tt else err Error.policy_violation

abbrev machine_names : List Codes
machine_names = codes "SYSTEM" ∷ codes "AGENT" ∷ codes "PROCUREGUARD" ∷ codes "BOT" ∷ []

-- `assert_approval_is_human`
unfoldable pub assert_approval_is_human : Unicode → Approval → Result (Unit {0})
unfolding upper is_one_of
assert_approval_is_human u a =
    if is_one_of machine_names (upper u (codes a.actor_id))
    then err Error.domain_invariant
    else ok tt
