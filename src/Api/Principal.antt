-- ===== src/Api/Principal.antt =====
-- `Principal` (procureguard/security/auth.py) and `require` (procureguard/api/dependencies.py).
use procurement_automation.Prelude.{Bool, not, if◌then◌else◌, List, [], ◌∷◌, String}
use procurement_automation.Prelude.Text.{Unicode, Codes, codes, upper, is_one_of}
use procurement_automation.Errors.{Error, Result, ok, err}
use procurement_automation.Vocabulary.Access.{Permission}
use procurement_automation.Policy.Access.{has_permission}

-- Without the token's time and claims.
pub record Principal : Type 0 where
  pub actor_id : String
  pub email : String
  pub display_name : String
  pub roles : List String
  pub tenant_id : String
  pub auth_method : String

abbrev service_names : List Codes
service_names = codes "SYSTEM" ∷ codes "AGENT" ∷ codes "PROCUREGUARD" ∷ codes "WORKER" ∷ []

-- `is_human`
unfoldable pub is_human : Unicode → Principal → Bool
unfolding upper is_one_of
is_human u p = not (is_one_of service_names (upper u (codes p.actor_id)))

-- `has` and `require`
unfoldable pub require : Principal → Permission → Result (Unit {0})
require p permission = if has_permission p.roles permission then ok tt else err Error.authorization

-- `require_human`
unfoldable pub require_human : Unicode → Principal → Result (Unit {0})
require_human u p = if is_human u p then ok tt else err Error.authorization
