-- ===== src/Policy/Access/Duties.antt =====
-- Which roles give which permissions, and that duties are kept apart.
use procurement_automation.Prelude.{
  ◌≡◌, ◌≢◌, ◌&&◌, refl, ◌↔◌, inl, inr, Bool, true, false, ◌||◌, some, List, [], ◌∷◌, ◌++◌, String,
  contains, Any, arith, Bool-cases, Option-cases,
}
use procurement_automation.Errors.{Error, ok, err}
use procurement_automation.Vocabulary.Access.{
  Role, Permission, Permission-discrete, role_permissions, role_of,
}
use procurement_automation.Policy.Access.{
  grants_of, permissions_for_roles, has_permission, require_permission,
}

-- `permission in permissions`
abbrev holds : List Permission → Permission → Bool
holds ps p = contains Permission-discrete ps p

holds-append :
    (ps qs : List Permission) (p : Permission) → holds (ps ++ qs) p ≡ (holds ps p || holds qs p)
holds-append [] qs p = refl
holds-append (x ∷ ps) qs p = ground (arith, holds-append ps qs p)

-- The raw name is a role that has the permission.
abbrev pub Grants : Permission → String → Type 0
Grants p raw =
    (r : Role) × (role_of raw ≡ some r)
    × (contains Permission-discrete (role_permissions r) p ≡ true)

has_permission-cons :
    (raw : String) (roles : List String) (p : Permission)
    → holds (permissions_for_roles (raw ∷ roles)) p
      ≡ (holds (grants_of (role_of raw)) p || holds (permissions_for_roles roles) p)
unfolding permissions_for_roles
has_permission-cons raw roles p =
    holds-append (grants_of (role_of raw)) (permissions_for_roles roles) p

role_eq : {r s : Role} → some r ≡ some s → r ≡ s
role_eq h = cc

holds_iff :
    (roles : List String) (p : Permission)
    → (holds (permissions_for_roles roles) p ≡ true) ↔ Any (Grants p) roles
holds_iff [] p = (λ h. unfold permissions_for_roles in cc h, λ h. absurd h)
holds_iff (raw ∷ roles) p =
    let (to, from) = holds_iff roles p in
    rw (has_permission-cons raw roles p) (elim (Option-cases (role_of raw)) [
      | inl e ↦ rw e ((λ h. inr (to h)), λ h. elim h [ inl (r, q, _) ↦ cc | inr q ↦ from q ])
      | inr (r, e) ↦ rw e (
        (λ h. elim (Bool-cases (holds (role_permissions r) p)) [
          | inl t ↦ inl (r, refl, t)
          | inr f ↦ inr (to (rw f at h))
        ]),
        λ h. elim h [
          | inl (r', q, t) ↦
              let s : holds (role_permissions r) p ≡ true = rw (role_eq q) t in rw s refl
          | inr q ↦ ground (arith, from q)
        ],
      )
    ])

-- A list of role names grants a permission exactly when one of the names is that of a role which
-- has it; `require_permission` then returns, and otherwise raises a policy violation.
pub require_permission_iff :
    (roles : List String) (p : Permission)
    → ((require_permission roles p ≡ ok tt) ↔ Any (Grants p) roles)
      × ((require_permission roles p ≡ err Error.policy_violation) ↔ (¬ Any (Grants p) roles))
unfolding require_permission has_permission
require_permission_iff roles p =
    let (to, from) = holds_iff roles p in
    elim (Bool-cases (holds (permissions_for_roles roles) p)) [
      | inl h ↦
          rw h
            (((λ _. to h), (λ _. refl)), ((λ e. cc), (λ none_grants. absurd (none_grants (to h)))))
      | inr h ↦ rw h (((λ e. cc), (λ g. cc (from g, h))), ((λ _ g. cc (from g, h)), (λ _. refl)))
    ]

abbrev has : Role → Permission → Bool
has r p = contains Permission-discrete (role_permissions r) p

abbrev pub IsApart : Role → Permission → Permission → Type 0
IsApart r p q = (has r p && has r q) ≡ false

-- No role but ADMIN may both judge technically and read prices or award, both ask for material
-- and award it or release the order, or both send to suppliers and judge technically.
pub duties-IsApart :
    (r : Role)
    → r ≢ Role.admin
    → IsApart r Permission.technical_approve Permission.commercial_read
      × IsApart r Permission.technical_approve Permission.award_approve
      × IsApart r Permission.case_create Permission.award_approve
      × IsApart r Permission.case_create Permission.po_release
      × IsApart r Permission.technical_approve Permission.email_send
unfolding role_permissions Permission-discrete
duties-IsApart Role.admin h = absurd (h refl)
duties-IsApart _ h = (refl, refl, refl, refl, refl)
