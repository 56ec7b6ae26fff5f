-- ===== src/Vocabulary/Access.antt =====
-- Roles and permissions (procureguard/domain/enums.py).
use procurement_automation.Prelude.{
  List, [], ◌∷◌, Option, none, some, String, str_eq, if◌then◌else◌,
}

pub data Role : Type 0 where
  requester buyer senior_buyer category_manager engineer quality finance procurement_head : Role
  executive auditor system admin : Role

pub data Permission : Type 0 where
  case_read case_create case_cancel document_upload document_read rfq_release email_send :
      Permission
  technical_approve deviation_approve commercial_read negotiation_send award_approve : Permission
  po_release admin_manage audit_read : Permission

unfoldable pub Role-discrete : Discrete Role
Role-discrete = hlevel

unfoldable pub Permission-discrete : Discrete Permission
Permission-discrete = hlevel

-- `frozenset(Permission)`
abbrev pub all_permissions : List Permission
all_permissions =
    Permission.case_read ∷ Permission.case_create ∷ Permission.case_cancel
    ∷ Permission.document_upload ∷ Permission.document_read ∷ Permission.rfq_release
    ∷ Permission.email_send ∷ Permission.technical_approve ∷ Permission.deviation_approve
    ∷ Permission.commercial_read ∷ Permission.negotiation_send ∷ Permission.award_approve
    ∷ Permission.po_release ∷ Permission.admin_manage ∷ Permission.audit_read ∷ []

-- `ROLE_PERMISSIONS`
unfoldable pub role_permissions : Role → List Permission
role_permissions Role.requester = Permission.case_read ∷ Permission.case_create ∷ []
role_permissions Role.buyer =
    Permission.case_read ∷ Permission.case_create ∷ Permission.case_cancel
    ∷ Permission.document_upload ∷ Permission.document_read ∷ Permission.commercial_read ∷ []
role_permissions Role.senior_buyer =
    Permission.case_read ∷ Permission.case_create ∷ Permission.case_cancel
    ∷ Permission.document_upload ∷ Permission.document_read ∷ Permission.commercial_read
    ∷ Permission.rfq_release ∷ Permission.email_send ∷ Permission.negotiation_send ∷ []
role_permissions Role.category_manager =
    Permission.case_read ∷ Permission.document_read ∷ Permission.commercial_read
    ∷ Permission.rfq_release ∷ Permission.email_send ∷ Permission.negotiation_send
    ∷ Permission.award_approve ∷ []
role_permissions Role.engineer =
    Permission.case_read ∷ Permission.document_upload ∷ Permission.document_read
    ∷ Permission.technical_approve ∷ Permission.deviation_approve ∷ []
role_permissions Role.quality =
    Permission.case_read ∷ Permission.document_read ∷ Permission.technical_approve
    ∷ Permission.deviation_approve ∷ []
role_permissions Role.finance =
    Permission.case_read ∷ Permission.commercial_read ∷ Permission.audit_read ∷ []
role_permissions Role.procurement_head =
    Permission.case_read ∷ Permission.case_cancel ∷ Permission.document_read
    ∷ Permission.commercial_read ∷ Permission.rfq_release ∷ Permission.email_send
    ∷ Permission.negotiation_send ∷ Permission.award_approve ∷ Permission.po_release
    ∷ Permission.audit_read ∷ []
role_permissions Role.executive =
    Permission.case_read ∷ Permission.commercial_read ∷ Permission.award_approve
    ∷ Permission.po_release ∷ Permission.audit_read ∷ []
role_permissions Role.auditor =
    Permission.case_read ∷ Permission.document_read ∷ Permission.audit_read ∷ []
role_permissions Role.system = Permission.case_read ∷ Permission.document_read ∷ []
role_permissions Role.admin = all_permissions

-- The value of a member of `Role`.
unfoldable pub role_value : Role → String
role_value Role.requester = "REQUESTER"
role_value Role.buyer = "BUYER"
role_value Role.senior_buyer = "SENIOR_BUYER"
role_value Role.category_manager = "CATEGORY_MANAGER"
role_value Role.engineer = "ENGINEER"
role_value Role.quality = "QUALITY"
role_value Role.finance = "FINANCE"
role_value Role.procurement_head = "PROCUREMENT_HEAD"
role_value Role.executive = "EXECUTIVE"
role_value Role.auditor = "AUDITOR"
role_value Role.system = "SYSTEM"
role_value Role.admin = "ADMIN"

abbrev pub all_roles : List Role
all_roles =
    Role.requester ∷ Role.buyer ∷ Role.senior_buyer ∷ Role.category_manager ∷ Role.engineer
    ∷ Role.quality ∷ Role.finance ∷ Role.procurement_head ∷ Role.executive ∷ Role.auditor
    ∷ Role.system ∷ Role.admin ∷ []

find_role : List Role → String → Option Role
find_role [] raw = none
find_role (r ∷ rest) raw = if str_eq (role_value r) raw then some r else find_role rest raw

-- `Role(raw)`; `none` is its `ValueError`.
unfoldable pub role_of : String → Option Role
unfolding find_role role_value
role_of raw = find_role all_roles raw
