-- ===== src/Rulebook/Approval.antt =====
-- backend/app/domain/business/approval.py: who may approve a version.
use fielded_online.Common.{ℕ, ◌+◌, Bool, true, not, ◌&&◌, List, [], any, leb, ltb, if◌then◌else◌}
use fielded_online.Status.Versions.{BusinessMemberRole, owner, admin, staff}
use fielded_online.Brain.Values.{Text, same_text}

pub data ApprovalDecision : Type 0 where
  approved denied self_approval_not_permitted insufficient_role multiple_approvals_required :
      ApprovalDecision

pub record ApprovalPolicy : Type 0 where
  pub self_approval_allowed : Bool
  pub minimum_approver_role : BusinessMemberRole
  pub required_approvals : ℕ
  pub sensitive_rule_types : List Text
  pub sensitive_approver_role : BusinessMemberRole

-- role_levels
abbrev pub role_level : BusinessMemberRole → ℕ
role_level owner = 3
role_level admin = 2
role_level staff = 1

abbrev pub is_sensitive : ApprovalPolicy → List Text → Bool
is_sensitive policy rule_types = any (λ t. any (same_text t) policy.sensitive_rule_types) rule_types

abbrev pub required_role : ApprovalPolicy → List Text → BusinessMemberRole
required_role policy rule_types =
    if is_sensitive policy rule_types
    then policy.sensitive_approver_role
    else policy.minimum_approver_role

-- ApprovalPolicy.check_approval
unfoldable pub check_approval :
    ApprovalPolicy → BusinessMemberRole → Bool → List Text → ℕ → ApprovalDecision
check_approval policy approver_role is_author rule_types existing_approvals =
    if ltb (role_level approver_role) (role_level (required_role policy rule_types))
    then insufficient_role
    else if is_author && not policy.self_approval_allowed
    then self_approval_not_permitted
    else if leb policy.required_approvals existing_approvals
    then approved
    else if leb policy.required_approvals (existing_approvals + 1)
    then approved
    else multiple_approvals_required

-- DEFAULT_APPROVAL_POLICY, which resolve_approval_policy answers without a configuration.
abbrev pub default_approval_policy : ApprovalPolicy
default_approval_policy = record {
  self_approval_allowed = true;
  minimum_approver_role = owner;
  required_approvals = 1;
  sensitive_rule_types = [];
  sensitive_approver_role = owner;
}
