-- ===== src/Status/Policies.antt =====
-- backend/app/domain/common/enums.py, CommercialPolicyStatus and COMMERCIAL_POLICY_TRANSITIONS.
use fielded_online.Common.{ℕ, List, [], ◌∷◌, ◌≡◌, arith, Enum}

pub data PolicyStatus : Type 0 where
  draft active inactive superseded : PolicyStatus

abbrev pub policy_status_index : PolicyStatus → ℕ
policy_status_index draft = 0
policy_status_index active = 1
policy_status_index inactive = 2
policy_status_index superseded = 3

pub policy_status_index_injective :
    (a b : PolicyStatus) → policy_status_index a ≡ policy_status_index b → a ≡ b
policy_status_index_injective a b h = ground arith

instance abbrev pub policy_status_enum : Enum PolicyStatus
policy_status_enum = record {
  index = policy_status_index;
  index_injective = policy_status_index_injective;
}

abbrev pub policy_transitions : PolicyStatus → List PolicyStatus
policy_transitions draft = active ∷ inactive ∷ []
policy_transitions active = inactive ∷ superseded ∷ []
policy_transitions inactive = active ∷ []
policy_transitions superseded = []
