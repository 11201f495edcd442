-- ===== src/Status/Versions.antt =====
-- backend/app/domain/common/enums.py, BrainVersionStatus, BRAIN_VERSION_TRANSITIONS and
-- BusinessMemberRole.
use fielded_online.Common.{ℕ, List, [], ◌∷◌, ◌≡◌, arith, Enum}

pub data BrainVersionStatus : Type 0 where
  draft validating review approved active superseded : BrainVersionStatus

abbrev pub version_status_index : BrainVersionStatus → ℕ
version_status_index draft = 0
version_status_index validating = 1
version_status_index review = 2
version_status_index approved = 3
version_status_index active = 4
version_status_index superseded = 5

pub version_status_index_injective :
    (a b : BrainVersionStatus) → version_status_index a ≡ version_status_index b → a ≡ b
version_status_index_injective a b h = ground arith

instance abbrev pub version_status_enum : Enum BrainVersionStatus
version_status_enum = record {
  index = version_status_index;
  index_injective = version_status_index_injective;
}

abbrev pub version_transitions : BrainVersionStatus → List BrainVersionStatus
version_transitions draft = validating ∷ review ∷ []
version_transitions validating = review ∷ draft ∷ []
version_transitions review = approved ∷ draft ∷ []
version_transitions approved = active ∷ []
version_transitions active = superseded ∷ []
version_transitions superseded = []

pub data BusinessMemberRole : Type 0 where
  owner admin staff : BusinessMemberRole
