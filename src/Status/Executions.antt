-- ===== src/Status/Executions.antt =====
-- backend/app/domain/common/enums.py, ServiceExecutionStatus and SERVICE_EXECUTION_TRANSITIONS.
use fielded_online.Common.{ℕ, List, [], ◌∷◌, ◌≡◌, arith, Enum}

pub data ServiceExecutionStatus : Type 0 where
  scheduled in_progress completed cancelled no_show : ServiceExecutionStatus

abbrev pub execution_status_index : ServiceExecutionStatus → ℕ
execution_status_index scheduled = 0
execution_status_index in_progress = 1
execution_status_index completed = 2
execution_status_index cancelled = 3
execution_status_index no_show = 4

pub execution_status_index_injective :
    (a b : ServiceExecutionStatus) → execution_status_index a ≡ execution_status_index b → a ≡ b
execution_status_index_injective a b h = ground arith

instance abbrev pub execution_status_enum : Enum ServiceExecutionStatus
execution_status_enum = record {
  index = execution_status_index;
  index_injective = execution_status_index_injective;
}

abbrev pub execution_transitions : ServiceExecutionStatus → List ServiceExecutionStatus
execution_transitions scheduled = in_progress ∷ cancelled ∷ no_show ∷ []
execution_transitions in_progress = completed ∷ cancelled ∷ []
execution_transitions completed = []
execution_transitions cancelled = []
execution_transitions no_show = []
