-- ===== src/Status/Payments.antt =====
-- backend/app/domain/common/enums.py, PaymentStatus and PAYMENT_TRANSITIONS.
use fielded_online.Common.{ℕ, List, [], ◌∷◌, ◌≡◌, arith, Enum}

pub data PaymentStatus : Type 0 where
  pending processing succeeded failed expired cancelled refunded partially_refunded disputed :
      PaymentStatus

abbrev pub payment_status_index : PaymentStatus → ℕ
payment_status_index pending = 0
payment_status_index processing = 1
payment_status_index succeeded = 2
payment_status_index failed = 3
payment_status_index expired = 4
payment_status_index cancelled = 5
payment_status_index refunded = 6
payment_status_index partially_refunded = 7
payment_status_index disputed = 8

pub payment_status_index_injective :
    (a b : PaymentStatus) → payment_status_index a ≡ payment_status_index b → a ≡ b
payment_status_index_injective a b h = ground arith

instance abbrev pub payment_status_enum : Enum PaymentStatus
payment_status_enum = record {
  index = payment_status_index;
  index_injective = payment_status_index_injective;
}

abbrev pub payment_transitions : PaymentStatus → List PaymentStatus
payment_transitions pending = processing ∷ failed ∷ expired ∷ cancelled ∷ []
payment_transitions processing = succeeded ∷ failed ∷ expired ∷ cancelled ∷ []
payment_transitions succeeded = refunded ∷ partially_refunded ∷ disputed ∷ []
payment_transitions failed = []
payment_transitions expired = []
payment_transitions cancelled = []
payment_transitions refunded = []
payment_transitions partially_refunded = refunded ∷ disputed ∷ []
payment_transitions disputed = refunded ∷ succeeded ∷ []
