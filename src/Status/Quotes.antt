-- ===== src/Status/Quotes.antt =====
-- backend/app/domain/common/enums.py, QuoteStatus and QUOTE_TRANSITIONS.
use fielded_online.Common.{ℕ, List, [], ◌∷◌, ◌≡◌, arith, Enum}

pub data QuoteStatus : Type 0 where
  draft issued accepted declined expired : QuoteStatus

abbrev pub quote_status_index : QuoteStatus → ℕ
quote_status_index draft = 0
quote_status_index issued = 1
quote_status_index accepted = 2
quote_status_index declined = 3
quote_status_index expired = 4

pub quote_status_index_injective :
    (a b : QuoteStatus) → quote_status_index a ≡ quote_status_index b → a ≡ b
quote_status_index_injective a b h = ground arith

instance abbrev pub quote_status_enum : Enum QuoteStatus
quote_status_enum = record {
  index = quote_status_index;
  index_injective = quote_status_index_injective;
}

abbrev pub quote_transitions : QuoteStatus → List QuoteStatus
quote_transitions draft = issued ∷ []
quote_transitions issued = accepted ∷ declined ∷ expired ∷ []
quote_transitions accepted = []
quote_transitions declined = []
quote_transitions expired = []
