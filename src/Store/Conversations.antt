-- ===== src/Store/Conversations.antt =====
-- backend/app/domain/enquiry/models.py: the conversation of an enquiry, and its messages.
use fielded_online.Common.{ℕ, List, Option}

pub record Conversation : Type 0 where
  pub id : ℕ
  pub enquiry_id : ℕ
  pub customer_id : ℕ
  pub business_id : ℕ

-- The strings "customer" and "business"; `unlisted` is any other.
pub data SenderType : Type 0 where
  customer business unlisted : SenderType

-- `content` is a list of code points.
pub record Message : Type 0 where
  pub id : ℕ
  pub conversation_id : ℕ
  pub sender_id : ℕ
  pub sender_type : SenderType
  pub content : List ℕ
  pub read_at : Option ℕ
