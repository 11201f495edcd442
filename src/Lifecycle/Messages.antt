-- ===== src/Lifecycle/Messages.antt =====
-- backend/app/domain/enquiry/service.py: messages of a conversation, and who may see it. The table holds
-- the messages in the order of their creation.
use fielded_online.Common.{
  ℕ, zero, suc, Bool, true, false, not, ◌&&◌, ◌||◌, List, [], ◌∷◌, ◌++◌, Option, none, some, find,
  length, ◌==◌, leb, if◌then◌else◌,
}
use fielded_online.Common.Outcome.{
  Action, Result, ok, raise_if, ◌>>◌, not_found, authorization, validation,
}
use fielded_online.Common.Check.{refuse, found_or}
use fielded_online.Store.{Store}
use fielded_online.Store.Conversations.{
  Conversation, Message, SenderType, customer, business, unlisted,
}

-- get_enquiry_conversation
abbrev pub get_enquiry_conversation : ℕ → Store → Result Conversation
get_enquiry_conversation enquiry s =
    found_or (find (λ c. c.enquiry_id == enquiry) s.conversations) not_found

-- verify_customer_access and verify_business_access, of the owner's id
abbrev pub verify_access : ℕ → ℕ → Result (Unit {0})
verify_access owner_id i = refuse (not (owner_id == i)) authorization

-- str.isspace, by code point
abbrev pub is_space : ℕ → Bool
is_space c =
    (leb 9 c && leb c 13)
    || (leb 28 c && leb c 32)
    || c == 133
    || c == 160
    || c == 5760
    || (leb 8192 c && leb c 8202)
    || c == 8232
    || c == 8233
    || c == 8239
    || c == 8287
    || c == 12288

abbrev pub lstrip : List ℕ → List ℕ
lstrip [] = []
lstrip (c ∷ s) = if is_space c then lstrip s else c ∷ s

abbrev pub drop_blank : ℕ → List ℕ → List ℕ
drop_blank c [] = if is_space c then [] else c ∷ []
drop_blank c (d ∷ s) = c ∷ d ∷ s

abbrev pub rstrip : List ℕ → List ℕ
rstrip [] = []
rstrip (c ∷ s) = drop_blank c (rstrip s)

-- content.strip()
unfoldable pub strip : List ℕ → List ℕ
strip s = rstrip (lstrip s)

abbrev pub is_blank : List ℕ → Bool
is_blank [] = true
is_blank (c ∷ s) = false

-- `sender_type not in VALID_SENDER_TYPES`
abbrev pub is_valid_sender : SenderType → Bool
is_valid_sender customer = true
is_valid_sender business = true
is_valid_sender unlisted = false

abbrev pub new_message : ℕ → ℕ → SenderType → List ℕ → Store → Message
new_message conversation sender sender_type content s = record {
  id = length s.messages;
  conversation_id = conversation;
  sender_id = sender;
  sender_type = sender_type;
  content = strip content;
  read_at = none;
}

abbrev pub insert_message : ℕ → ℕ → SenderType → List ℕ → Action Store Message
insert_message conversation sender sender_type content s =
    let m = new_message conversation sender sender_type content s in
    (ok m, record s { messages = s.messages ++ (m ∷ []) })

unfoldable pub send_message : ℕ → ℕ → SenderType → List ℕ → Action Store Message
send_message conversation sender sender_type content = do
  raise_if (is_blank (strip content)) validation
  raise_if (not (is_valid_sender sender_type)) validation
  insert_message conversation sender sender_type content

-- What the loop of mark_messages_read does with a message that the query returned.
abbrev pub is_unread : Option ℕ → Bool
is_unread none = true
is_unread (some t) = false

abbrev pub is_marked : ℕ → Message → Bool
is_marked reader m = not (m.sender_id == reader) && is_unread m.read_at

abbrev pub mark_message : ℕ → ℕ → Message → Message
mark_message now reader m = if is_marked reader m then record m { read_at = some now } else m

-- The loop, over the rows of the table: the query returns the oldest `limit` messages of the
-- conversation.
unfoldable pub mark_messages : ℕ → ℕ → ℕ → ℕ → List Message → ℕ × List Message
mark_messages now reader conversation limit [] = (0, [])
mark_messages now reader conversation zero (m ∷ ms) = (0, m ∷ ms)
mark_messages now reader conversation (suc limit) (m ∷ ms) =
    let here = mark_messages now reader conversation limit ms in
    let there = mark_messages now reader conversation (suc limit) ms in
    if m.conversation_id == conversation
    then (if is_marked reader m then suc here.0 else here.0, mark_message now reader m ∷ here.1)
    else (there.0, m ∷ there.1)

unfoldable pub mark_messages_read : ℕ → ℕ → ℕ → Action Store ℕ
mark_messages_read now conversation reader s =
    let (count, messages) = mark_messages now reader conversation 500 s.messages in
    (ok count, record s { messages = messages })
