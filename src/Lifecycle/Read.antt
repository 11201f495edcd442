-- ===== src/Lifecycle/Read.antt =====
-- Reading the messages of a conversation twice marks nothing again; and only the oldest 500 are marked.
use fielded_online.Common.{
  ℕ, zero, suc, ◌≤◌, ◌≡◌, refl, ap, inl, inr, false, List, [], ◌∷◌, select, length, ◌==◌,
  Bool-cases, arith,
}
use fielded_online.Common.Outcome.{ok}
use fielded_online.Store.{Store}
use fielded_online.Store.Conversations.{Message}
use fielded_online.Lifecycle.Messages.{is_marked, mark_message, mark_messages, mark_messages_read}

mark_message-done :
    (now now' reader : ℕ) (m : Message)
    → (is_marked reader (mark_message now reader m) ≡ false)
      × (mark_message now' reader (mark_message now reader m) ≡ mark_message now reader m)
      × ((mark_message now reader m).conversation_id ≡ m.conversation_id)
mark_message-done now now' reader m = ground arith

mark_messages_again :
    (now now' reader conversation limit : ℕ) (ms : List Message)
    → mark_messages now' reader conversation limit
        (mark_messages now reader conversation limit ms).1
      ≡ (0, (mark_messages now reader conversation limit ms).1)
unfolding mark_messages
mark_messages_again now now' reader conversation limit [] = refl
mark_messages_again now now' reader conversation zero (m ∷ ms) = refl
mark_messages_again now now' reader conversation (suc limit) (m ∷ ms) =
    elim (Bool-cases (m.conversation_id == conversation)) [
      | inl hit ↦
          let (marked, same, where_it_is) = mark_message-done now now' reader m in
          rw
            (
              hit,
              where_it_is,
              hit,
              marked,
              mark_messages_again now now' reader conversation limit ms,
            )
            refl
      | inr miss ↦
          rw (miss, miss, mark_messages_again now now' reader conversation (suc limit) ms) refl
    ]

-- The messages of a conversation, and those that are unread for a reader.
abbrev pub messages_of : ℕ → List Message → List Message
messages_of conversation ms = select (λ m. m.conversation_id == conversation) ms

abbrev pub unread_for : ℕ → ℕ → List Message → List Message
unread_for reader conversation ms = select (is_marked reader) (messages_of conversation ms)

nil_of_length : {A : Type 0} (xs : List A) → length xs ≤ 0 → xs ≡ []
nil_of_length [] h = refl
nil_of_length (x ∷ xs) h = absurd (ground arith)

mark_messages-unread :
    (now reader conversation limit : ℕ) (ms : List Message)
    → length (messages_of conversation ms) ≤ limit
    → ((mark_messages now reader conversation limit ms).0
        ≡ length (unread_for reader conversation ms))
      × (unread_for reader conversation (mark_messages now reader conversation limit ms).1 ≡ [])
unfolding mark_messages
mark_messages-unread now reader conversation limit [] h = (refl, refl)
mark_messages-unread now reader conversation zero (m ∷ ms) h =
    rw (nil_of_length (messages_of conversation (m ∷ ms)) h) (refl, refl)
mark_messages-unread now reader conversation (suc limit) (m ∷ ms) h =
    elim (Bool-cases (m.conversation_id == conversation)) [
      | inl hit ↦
          let (n, none_left) =
            mark_messages-unread now reader conversation limit ms (ground arith) in
          let (marked, same, where_it_is) = mark_message-done now now reader m in ground arith
      | inr miss ↦
          let (n, none_left) =
            mark_messages-unread now reader conversation (suc limit) ms (ground arith) in
          ground arith
    ]

-- A reader who reads a conversation again, at whatever time, marks no message, and nothing changes.
pub mark_messages_read_again :
    (now now' conversation reader : ℕ) (s : Store)
    → mark_messages_read now' conversation reader (mark_messages_read now conversation reader s).1
      ≡ (ok 0, (mark_messages_read now conversation reader s).1)
unfolding mark_messages_read
mark_messages_read_again now now' conversation reader s =
    rw (mark_messages_again now now' reader conversation 500 s.messages) refl

-- In a conversation of at most 500 messages, reading leaves none that is unread for the reader, and the
-- answer is the number of those that were.
pub mark_messages_read-unread :
    (now conversation reader : ℕ) (s : Store)
    → length (messages_of conversation s.messages) ≤ 500
    → ((mark_messages_read now conversation reader s).0
        ≡ ok (length (unread_for reader conversation s.messages)))
      × (unread_for reader conversation (mark_messages_read now conversation reader s).1.messages
          ≡ [])
unfolding mark_messages_read
mark_messages_read-unread now conversation reader s h =
    let (n, none_left) = mark_messages-unread now reader conversation 500 s.messages h in
    (ap ok n, none_left)
