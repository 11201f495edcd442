-- ===== src/Tests/Chat.antt =====
-- Messages of a conversation at concrete inputs.
use fielded_online.Common.{◌≡◌, refl, [], ◌∷◌, length, arith}
use fielded_online.Common.Outcome.{ok}
use fielded_online.Store.{Store}
use fielded_online.Store.Conversations.{customer}
use fielded_online.Lifecycle.Messages.{strip, send_message, mark_messages_read}
use fielded_online.Lifecycle.Read.{unread_for, mark_messages_read-unread, mark_messages_read_again}
use fielded_online.Tests.Sample.{sample_store, sample_payment}

-- " hi "
abbrev greeted : Store
greeted = (send_message 3 2 customer (32 ∷ 104 ∷ 105 ∷ 32 ∷ []) (sample_store sample_payment)).1

greeted_once : length (unread_for 9 3 greeted.messages) ≡ 1
unfolding send_message strip
greeted_once = refl

mark_messages_read-unread_example :
    ((mark_messages_read 80 3 9 greeted).0 ≡ ok (length (unread_for 9 3 greeted.messages)))
    × (unread_for 9 3 (mark_messages_read 80 3 9 greeted).1.messages ≡ [])
unfolding send_message strip
mark_messages_read-unread_example = mark_messages_read-unread 80 3 9 greeted (omega arith)

mark_messages_read_again_example :
    mark_messages_read 90 3 9 (mark_messages_read 80 3 9 greeted).1
    ≡ (ok 0, (mark_messages_read 80 3 9 greeted).1)
mark_messages_read_again_example = mark_messages_read_again 80 90 3 9 greeted
