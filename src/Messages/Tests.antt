-- ===== src/Messages/Tests.antt =====
-- Messages at concrete inputs, and the theorems applied there.
use native.Mathlib.Decide.{ℕ_discrete}
use backend_gateway.Base.{
  String, String_discrete, true, false, none, some, List, [], ◌∷◌, ◌≡◌, ◌≢◌, refl, string_eq, arith,
  listed, reply, count_where,
}
use backend_gateway.Conversations.Memory.{in_memory}
use backend_gateway.Messages.Document.{text, Message, CreateMessage}
use backend_gateway.Messages.Service.{
  encrypted, new_message, edited, deleted, reacted, unreacted, read_by, is_shown, create_message,
  find_by_id, find_by_id_and_update, get_conversation_messages, edit_message, delete_message,
  add_reaction, remove_reaction, add_read_receipt, clear_conversation_messages,
}
use backend_gateway.Messages.Once.{IsOnce}
use backend_gateway.Messages.Runs.{Request, creation, reaction, receipt, handle, run, run-IsOnce}
use backend_gateway.Messages.Deleted.{
  get_conversation_messages-clear_conversation_messages, edit_message-delete_message,
}

program : Unit {0}
unfolding String_discrete ℕ_discrete encrypted new_message edited deleted reacted unreacted read_by
    create_message find_by_id find_by_id_and_update get_conversation_messages edit_message
    delete_message add_reaction remove_reaction add_read_receipt clear_conversation_messages handle
program = tt

abbrev encrypt : String → String
encrypt t = "sealed"

abbrev hello : CreateMessage
hello = record {
  conversation_id = "c1";
  sender_id = "ann";
  kind = text;
  content = some "hello";
  attachments = [];
  reply_to = none;
  metadata = none;
  is_forwarded = false;
  forwarded_from = none;
  expires_in_seconds = 60;
}

abbrev sent : Message
sent = new_message encrypt 1000 "m1" hello

expiry_test : sent.expires_at ≡ some 61000
unfolding program
expiry_test = refl

get_conversation_messages-clear_conversation_messages_example :
    (get_conversation_messages
        (listed Message)
        "c1"
        50
        none
        (clear_conversation_messages (listed Message) 2000 "c1" (sent ∷ []))
      ≡ reply [])
    × ((other : String)
        → other ≢ "c1"
        → count_where
            (is_shown other)
            (clear_conversation_messages (listed Message) 2000 "c1" (sent ∷ []))
          ≡ count_where (is_shown other) (sent ∷ []))
get_conversation_messages-clear_conversation_messages_example =
    get_conversation_messages-clear_conversation_messages (listed Message) 2000 "c1" 50 (sent ∷ [])

edit_message-delete_message_example :
    (w : Message) × ((edit_message
        (listed Message)
        encrypt
        "m1"
        "ann"
        "again"
        (delete_message (listed Message) 2000 "m1" "ann" (sent ∷ [])).0).1
      ≡ reply w)
    × (w.is_deleted ≡ true)
    × (w.content ≡ some "again")
unfolding program
edit_message-delete_message_example =
    edit_message-delete_message (listed Message) encrypt 2000 "m1" "ann" "again" (sent ∷ []) sent
      (ground arith) refl refl refl

abbrev requests : List Request
requests =
    creation 1000 "m1" hello
    ∷ reaction 2000 "m1" "bob" "+1"
    ∷ reaction 3000 "m1" "bob" "+1"
    ∷ receipt 4000 "m1" "bob"
    ∷ []

abbrev nothing : List Message
nothing = []

empty-IsOnce : IsOnce []
empty-IsOnce = record {
  one_id = λ i. ground arith;
  one_reaction = λ u e. refl;
  one_receipt = λ u. refl;
}

run-IsOnce_example : IsOnce (run (listed Message) in_memory encrypt requests (nothing, [])).0
unfolding program
run-IsOnce_example =
    run-IsOnce (listed Message) in_memory encrypt requests (nothing, [])
      (refl, (tt, (tt, (tt, tt)))) empty-IsOnce
