-- ===== src/Calls/Tests.antt =====
-- Stored calls at concrete inputs, and the theorems applied there.
use backend_gateway.Base.{
  ℕ, String, Bool, true, false, none, some, List, [], ◌∷◌, ◌≡◌, refl, String_discrete, string_eq,
  includes, ok, reply,
}
use backend_gateway.Webrtc.State.{video, Client, Services}
use backend_gateway.Webrtc.Calls.{CallRequest, new_session}
use backend_gateway.Calls.Document.{ongoing, missed, Call, CreateCall, Updated}
use backend_gateway.Calls.Service.{
  create, update, join_call, leave_call, invite_to_call, find_all, delete_call_history, users,
  end_content,
}
use backend_gateway.Calls.Participants.{create-new_session}

program : Unit {0}
unfolding String_discrete create update join_call leave_call invite_to_call find_all
    delete_call_history
program = tt

abbrev services : Services
services = record {
  create = λ user conversation call_type participants. ok "id";
  find_by_id = λ user. ok (record { display_name = "Ann"; avatar = none });
  get_users_by_ids = λ ids. ok [];
}

abbrev ann : Client
ann = record { id = "s1"; user_id = "ann" }

abbrev request : CallRequest
request = record { conversation_id = "conv"; participants = "bob" ∷ "ann" ∷ []; call_type = video }

abbrev dto : CreateCall
dto = record {
  conversation_id = some "conv";
  call_type = video;
  participant_ids = some ("bob" ∷ "ann" ∷ []);
  is_group_call = none;
}

abbrev call : Call
call = record {
  conversation_id = some "conv";
  initiator_id = "ann";
  call_type = video;
  status = ongoing;
  participants =
      (record { user_id = "ann"; joined_at = some 1000; left_at = none; is_initiator = true })
      ∷ (record { user_id = "bob"; joined_at = some 1000; left_at = none; is_initiator = false })
      ∷ [];
  started_at = some 1000;
  ended_at = none;
  duration = 0;
  is_group_call = false;
}

created : create 1000 (some 1000) "ann" dto ≡ call
unfolding program
created = refl

abbrev is_object_id : String → Bool
is_object_id id = true

abbrev print : ℕ → String
print n = "0"

create-new_session_example :
    includes {A = String} (users (create 1000 none "ann" dto).participants) "bob"
    ≡ includes {A = String} (new_session services 1000 "k" ann request).participants "bob"
create-new_session_example = create-new_session services 1000 "k" ann request none dto "bob" refl

abbrev with_cid : Call
with_cid = record call {
  participants =
      (record { user_id = "ann"; joined_at = some 1000; left_at = none; is_initiator = true })
      ∷ (record { user_id = "bob"; joined_at = some 1000; left_at = none; is_initiator = false })
      ∷ (record { user_id = "cid"; joined_at = some 7; left_at = none; is_initiator = false })
      ∷ [];
}

abbrev asked : List String
asked = "bob" ∷ "cid" ∷ []

abbrev cid : List String
cid = "cid" ∷ []

abbrev cid_twice : Call
cid_twice = record call {
  participants =
      (record { user_id = "ann"; joined_at = some 1000; left_at = none; is_initiator = true })
      ∷ (record { user_id = "bob"; joined_at = some 1000; left_at = none; is_initiator = false })
      ∷ (record { user_id = "cid"; joined_at = some 7; left_at = none; is_initiator = false })
      ∷ (record { user_id = "cid"; joined_at = some 7; left_at = none; is_initiator = false })
      ∷ [];
}

-- A call that rang for five seconds: the stored duration is 0, the announced one is 5.
abbrev ended : Updated
ended = record {
  call = record call { status = missed; ended_at = some 6000; duration = 0 };
  message = some (record {
    conversation_id = "conv";
    sender_id = "ann";
    content = "Missed video call";
    status = missed;
    duration = 5;
  });
}

ended_test :
    update is_object_id print 6000 "id"
      (some call)
      (record { status = some missed; duration = some 0 })
    ≡ reply (some ended)
unfolding program end_content
ended_test = refl

abbrev renamed : Updated
renamed = record { call = record call { duration = 3 }; message = none }
