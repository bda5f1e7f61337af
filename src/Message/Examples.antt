-- ===== src/Message/Examples.antt =====
-- The interceptor at work: tests, and the theorem at a concrete input.
use msa_tuto_server.Base.{String, ◌≡◌, refl, true, false, none, [], ◌∷◌, ltb, length}
use msa_tuto_server.Http.{Result, ok}
use msa_tuto_server.Message.{
  default_config, Channel, Message, ack, registered, intercept_all, intercept, settle,
  acknowledge_message,
}
use msa_tuto_server.Message.Settlement.{settlements, IsWorking, intercept_all-settlements}

abbrev open_channel : Channel
open_channel = record { ack_works = λ n. true; reject_works = true; publish_works = true }

open_channel-IsWorking : IsWorking open_channel
open_channel-IsWorking = record { acks = refl; rejects = refl }

abbrev delivery : Message
delivery = record {
  message_id = none;
  headers = none;
  exchange = "game";
  routing_key = "rewards";
  content = "{}";
}

-- As many interceptors as are registered.
two_registered : length (open_channel ∷ open_channel ∷ []) ≡ registered
two_registered = refl

abbrev done : Result String
done = ok "done"

acknowledged_twice :
    intercept_all default_config (open_channel ∷ open_channel ∷ []) delivery done
    ≡ ack delivery ∷ ack delivery ∷ []
unfolding intercept_all intercept settle acknowledge_message
acknowledged_twice = refl

settled_twice :
    settlements (intercept_all default_config (open_channel ∷ open_channel ∷ []) delivery done) ≡ 2
settled_twice =
    intercept_all-settlements default_config delivery done (open_channel ∷ open_channel ∷ []) refl
      (open_channel-IsWorking, (open_channel-IsWorking, tt))

-- A channel whose first attempt to acknowledge fails, and one whose attempts all fail.
abbrev flaky : Channel
flaky = record { ack_works = λ n. ltb 0 n; reject_works = true; publish_works = true }

abbrev closed : Channel
closed = record { ack_works = λ n. false; reject_works = false; publish_works = false }
