-- ===== src/Api/Tests.antt =====
-- Witnesses of the theorems on tokens, requests and the event broker.
use fin_base.Base.{◌+◌, ◌≡◌, refl, ◌≢◌, ◌⊎◌, String, true, not, ltb, List, [], ◌∷◌}
use fin_base.Api.Samples.{
  tokens, header_encodes, claims_encode, secret_encodes, claims_decode, claims_parse,
}
use fin_base.Api.Broker.{Op, new_sse_broker, joins, logs, relays, reads}
use fin_base.Api.Broker.Sublists.{Sublist}
use fin_base.Api.Broker.Order.{seen_by, sent, seen_by-sent}
use fin_base.Api.Auth.{AuthRequest, header_json, generate_jwt, validate_jwt, authorized}
use fin_base.Api.Auth.Laws.{generated_token-valid}
use fin_base.Api.Auth.Middleware.{ShowsToken, Shows, authorized_sound}

abbrev token : String
token = generate_jwt tokens "hunter2" 100 900

generated_token-valid_example :
    validate_jwt tokens token "hunter2" 1001 ≡ not (ltb (100 + 900) 1001)
generated_token-valid_example =
    generated_token-valid tokens "hunter2" 100 900 1001 header_json "exp:1000" "hunter2" 1 0 1
      header_encodes claims_encode secret_encodes claims_decode claims_parse

abbrev key : String
key = "key-1"

abbrev bearing : AuthRequest
bearing = record {
  token_query = "";
  api_key_query = "";
  api_key_header = "";
  authorization = "Bearer key-1";
}

bearing_passes : authorized tokens key "hunter2" 500 bearing ≡ true
unfolding authorized
bearing_passes = refl

authorized_sound_example :
    ShowsToken tokens "hunter2" 500 bearing ⊎ ((key ≢ "") × Shows key bearing)
authorized_sound_example = authorized_sound tokens key "hunter2" 500 bearing bearing_passes

-- One client joins, and reads one of two messages.
abbrev broker_ops : List Op
broker_ops =
    joins 1
    ∷ logs 5 "AAPL" "syncing" "started"
    ∷ relays
    ∷ logs 6 "AAPL" "completed" "done"
    ∷ reads 1
    ∷ relays
    ∷ []

seen_by-sent_example : Sublist (seen_by 1 new_sse_broker broker_ops) (sent broker_ops)
seen_by-sent_example = seen_by-sent 1 broker_ops
