-- ===== src/Examples/Assistant.antt =====
-- A model that asks for the events once, and then answers.
use krane_event_management_p.Common.{
  ℕ, String, ◌≡◌, refl, none, zero, suc, true, false, Option, some, List, [], ◌∷◌,
}
use krane_event_management_p.Agent.{
  Tool, Decoded, ContentBlock, text, tool_use, tool_result, Message, user, assistant, says,
  ModelResponse, value, api_error, arguments, Api, answer, run, dispatch, run_tools, turns,
}
use krane_event_management_p.Agent.Client.{
  HttpMethod, HttpRequest, Sent, response, Codecs, Client, client_api,
}
use krane_event_management_p.Agent.Client.Requests.{run-same}
use krane_event_management_p.Agent.Protocol.{Ends, run-Ends}

abbrev api : Api
api = record {
  decode = λ tool input. arguments (record { event_id = input; cursor = "" });
  call_list_events = λ cursor. value "[10]";
  call_get_event = λ event. api_error "forbidden" "no";
  call_list_sessions = λ event cursor. api_error "forbidden" "no";
  call_list_rooms = λ event cursor. api_error "forbidden" "no";
}

abbrev asks : List ContentBlock
asks = text "Let me see." ∷ tool_use "t1" "list_events" "" ∷ tool_use "t2" "get_event" "11" ∷ []

abbrev model : ℕ → List Message → Option ModelResponse
model zero messages = some (record { stop_reason = "tool_use"; content = asks })
model (suc n) messages = some (record { stop_reason = "end_turn"; content = text "One." ∷ [] })

run-Ends_example : Ends "Which?" (answer "One.") (
    says user (text "Which?" ∷ [])
    ∷ says assistant asks
    ∷ says user (tool_result "t1" "[10]" false ∷ tool_result "t2" "forbidden: no" true ∷ [])
    ∷ says assistant (text "One." ∷ [])
    ∷ [])
unfolding run turns run_tools dispatch
run-Ends_example = run-Ends model (λ n. api) "Which?"

abbrev codecs : Codecs
codecs = record {
  bad_url = λ url. none;
  encode_query = λ cursor. cursor;
  path_escape = λ event. event;
  decode_as = λ tool body. some body;
  decode_envelope = λ body. some ("forbidden", body);
}

abbrev caller : Client
caller = record { base_url = "http://api"; token = "t" }

-- A server that would answer anything but a GET otherwise.
abbrev reply_by : HttpMethod → Sent
reply_by HttpMethod.get = response 200 "[10]"
reply_by HttpMethod.post = response 500 ""

abbrev strict : ℕ → HttpRequest → Sent
strict turn r = reply_by r.method

abbrev lax : ℕ → HttpRequest → Sent
lax turn r = response 200 "[10]"

abbrev first_args : Tool → String → Decoded
first_args tool input = arguments (record { event_id = input; cursor = "" })

run-same_example :
    run model (λ turn. client_api codecs caller (strict turn) first_args) "Which?"
    ≡ run model (λ turn. client_api codecs caller (lax turn) first_args) "Which?"
run-same_example = run-same codecs caller strict lax (λ turn url. refl) model first_args "Which?"
