-- ===== src/Agent/Client/Requests.antt =====
-- The agent's tools reach the API only by GET requests that carry the caller's token.
use Prim.Native.String.{◌++◌ as ◌<>◌}
use krane_event_management_p.Common.{ℕ, String, ◌≡◌, ap, Option, List, Option-cases, inl, inr}
use krane_event_management_p.Agent.{Decoded, Tool, Message, ModelResponse, run}
use krane_event_management_p.Agent.Client.{
  HttpMethod, HttpRequest, Sent, Codecs, Client, fetch, received, list_events, get_event,
  list_sessions, list_rooms, client_api, events_path, event_path, sessions_path, rooms_path,
}

module _ (codecs : Codecs) (c : Client) (http http' : HttpRequest → Sent)
    (same : (url : String)
      → http (record { method = HttpMethod.get; url = url; authorization = "Bearer " <> c.token })
        ≡ http' (record {
          method = HttpMethod.get;
          url = url;
          authorization = "Bearer " <> c.token;
        })) where
  fetch-same :
      (tool : Tool) (path : String) → fetch codecs c http tool path ≡ fetch codecs c http' tool path
  unfolding fetch
  fetch-same tool path = elim (Option-cases (codecs.bad_url (c.base_url <> path))) [
    | inl e ↦ rw e (ap (received codecs c http tool) (same (c.base_url <> path)))
    | inr (m, e) ↦ rw e
  ]

  client_api-same :
      (decode : Tool → String → Decoded)
      → client_api codecs c http decode ≡ client_api codecs c http' decode
  unfolding client_api list_events get_event list_sessions list_rooms
  client_api-same decode = λ i. record {
    decode = decode;
    call_list_events = λ cursor. fetch-same Tool.list_events (events_path codecs cursor) i;
    call_get_event = λ event. fetch-same Tool.get_event (event_path codecs event) i;
    call_list_sessions =
        λ event cursor. fetch-same Tool.list_sessions (sessions_path codecs event cursor) i;
    call_list_rooms = λ event cursor. fetch-same Tool.list_rooms (rooms_path codecs event cursor) i;
  }

module _ (codecs : Codecs) (c : Client) (http http' : ℕ → HttpRequest → Sent)
    (same : (turn : ℕ) (url : String)
      → http turn
          (record { method = HttpMethod.get; url = url; authorization = "Bearer " <> c.token })
        ≡ http' turn (record {
          method = HttpMethod.get;
          url = url;
          authorization = "Bearer " <> c.token;
        })) where
  -- Two servers that answer alike every GET request with the token of the caller give the same
  -- outcome and the same conversation, whatever they do with other requests: the agent reaches the
  -- API by such requests only, whatever the model asks for.
  pub run-same :
      (model : ℕ → List Message → Option ModelResponse) (decode : Tool → String → Decoded)
      (prompt : String)
      → run model (λ turn. client_api codecs c (http turn) decode) prompt
        ≡ run model (λ turn. client_api codecs c (http' turn) decode) prompt
  run-same model decode prompt = λ i.
      run model (λ turn. client_api-same codecs c (http turn) (http' turn) (same turn) decode i)
        prompt
