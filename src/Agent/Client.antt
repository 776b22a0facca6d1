-- ===== src/Agent/Client.antt =====
-- cmd/agent/client.go: the API's client as the tools see it. net/http, net/url and encoding/json are
-- parameters; the texts of wrapped errors leave the path out.
pub mod Requests
use package.text.Mathlib.Text.{◌==◌ as str_eq}
use Prim.Native.String.{◌++◌ as ◌<>◌}
use krane_event_management_p.Common.{
  ℕ, String, Bool, true, false, ◌&&◌, ltb, leb, Option, none, some, if◌then◌else◌,
}
use krane_event_management_p.Agent.{Fetched, value, api_error, other_error, Decoded, Tool, Api}

pub data HttpMethod : Type 0 where
  get post : HttpMethod

-- http.Request, with the one header that the client sets.
pub record HttpRequest : Type 0 where
  pub method : HttpMethod
  pub url : String
  pub authorization : String

-- What http.Client.Do and io.ReadAll make of a request.
pub data Sent : Type 0 where
  not_sent : String → Sent
  unreadable : String → Sent
  response : (status : ℕ) → (body : String) → Sent

-- NewRequestWithContext (with its error), Values.Encode of a cursor, PathEscape, and json.Unmarshal
-- into the type that the caller wants and into the error envelope.
pub record Codecs : Type 0 where
  pub bad_url : String → Option String
  pub encode_query : String → String
  pub path_escape : String → String
  pub decode_as : Tool → String → Option String
  pub decode_envelope : String → Option (String × String)

pub record Client : Type 0 where
  pub base_url : String
  pub token : String

abbrev pub is_success : ℕ → Bool
is_success status = leb 200 status && ltb status 300

-- The APIError of a response: what the envelope says, or the body itself.
abbrev pub error_of : Option (String × String) → String → Fetched
error_of none body = api_error "unknown" body
error_of (some (code, message)) body = api_error code message

abbrev pub as_value : Option String → Fetched
as_value none = other_error "decoding response"
as_value (some json) = value json

abbrev pub q_of : Codecs → String → String
q_of codecs cursor = if str_eq cursor "" then "" else codecs.encode_query cursor

abbrev pub event_path : Codecs → String → String
event_path codecs event = "/v1/events/" <> codecs.path_escape event

abbrev pub events_path : Codecs → String → String
events_path codecs cursor = "/v1/events?" <> q_of codecs cursor

abbrev pub sessions_path : Codecs → String → String → String
sessions_path codecs event cursor = event_path codecs event <> ("/sessions?" <> q_of codecs cursor)

abbrev pub rooms_path : Codecs → String → String → String
rooms_path codecs event cursor = event_path codecs event <> ("/rooms?" <> q_of codecs cursor)

module _ (codecs : Codecs) (c : Client) (http : HttpRequest → Sent) where
  abbrev pub request_to : String → HttpRequest
  request_to path = record {
    method = HttpMethod.get;
    url = c.base_url <> path;
    authorization = "Bearer " <> c.token;
  }

  abbrev pub received : Tool → Sent → Fetched
  received tool (not_sent e) = other_error ("requesting: " <> e)
  received tool (unreadable e) = other_error ("reading response: " <> e)
  received tool (response status body) =
      if is_success status
      then as_value (codecs.decode_as tool body)
      else error_of (codecs.decode_envelope body) body

  abbrev pub send : Tool → String → Option String → Fetched
  send tool path (some e) = other_error ("building request: " <> e)
  send tool path none = received tool (http (request_to path))

  -- Client.get
  unfoldable pub fetch : Tool → String → Fetched
  fetch tool path = send tool path (codecs.bad_url (c.base_url <> path))

  unfoldable pub list_events : String → Fetched
  unfolding fetch
  list_events cursor = fetch Tool.list_events (events_path codecs cursor)

  unfoldable pub get_event : String → Fetched
  unfolding fetch
  get_event event = fetch Tool.get_event (event_path codecs event)

  unfoldable pub list_sessions : String → String → Fetched
  unfolding fetch
  list_sessions event cursor = fetch Tool.list_sessions (sessions_path codecs event cursor)

  unfoldable pub list_rooms : String → String → Fetched
  unfolding fetch
  list_rooms event cursor = fetch Tool.list_rooms (rooms_path codecs event cursor)

  -- The interface `api` of tools.go, as the client implements it.
  unfoldable pub client_api : (Tool → String → Decoded) → Api
  unfolding list_events get_event list_sessions list_rooms
  client_api decode = record {
    decode = decode;
    call_list_events = list_events;
    call_get_event = get_event;
    call_list_sessions = list_sessions;
    call_list_rooms = list_rooms;
  }
