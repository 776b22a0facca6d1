-- ===== src/Agent.antt =====
-- cmd/agent/agent.go and tools.go: the loop that lets a model read the API with tools. The model, the
-- API and encoding/json are parameters, each as the turn finds it.
pub mod Protocol
pub mod Client
pub mod Wire
use package.text.Mathlib.Text.{◌==◌ as str_eq}
use Prim.Native.String.{◌++◌ as ◌<>◌}
use krane_event_management_p.Common.{
  ℕ, zero, suc, String, Bool, true, false, Option, none, some, List, [], ◌∷◌, ◌++◌, if◌then◌else◌,
}

-- ContentBlock, by its Type; `other` is any other type, with its fields unused.
pub data ContentBlock : Type 0 where
  text : String → ContentBlock
  tool_use : (id name input : String) → ContentBlock
  tool_result : (tool_use_id content : String) → (is_error : Bool) → ContentBlock
  other : String → ContentBlock

pub data Speaker : Type 0 where
  user assistant : Speaker

pub record Message : Type 0 where
  pub role : Speaker
  pub content : List ContentBlock

pub record ModelResponse : Type 0 where
  pub stop_reason : String
  pub content : List ContentBlock

-- What a method of the API returns: a value, an APIError or another error.
pub data Fetched : Type 0 where
  value : String → Fetched
  api_error : (code message : String) → Fetched
  other_error : String → Fetched

-- The arguments of a tool, or the text of the decoder's error.
pub record ToolArgs : Type 0 where
  pub event_id : String
  pub cursor : String

pub data Decoded : Type 0 where
  arguments : ToolArgs → Decoded
  invalid : String → Decoded

pub data Tool : Type 0 where
  list_events get_event list_sessions list_rooms : Tool

pub record Api : Type 0 where
  pub decode : Tool → String → Decoded
  pub call_list_events : String → Fetched
  pub call_get_event : String → Fetched
  pub call_list_sessions : String → String → Fetched
  pub call_list_rooms : String → String → Fetched

pub record ToolOutput : Type 0 where
  pub result : String
  pub is_error : Bool

abbrev failed_call : String → ToolOutput
failed_call message = record { result = message; is_error = true }

-- encodeToolResult. A value stands for its JSON.
abbrev pub encode_tool_result : Fetched → ToolOutput
encode_tool_result (value json) = record { result = json; is_error = false }
encode_tool_result (api_error code message) = failed_call (code <> (": " <> message))
encode_tool_result (other_error message) = failed_call message

abbrev pub tool_of : String → Option Tool
tool_of name =
    if str_eq name "list_events"
    then some Tool.list_events
    else if str_eq name "get_event"
    then some Tool.get_event
    else if str_eq name "list_sessions"
    then some Tool.list_sessions
    else if str_eq name "list_rooms"
    then some Tool.list_rooms
    else none

abbrev pub require_event_id : ToolArgs → Fetched → ToolOutput
require_event_id args fetched =
    if str_eq args.event_id ""
    then failed_call "missing required argument: event_id"
    else encode_tool_result fetched

abbrev pub call_tool : Api → Tool → ToolArgs → ToolOutput
call_tool api Tool.list_events args = encode_tool_result (api.call_list_events args.cursor)
call_tool api Tool.get_event args = require_event_id args (api.call_get_event args.event_id)
call_tool api Tool.list_sessions args =
    require_event_id args (api.call_list_sessions args.event_id args.cursor)
call_tool api Tool.list_rooms args =
    require_event_id args (api.call_list_rooms args.event_id args.cursor)

abbrev pub with_arguments : Api → Tool → Decoded → ToolOutput
with_arguments api tool (invalid message) = failed_call ("invalid arguments: " <> message)
with_arguments api tool (arguments args) = call_tool api tool args

-- Dispatch: nothing is the error of an unknown tool.
unfoldable pub dispatch : Api → String → String → Option ToolOutput
dispatch api name input = elim (tool_of name) [
  | none ↦ none
  | some tool ↦ some (with_arguments api tool (api.decode tool input))
]

-- The loop over the blocks of a reply: the results, or the name of an unknown tool.
pub data Dispatched : Type 0 where
  results : List ContentBlock → Dispatched
  unknown_tool : String → Dispatched

abbrev pub prepend : ContentBlock → Dispatched → Dispatched
prepend block (results blocks) = results (block ∷ blocks)
prepend block (unknown_tool name) = unknown_tool name

abbrev pub after_call : String → String → Option ToolOutput → Dispatched → Dispatched
after_call id name none rest = unknown_tool name
after_call id name (some out) rest = prepend (tool_result id out.result out.is_error) rest

unfoldable pub run_tools : Api → List ContentBlock → Dispatched
unfolding dispatch
run_tools api [] = results []
run_tools api (tool_use id name input ∷ blocks) =
    after_call id name (dispatch api name input) (run_tools api blocks)
run_tools api (_ ∷ blocks) = run_tools api blocks

abbrev pub final_text : List ContentBlock → String
final_text [] = ""
final_text (text t ∷ blocks) = t
final_text (_ ∷ blocks) = final_text blocks

pub data Outcome : Type 0 where
  answer : String → Outcome
  model_failed : ℕ → Outcome
  dispatch_failed : String → Outcome
  exceeded : Outcome

abbrev pub max_agent_turns : ℕ
max_agent_turns = 8

abbrev pub says : Speaker → List ContentBlock → Message
says role content = record { role = role; content = content }

abbrev pub is_tool_use : ModelResponse → Bool
is_tool_use r = str_eq r.stop_reason "tool_use"

-- After a reply that ends its turn with tools, with the rest of the loop.
abbrev pub after_tools :
    List Message → Dispatched → (List Message → Outcome × List Message) → Outcome × List Message
after_tools messages (unknown_tool name) rest = (dispatch_failed name, messages)
after_tools messages (results blocks) rest = rest (messages ++ (says user blocks ∷ []))

abbrev pub after_reply :
    Api
    → ℕ
    → List Message
    → Option ModelResponse
    → (List Message → Outcome × List Message)
    → Outcome × List Message
after_reply api turn messages none rest = (model_failed turn, messages)
after_reply api turn messages (some r) rest =
    let heard = messages ++ (says assistant r.content ∷ []) in
    if is_tool_use r
    then after_tools heard (run_tools api r.content) rest
    else (answer (final_text r.content), heard)

module _ (model : ℕ → List Message → Option ModelResponse) (api : ℕ → Api) where
  -- The loop from `turn` on, with `left` turns left, and the messages at its end.
  unfoldable pub turns : ℕ → ℕ → List Message → Outcome × List Message
  unfolding run_tools
  turns turn zero messages = (exceeded, messages)
  turns turn (suc left) messages =
      after_reply (api turn) turn messages (model turn messages) (turns (suc turn) left)

  -- Run, of the user's prompt.
  unfoldable pub run : String → Outcome × List Message
  unfolding turns
  run prompt = turns 0 max_agent_turns (says user (text prompt ∷ []) ∷ [])
