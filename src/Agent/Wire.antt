-- ===== src/Agent/Wire.antt =====
-- cmd/agent/anthropic.go: the messages of the loop on the wire of the Messages API. net/http and
-- encoding/json are parameters.
pub mod Blocks
use package.text.Mathlib.Text.{◌==◌ as str_eq}
use krane_event_management_p.Common.{
  ℕ, String, Bool, true, false, ◌&&◌, ltb, leb, Option, none, some, List, [], ◌∷◌, if◌then◌else◌,
  map,
}
use krane_event_management_p.Agent.{
  ContentBlock, text, tool_use, tool_result, other, Speaker, user, assistant, Message,
  ModelResponse,
}

-- wireContentBlock
pub record WireContentBlock : Type 0 where
  pub type_name : String
  pub text : String
  pub id : String
  pub name : String
  pub input : String
  pub tool_use_id : String
  pub content : String
  pub is_error : Bool

abbrev pub empty_block : String → WireContentBlock
empty_block type_name = record {
  type_name = type_name;
  text = "";
  id = "";
  name = "";
  input = "";
  tool_use_id = "";
  content = "";
  is_error = false;
}

-- One step of toWireBlocks: the fields that a block's type leaves unused are zero.
abbrev pub to_wire_block : ContentBlock → WireContentBlock
to_wire_block (text t) = record (empty_block "text") { text = t }
to_wire_block (tool_use id name input) = record (empty_block "tool_use") {
  id = id;
  name = name;
  input = input;
}
to_wire_block (tool_result id content is_error) = record (empty_block "tool_result") {
  tool_use_id = id;
  content = content;
  is_error = is_error;
}
to_wire_block (other type_name) = empty_block type_name

-- One step of fromWireBlocks, read by the type of the block.
abbrev pub from_wire_block : WireContentBlock → ContentBlock
from_wire_block b =
    if str_eq b.type_name "text"
    then text b.text
    else if str_eq b.type_name "tool_use"
    then tool_use b.id b.name b.input
    else if str_eq b.type_name "tool_result"
    then tool_result b.tool_use_id b.content b.is_error
    else other b.type_name

unfoldable pub to_wire_blocks : List ContentBlock → List WireContentBlock
to_wire_blocks blocks = map to_wire_block blocks

unfoldable pub from_wire_blocks : List WireContentBlock → List ContentBlock
from_wire_blocks blocks = map from_wire_block blocks

pub record WireMessage : Type 0 where
  pub role : String
  pub content : List WireContentBlock

abbrev pub role_name : Speaker → String
role_name user = "user"
role_name assistant = "assistant"

unfoldable pub to_wire_messages : List Message → List WireMessage
unfolding to_wire_blocks
to_wire_messages messages =
    map (λ (m : Message). record { role = role_name m.role; content = to_wire_blocks m.content })
      messages

-- wireRequest; the tools are the same in every request, and are left out.
pub record WireRequest : Type 0 where
  pub model : String
  pub max_tokens : ℕ
  pub system : String
  pub messages : List WireMessage

pub record WireResponse : Type 0 where
  pub stop_reason : String
  pub content : List WireContentBlock

-- What Do and ReadAll make of the encoded request.
pub data Called : Type 0 where
  failed : Called
  answered : (status : ℕ) → (body : String) → Called

abbrev pub default_max_tokens : ℕ
default_max_tokens = 1024

module _ (api_model : String) (system : String) (call : WireRequest → Called)
    (unmarshal : String → Option WireResponse) where
  abbrev pub to_model_response : Option WireResponse → Option ModelResponse
  to_model_response none = none
  to_model_response (some r) =
      some (record { stop_reason = r.stop_reason; content = from_wire_blocks r.content })

  abbrev pub read_answer : Called → Option ModelResponse
  read_answer failed = none
  read_answer (answered status body) =
      if leb 200 status && ltb status 300 then to_model_response (unmarshal body) else none

  -- CreateMessage; nothing is any of its errors.
  unfoldable pub create_message : List Message → Option ModelResponse
  unfolding to_wire_messages from_wire_blocks
  create_message messages = read_answer (
      call (record {
        model = api_model;
        max_tokens = default_max_tokens;
        system = system;
        messages = to_wire_messages messages;
      }))
