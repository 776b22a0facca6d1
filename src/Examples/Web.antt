-- ===== src/Examples/Web.antt =====
-- A concrete environment for requests: a codec in which a number is written as so many ticks, one zone,
-- bodies, and tokens that name their subject.
use Prim.Native.Char.{code}
use Prim.Native.String.{String, [], ◌∷◌, ◌++◌}
use Prim.Native.String.compare.{cons-nil}
use text.Mathlib.Text.{◌==◌ as str_eq}
use krane_event_management_p.Common.{
  ℕ, zero, suc, ltb, arith, ◌≡◌, refl, ◌==◌, false, Option, none, some, if◌then◌else◌,
}
use krane_event_management_p.Domain.{of_value, weekly}
use krane_event_management_p.Policy.Seed.{seed}
use krane_event_management_p.Utils.Integers.{pos}
use krane_event_management_p.Utils.LocalTime.{Location}
use krane_event_management_p.Requests.Events.{PatchEventRequest}
use krane_event_management_p.Requests.Rooms.{PatchRoomRequest}
use krane_event_management_p.Requests.Sessions.{CreateSessionRequest, SeriesCreateRequest}
use krane_event_management_p.Handlers.Context.{Env, Request}
use krane_event_management_p.Middleware.{TokenClaims, Gate}
use krane_event_management_p.Examples.Data.{server}
use krane_event_management_p.Utils.Cursors.{CursorPayload, Codec, IsCodec, year_10000}

abbrev payload : ℕ → String → CursorPayload
payload n id = record { created_at = n; id = id }

-- `n` ticks, a stop, and the id.
abbrev ticks : ℕ → String → String
ticks zero id = "." ∷ id
ticks (suc n) id = "x" ∷ ticks n id

abbrev later : Option CursorPayload → Option CursorPayload
later none = none
later (some p) = some (payload (suc p.created_at) p.id)

abbrev read_ticks : String → Option CursorPayload
read_ticks [] = none
read_ticks (c ∷ s) = if code c == 120 then later (read_ticks s) else some (payload 0 s)

abbrev number_of : Option CursorPayload → Option ℕ
number_of none = none
number_of (some p) = if str_eq p.id "" then some p.created_at else none

abbrev pub codec : Codec
codec = record {
  marshal = λ p. if ltb p.created_at year_10000 then some (ticks p.created_at p.id) else none;
  unmarshal = read_ticks;
  encode = λ s. s;
  decode = some;
  uuid_in = λ s. number_of (read_ticks s);
  uuid_out = λ n. ticks n "";
}

read_ticks-ticks : (n : ℕ) (id : String) → read_ticks (ticks n id) ≡ some (payload n id)
read_ticks-ticks zero id = refl
read_ticks-ticks (suc n) id = rw (read_ticks-ticks n id)

ticks_not_empty : (n : ℕ) → str_eq (ticks n "") "" ≡ false
ticks_not_empty zero = refl
ticks_not_empty (suc n) = rw (cons-nil "x" (ticks n ""))

pub codec-IsCodec : IsCodec codec
codec-IsCodec = record {
  unmarshal-marshal = λ p s e. ground (arith, e, read_ticks-ticks p.created_at p.id);
  marshal-is_some = λ p h. ground arith;
  decode-encode = λ s. refl;
  uuid_in-out = λ n. rw (read_ticks-ticks n "");
  uuid_not_empty = ticks_not_empty;
}

-- Two times of a morning.
abbrev pub zone : Location
zone = record {
  parse_in = λ s. if str_eq s "9am" then some 1300 else if str_eq s "10am" then some 1360 else none;
  format_in = λ t. if t == 1300 then "9am" else if t == 1360 then "10am" else "";
}

abbrev pub panel : CreateSessionRequest
panel = record {
  room_id = ticks 30 "";
  speaker_id = ticks 2 "";
  title = "Panel";
  description = none;
  starts_at = "9am";
  ends_at = "10am";
}

abbrev pub course : SeriesCreateRequest
course = record {
  room_id = ticks 30 "";
  speaker_id = ticks 2 "";
  title = "Course";
  description = none;
  first_starts_at = "9am";
  first_ends_at = "10am";
  freq = weekly;
  interval_count = pos 1;
  occurrences = pos 2;
}

-- A new name for a room, from version 7.
abbrev pub room_patch : PatchRoomRequest
room_patch = record {
  version = pos 7;
  name = of_value "Aula";
  capacity = record { value = none; set = false };
}

abbrev pub event_patch : PatchEventRequest
event_patch = record {
  version = pos 1;
  name = of_value "Fair";
  description = record { value = none; set = false };
  timezone = record { value = ""; set = false };
  starts_at = record { value = 0; set = false };
  ends_at = record { value = 0; set = false };
}

abbrev pub env : Env
env = record {
  codec = codec;
  json = record {
    create_event_body = λ s. none;
    patch_event_body = λ s. some event_patch;
    grant_body = λ s. none;
    assign_role_body = λ s. none;
    bulk_invite_body = λ s. none;
    create_room_body = λ s. none;
    patch_room_body = λ s. some room_patch;
    create_session_body = λ s. some panel;
    create_series_body = λ s. some course;
    patch_session_body = λ s. none;
  };
  load_location = λ s. some zone;
  sha256_hex = λ s. s;
  zone_pg = server 0;
  pg = server 1;
  later_pg = server;
  last_pg = server 2;
  meanwhile = λ db. db;
  current_pg = server 3;
}

-- A request about the event 10 and its room 30, with the token of a user by that name.
abbrev pub request_of : String → Request
request_of name = record {
  user = none;
  caller_role = none;
  authorization = "Bearer " ++ name;
  event_id = ticks 10 "";
  item_id = ticks 30 "";
  limit = "";
  cursor = "";
  version = "";
  idempotency_key = "";
  body = some "{}";
}

abbrev pub claims : String → TokenClaims
claims name = record { subject = name; email = name; name = name }

abbrev pub gate : Gate
gate = record {
  id_token = λ s. if str_eq s "forged" then none else some (claims s);
  permissions = seed;
  uuid_in = codec.uuid_in;
  user_pg = server 4;
  policy_pg = server 5;
}
