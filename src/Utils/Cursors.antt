-- ===== src/Utils/Cursors.antt =====
-- internal/utils/cursor.go: the opaque token of a page's end. Go's encoding/json and encoding/base64,
-- and the text of a uuid, are parameters.
use text.Mathlib.Text.{◌==◌ as str_eq}
use krane_event_management_p.Common.{
  ℕ, String, ◌≡◌, ◌<◌, true, false, ◌==◌, ◌||◌, Option, none, some, is_some, if◌then◌else◌, arith,
  Option-cases, inl, inr,
}
use krane_event_management_p.Domain.{Cursor}

pub record CursorPayload : Type 0 where
  pub created_at : ℕ
  pub id : String

-- `marshal` is json.Marshal, `unmarshal` json.Unmarshal and `decode` base64's DecodeString: none is an error.
-- `uuid_in` is how PostgreSQL reads a text as a uuid, `uuid_out` how it writes one.
pub record Codec : Type 0 where
  pub marshal : CursorPayload → Option String
  pub unmarshal : String → Option CursorPayload
  pub encode : String → String
  pub decode : String → Option String
  pub uuid_in : String → Option ℕ
  pub uuid_out : ℕ → String

-- The first instant of the year 10000, which time.Time's MarshalJSON refuses, as all after it.
unfoldable pub year_10000 : ℕ
year_10000 = 315537897600000000000

-- What the packages and PostgreSQL document: each reads back what it wrote, a time before the year
-- 10000 is written, and no uuid is blank.
pub record IsCodec (c : Codec) : Type 0 where
  pub unmarshal-marshal :
      (p : CursorPayload) (s : String) → c.marshal p ≡ some s → c.unmarshal s ≡ some p
  pub marshal-is_some :
      (p : CursorPayload) → p.created_at < year_10000 → is_some (c.marshal p) ≡ true
  pub decode-encode : (s : String) → c.decode (c.encode s) ≡ some s
  pub uuid_in-out : (n : ℕ) → c.uuid_in (c.uuid_out n) ≡ some n
  pub uuid_not_empty : (n : ℕ) → str_eq (c.uuid_out n) "" ≡ false

abbrev pub payload_of : Codec → Cursor → CursorPayload
payload_of c cursor = record { created_at = cursor.created_at; id = c.uuid_out cursor.id }

-- EncodeCursor, of a row's uuid: none is its panic, on an error of Marshal.
unfoldable pub encode_cursor : Codec → Cursor → Option String
encode_cursor c cursor = elim (c.marshal (payload_of c cursor)) [
  | none ↦ none
  | some data_ ↦ some (c.encode data_)
]

-- The zero time.Time is instant 0.
unfoldable pub checked_payload : CursorPayload → Option CursorPayload
checked_payload p = if str_eq p.id "" || p.created_at == 0 then none else some p

-- DecodeCursor
unfoldable pub decode_cursor : Codec → String → Option CursorPayload
unfolding checked_payload
decode_cursor c token = elim (c.decode token) [
  | none ↦ none
  | some data_ ↦ elim (c.unmarshal data_) [ none ↦ none | some p ↦ checked_payload p ]
]

-- The token of a page's end is decoded to the position that it was made from, where that is later
-- than the zero time.
pub decode_cursor-encode_cursor :
    (c : Codec) (cursor : Cursor) {token : String}
    → IsCodec c
    → (cursor.created_at == 0) ≡ false
    → encode_cursor c cursor ≡ some token
    → decode_cursor c token ≡ some (payload_of c cursor)
unfolding decode_cursor encode_cursor
decode_cursor-encode_cursor c cursor {token} lawful later written =
    elim (Option-cases (c.marshal (payload_of c cursor))) [
      | inl e ↦ ground (arith, e, written)
      | inr (data_, e) ↦
          let same : c.encode data_ ≡ token = ground (arith, e, written) in
          rw (← same) (
            rw (
              decode_cursor,
              lawful.decode-encode,
              lawful.unmarshal-marshal (payload_of c cursor) data_ e,
              checked_payload,
              lawful.uuid_not_empty,
              later,
            ))
    ]

-- A position before the year 10000 has a token.
pub encode_cursor-is_some :
    (c : Codec) (cursor : Cursor)
    → IsCodec c
    → cursor.created_at < year_10000
    → is_some (encode_cursor c cursor) ≡ true
unfolding encode_cursor
encode_cursor-is_some c cursor lawful early =
    ground (arith, lawful.marshal-is_some (payload_of c cursor) early)
