-- ===== src/Middleware/Refusals.antt =====
-- Who gets through the middleware, and as whom.
use krane_event_management_p.Common.{
  ℕ, ◌≡◌, refl, ◌≢◌, ◌⊎◌, inl, inr, Option-cases, String, false, Option, none, some, find_row, ok,
  if◌then◌else◌, arith,
}
use krane_event_management_p.Domain.{User}
use krane_event_management_p.Store.{Db, MemberRow, Up, exec}
use krane_event_management_p.Members.{is_member_of}
use krane_event_management_p.Policy.{Resource, Action, permits, can}
use krane_event_management_p.Handlers.Context.{Request, is_empty}
use krane_event_management_p.Middleware.{
  TokenClaims, Gate, Verified, token_invalid, missing_claims, claims_of, verify, bearer_token,
  write_unauthorized, write_forbidden, Handler, resolve_user, auth, authz,
}

-- The token of the request is valid, and its sign-in gives the user `u` and the tables `db'`.
pub record SignedIn (gate : Gate) (r : Request) (db : Db) (u : User) (db' : Db) : Type 0 where
  pub token : String
  pub claims : TokenClaims
  pub has_token : bearer_token r.authorization ≡ some token
  pub verified : verify gate.id_token token ≡ claims_of claims
  pub known : resolve_user gate claims db ≡ (ok u, db')

-- The path value `text` is the event `event`, and the policy's lookup of the user's membership in it
-- gives `row`.
pub record LooksUp (gate : Gate) (text : String) (u : User) (db : Db) (row : Option MemberRow)
    : Type 0 where
  pub event : ℕ
  pub named : is_empty text ≡ false
  pub read : gate.uuid_in text ≡ some event
  pub up : Up gate.policy_pg
  pub found : find_row (is_member_of event u.id) db.members ≡ row

Verified-cases :
    (v : Verified)
    → ((v ≡ token_invalid) ⊎ (v ≡ missing_claims)) ⊎ ((c : TokenClaims) × (v ≡ claims_of c))
Verified-cases token_invalid = inl (inl refl)
Verified-cases missing_claims = inl (inr refl)
Verified-cases (claims_of c) = inr (c, refl)

module _ (gate : Gate) (h : Handler) (r : Request) (db : Db) where
  pub auth-SignedIn :
      {u : User} {db' : Db}
      → SignedIn gate r db u db'
      → auth gate h r db ≡ h (record r { user = some u }) db'
  unfolding auth
  auth-SignedIn s = rw (auth, s.has_token, s.verified, s.known)

  pub auth-refused :
      ((token : String) (c : TokenClaims)
        → bearer_token r.authorization ≡ some token
        → verify gate.id_token token ≢ claims_of c)
      → auth gate h r db ≡ (write_unauthorized, db)
  unfolding auth
  auth-refused refused = elim (Option-cases (bearer_token r.authorization)) [
    | inl none_there ↦ rw (auth, none_there)
    | inr (token, there) ↦
        rw (auth, there)
          (elim (Verified-cases (verify gate.id_token token)) [
            | inl (inl e) ↦ rw e
            | inl (inr e) ↦ rw e
            | inr (c, e) ↦ absurd (refused token c there e)
          ])
  ]

  module _ (resource : Resource) (action : Action) {u : User} (signed : r.user ≡ some u) where
    pub authz-outsider :
        LooksUp gate r.event_id u db none
        → authz gate resource action h r db ≡ (write_forbidden, db)
    unfolding authz can
    authz-outsider l = rw (authz, signed, l.named, l.read, can, l.up exec, l.found)

    pub authz-member :
        {m : MemberRow}
        → LooksUp gate r.event_id u db (some m)
        → authz gate resource action h r db ≡ (
            if permits gate.permissions m.role resource action
            then h (record r { caller_role = some m.role }) db
            else (write_forbidden, db))
    unfolding authz can
    authz-member {m} l = rw (authz, signed, l.named, l.read, can, l.up exec, l.found) (ground arith)
