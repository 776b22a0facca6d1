-- ===== src/Events/Creator.antt =====
-- The creator of an event is its admin, from the same transaction on.
use krane_event_management_p.Common.{
  ℕ, ◌≡◌, refl, true, some, List, ok, arith, All-of, any-false, eq_self,
}
use krane_event_management_p.Domain.{admin, Event, EventInput}
use krane_event_management_p.Store.{Db, Server, Up, exec}
use krane_event_management_p.Members.LastAdmin.{has_admin}
use krane_event_management_p.Members.Roster.{IsRoster}
use krane_event_management_p.Policy.{Resource, Action, PermKey, permits, can}
use krane_event_management_p.Events.{to_event, create_event, get_event}
use krane_event_management_p.Events.Writes.{create_event-ok, create_event-keeps}

module _ (pg : Server) (actor : ℕ) (input : EventInput) (db : Db) where
  -- After a successful creation, and while the server answers: the creator's requests on the event
  -- are answered by the permissions of admin, the event has an admin, and a read returns the event.
  pub create_event-creator :
      {a : Event} (pg' : Server) (permissions : List PermKey) (action : Action)
      (resource : Resource)
      → Up pg'
      → (create_event pg actor input db).0 ≡ ok a
      → let db' = (create_event pg actor input db).1 in
        (can pg' permissions actor a.id action resource db'
          ≡ ok (permits permissions admin resource action, some admin))
        × (has_admin a.id db'.members ≡ true)
        × (get_event pg' a.id db' ≡ ok a)
  unfolding can get_event to_event
  create_event-creator pg' permissions action resource up h =
      let (_, same, after) = create_event-ok pg actor input db h in
      rw (after, same)
        (
          ground (arith, up exec, eq_self pg.uuid, eq_self actor),
          ground (arith, eq_self pg.uuid),
          ground (arith, up exec, eq_self pg.uuid),
        )

  pub create_event-has_admin :
      (e : ℕ)
      → has_admin e db.members ≡ true
      → has_admin e (create_event pg actor input db).1.members ≡ true
  create_event-has_admin e h =
      create_event-keeps pg actor input db (λ d. has_admin e d.members ≡ true) h (λ c. ground arith)

  pub create_event-IsRoster :
      IsRoster db.members → IsRoster (create_event pg actor input db).1.members
  create_event-IsRoster v =
      create_event-keeps pg actor input db (λ d. IsRoster d.members) v
        (λ c. record {
          distinct = (
            All-of _ db.members
                (λ m i. let f = any-false _ db.members c.fresh_member i in ground arith),
            v.distinct,
          );
          known = (refl, v.known);
        })
