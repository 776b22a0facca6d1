-- ===== src/Sessions/Schedule.antt =====
-- No double-booking: of the live sessions, two that share a room or a speaker do not overlap in time.
use mathlib.Core.List.{Memᴰ}
use krane_event_management_p.Common.{
  ℕ, ◌≡◌, ◌≢◌, ◌≤◌, ◌<◌, ◌⊎◌, sym, false, not, ◌==◌, ◌&&◌, none, some, List, any, Result, ok, arith,
  All, Pairwise, All-of, All-get, find_row-mem, any-false, All-update_row, Pairwise-update_row,
  find_row,
}
use krane_event_management_p.Domain.{SessionInput, SessionPatch}
use krane_event_management_p.Store.{SessionRow, Db, Server, update, delete, AuditAction}
use krane_event_management_p.Sessions.{
  excludes, new_row, create_session, gated, update_change, update_session, delete_session,
  cancelled_row, versioned_write,
}
use krane_event_management_p.Sessions.Writes.{create_session-keeps, versioned_write-keeps}

abbrev pub Separate : SessionRow → SessionRow → Type 0
Separate a b =
    (a.id ≢ b.id)
    × (a.deleted_at ≡ none
        → b.deleted_at ≡ none
        → (a.room_id ≡ b.room_id) ⊎ (a.speaker_id ≡ b.speaker_id)
        → (a.ends_at ≤ b.starts_at) ⊎ (b.ends_at ≤ a.starts_at))

pub record IsSchedule (sessions : List SessionRow) : Type 0 where
  pub separate : Pairwise Separate sessions
  pub bounded : All (λ s. s.starts_at < s.ends_at) sessions

pub Separate-sym : (a b : SessionRow) → Separate a b → Separate b a
Separate-sym a b h = (λ e. h.0 (sym e), λ p q r. grind (arith, h.1 q p))

-- What an EXCLUDE constraint lets pass is separate.
excludes-Separate : (a b : SessionRow) → a.id ≢ b.id → excludes a b ≡ false → Separate a b
excludes-Separate a b d h = (d, λ p q r. ground arith)

pub create_session-IsSchedule :
    (pg : Server) (actor event : ℕ) (input : SessionInput) (db : Db)
    → IsSchedule db.sessions
    → IsSchedule (create_session pg actor event input db).1.sessions
create_session-IsSchedule pg actor event input db v =
    create_session-keeps pg actor event input db (λ d. IsSchedule d.sessions) v
      (λ c. record {
        separate = (
          All-of _ db.sessions (λ s m.
              let fresh = any-false _ db.sessions c.fresh m in
              excludes-Separate (new_row pg event input) s (ground arith)
                (any-false _ db.sessions c.free m)),
          v.separate,
        );
        bounded = (ground (arith, c.bounded), v.bounded);
      })

module _ (pg : Server) (actor event id version : ℕ) (db : Db) (v : IsSchedule db.sessions) where
  -- The new version of a row keeps the id, is bounded and is separate from all other rows.
  Fits : SessionRow → SessionRow → Type 0
  Fits old new =
      (new.id ≡ old.id)
      × (new.starts_at < new.ends_at)
      × ((s : SessionRow) → Memᴰ s db.sessions → Separate old s → Separate new s)

  update_change-Fits :
      (patch : SessionPatch) (old new : SessionRow)
      → find_row (gated event id version) db.sessions ≡ some old
      → update_change pg patch db old ≡ ok new
      → Fits old new
  unfolding Fits update_change
  update_change-Fits patch old new f c =
      let taken = λ (r : SessionRow). not (r.id == new.id) && excludes new r in
      let free : any taken db.sessions ≡ false = ground arith in
      (
        ground arith,
        ground arith,
        λ s m h.
            let k = any-false taken db.sessions free m in
            excludes-Separate new s (ground (arith, h.0)) (ground (arith, h.0)),
      )

  cancelled_row-Fits :
      (old new : SessionRow)
      → find_row (gated event id version) db.sessions ≡ some old
      → ok (cancelled_row pg old) ≡ ok new
      → Fits old new
  unfolding Fits
  cancelled_row-Fits old new f c =
      let b =
        All-get _ db.sessions v.bounded (find_row-mem (gated event id version) db.sessions f) in
      (ground arith, ground (arith, b), λ s m h. (ground (arith, h.0), λ p q r. ground arith))

  versioned_write-IsSchedule :
      (action : AuditAction) (change : SessionRow → Result SessionRow)
      → ((old new : SessionRow)
          → find_row (gated event id version) db.sessions ≡ some old
          → change old ≡ ok new
          → Fits old new)
      → IsSchedule (versioned_write pg actor event id version action change db).1.sessions
  unfolding Fits
  versioned_write-IsSchedule action change fits =
      versioned_write-keeps pg actor event id version action change db (λ d. IsSchedule d.sessions)
        v
        (λ new c.
          let (_, bounded, apart) = fits c.old new c.found c.changed in
          record {
            separate =
                Pairwise-update_row Separate (gated event id version) (λ _. new) db.sessions
                  Separate-sym v.separate
                  (λ x y q m h.
                    apart y m (let e : x ≡ c.old = ground (arith, c.found) in ground (arith, e)));
            bounded =
                All-update_row _ (gated event id version) (λ _. new) db.sessions v.bounded
                  (λ x q. bounded);
          })

  pub update_session-IsSchedule :
      (patch : SessionPatch)
      → IsSchedule (update_session pg actor event id version patch db).1.sessions
  unfolding update_session
  update_session-IsSchedule patch =
      versioned_write-IsSchedule update (update_change pg patch db) (update_change-Fits patch)

  pub delete_session-IsSchedule :
      IsSchedule (delete_session pg actor event id version db).1.sessions
  unfolding delete_session
  delete_session-IsSchedule =
      versioned_write-IsSchedule delete (λ s. ok (cancelled_row pg s)) cancelled_row-Fits
