-- ===== src/Lib.antt =====
-- The event management platform from the request to the tables: the router, middleware, handlers,
-- requests and responses of internal/http, the services of internal/domain, the repositories of
-- internal/adapter/postgres, which decide every write of the API in SQL, and the authorisation policy
-- of internal/adapter/authz.
--
-- Parts, and the files that model them:
--   Common        names of the libraries, Boolean tests, tables as lists of rows (find, update and
--                 remove the row that a WHERE clause selects), errors and results
--   Domain        internal/domain: entities, inputs, patches, roles, pages' cursors
--   Store         migrations/*.up.sql: the database as a record of tables; what the server contributes
--                 to a call; the transaction that every write runs in (Begin, statements, audit row,
--                 Commit, Rollback deferred)
--   Members       member_repo.go and roles.go: Create, Get, AssignRole, Delete and the diagnosis of a
--                 refused write; Grants is about who may grant what, LastAdmin about the last admin,
--                 Roster about keys and about the meaning of the errors; Races has AssignRole and
--                 Delete as the steps of concurrent transactions, with SELECT ... FOR UPDATE, and
--                 Order what such a run commits
--   Policy        policy.go: New, validateRoleCoverage, Can, and the seeded rows (Seed)
--   Sessions      session_repo.go without List and CreateSeries: Create, Get, Update, Delete,
--                 versionedWrite; Schedule is about double-booking, Versions about the optimistic lock,
--                 Slots about booked and freed slots, Housed about rooms,
--                 Exceptions about the history of a series
--   Series        session_repo.go, CreateSeries: the loop over occurrences and its 64-bit durations
--   Rooms         room_repo.go: Create, Get, Update, Delete; Names is about the unique name, References
--                 about the sessions in a room
--   Invitations   invitation_repo.go: Create, BulkCreate, loadIdempotencyResult; Addresses, Bulk and
--                 Items are about single invitations, replays and reports
--   Events        event_repo.go: Create with the creator's membership, Get, Update, Delete
--   Pages         the five List methods and their keyset pages; Walk is about a client that follows
--                 them, Ends about the rows that they end at
--   Users         user_repo.go: GetOrCreateBySubject
--   System        all writes as calls, run one after the other
--   Utils         internal/utils, localtime.go and cursor.go, with what the HTTP layer uses of strings
--                 (TrimSpace) and strconv (Atoi)
--   Requests      internal/http/request: bodies, Validate, and the conversions to inputs and patches;
--                 Bounds is about the CHECK constraints that a validated body meets
--   Responses     internal/http/response: presenters, and the error envelope (Envelope), which also has
--                 the early returns of a handler's prologue; Emails is about who sees addresses,
--                 Tokens about lists that can be presented
--   Services      internal/domain/*/service.go, with the reading of ids by PostgreSQL
--   Handlers      internal/http/handler, one file per resource; Context has the shared prologue
--   Middleware    internal/http/middleware and internal/adapter/auth/verifier.go: Auth and Authz
--   Router        internal/http/router.go: route_of is the mux, guard_of what guards a route, handler_of
--                 its handler, serve a whole request; Access is about who gets through, Answers,
--                 Replies and Refusals about what is answered
--   Agent         cmd/agent: agent.go and tools.go, the loop of model replies and tool calls; Protocol is
--                 about its conversation; Client is client.go, and Wire anthropic.go
--   Seeding       cmd/seed: generate.go, with the speaker schedule and the distribution of sessions over
--                 rooms here, the members in Roster, all else of GenerateDataset in Generator, and
--                 noSpeakerOrRoomOverlap in Overlaps; load.go in Truncation and Loading
--   Examples      a small conference at which the theorems are applied
--
-- A method takes a `Server`, the caller's arguments and the tables, and returns its result and the
-- tables after it. `Server` holds what the code does not decide: which round trip fails, uuidv7(),
-- now() and the equality of citext; theorems hold for every server unless they say that it answers
-- (`Up`). A statement is a test of rows with the constraints that it can meet, in the order in
-- which PostgreSQL checks them: CHECK, unique and EXCLUDE indexes, then foreign keys. Versions and
-- capacities are columns of 32 bits: a call with an argument that does not fit is an internal error
-- (fits_int4 in Store). The SQLSTATE that the code looks for becomes its sentinel error, any other
-- failure is `internal`. Ids, versions and instants are natural numbers; instants count nanoseconds
-- from the zero time.Time. A series' durations are 64-bit patterns. Loops are structural, over the
-- items or the number of occurrences, or over the turns of the agent, so they need no fuel; the
-- walk over pages takes as fuel one more than the rows there are, and the chunks of a load as many
-- as there are sessions. In the seeder math/rand, the time package, newUUIDv7 and sort.Slice are
-- parameters: draws are arguments, and a list of draws that ends early, or a panic, is nothing.
--
-- Calls are atomic here except the two that the code splits into transactions: a series is its row
-- and one transaction per occurrence, a bulk invitation one per item, a lookup and an insert of the
-- key, before which other calls may change the tables. Races has the steps inside AssignRole and
-- Delete: what a statement sees, and what the lock of the event leaves to other transactions. A
-- request makes several calls (sign-in, policy, time zone, service, the read after a version
-- conflict), each with a `Server` of its own, one after the other. A handler is a function of the
-- request and the tables; its early returns are `Early`. Parameters of the HTTP layer are
-- encoding/json (as the decoded bodies), the codec of cursors, whose Marshal can fail, the time
-- package (a zone is what it parses and formats), SHA-256, how PostgreSQL reads a uuid, go-oidc,
-- and the ping. Signed integers of a body are ℤ until their validation; a text that is no uuid is
-- an internal error of the call that gets it, as PostgreSQL refuses it.
--
-- Not modelled: the encoding of responses and logging, generated code, configuration, the server's
-- timeouts, the validator against openapi.yaml, main.go of the commands, the constraints that refuse
-- a COPY of the seeder, the JSON of audit rows, and what PostgreSQL does when statements of other
-- kinds run at the same time.
pub mod Common
pub mod Domain
pub mod Store
pub mod Members
pub mod Policy
pub mod Sessions
pub mod Series
pub mod Rooms
pub mod Invitations
pub mod Events
pub mod Pages
pub mod Users
pub mod System
pub mod Utils
pub mod Requests
pub mod Responses
pub mod Services
pub mod Handlers
pub mod Middleware
pub mod Router
pub mod Agent
pub mod Seeding
pub mod Examples
