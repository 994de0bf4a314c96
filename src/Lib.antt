-- ===== src/Lib.antt =====
-- Pairfob's relay: the Cloudflare worker (workers/pairfob-origin/src), with the room of a computer and
-- the accounts.
--
-- A computer keeps a websocket to its room. Phones connect to the same room, pair once through a slot
-- that the computer opens, and later attach sessions; the room relays opaque frames between a phone
-- and the computer, stamped with the route of the phone's bind. Its durable state is the rows of a
-- store, one platform alarm, and the attachment of each websocket; the rest is rebuilt from them.
-- An index holds which computer has a pairing location. People sign in to accounts, register with an
-- invite code, own computers that they paired with, and keep an encrypted vault; wrong guesses are
-- struck on a ledger that bans their source.
--
-- The parts, and the files that model them:
--   Constants, Json      constants.ts and the JSON bodies of frames.ts
--   Hex, Crockford       crypto.ts (hex, route ids) and crockford.ts (pairing locations)
--   Envelope             envelope.ts and the decoders of frames.ts; Envelope/Typ has the frame types
--   Attachment           room/attachment.ts
--   Store                room/types.ts and room/memory-store.ts, the rows of a room
--   Gate                 room/gate-throttle.ts
--   Room                 the state of room/core.ts, its sockets, and sendErr and reject of frames.ts
--   Room/Core, Room/Traffic
--                        the rest of RoomCore, its counts in Room/Counts; Room/Enrollment
--                        its enrolment and timingSafeEqual; Room/Gates
--                        its tickets, and the upgrade of room/http.ts and room/room.ts
--   Room/Alarms          room/alarms.ts
--   Room/Session, Room/Verdict, Room/Pairing with Room/PairAttach, Room/DaemonHello, Room/Fwd, Room/Ws
--                        room/session.ts, pairing.ts, daemon-hello.ts, fwd.ts with ping.ts, and ws.ts
--   Room/System          the entry points of room/room.ts as events, and runs of them; a wake is the
--                        coldStart of a new RoomCore over the same rows and sockets
--   Direct               pwa/src/lib/protocol/direct-frame.ts, and its use in data-channel.ts
--   Limits               limits.ts, the sliding windows of addresses
--   Locations            index/pairing-index.ts, the holders of pairing locations
--   Task                 handlers that await, over any state
--   Account              the tables of account-store.ts as a record, requests and replies
--   Account/Ledger, Account/Users, Account/Claims
--                        the statements of account-store.ts: strikes and bans; users, sessions and the
--                        invite code; proofs and owners
--   Account/Auth, Account/Auth/Invite
--                        account-auth.ts: what a body may say, sessions, and the draw of an invite code
--   Account/Login, Account/Bootstrap, Account/Register, Account/Devices, Account/Listing
--                        the handlers of account.ts, and the proof that pair-intent.ts mints
--   Account/Vault, Account/Access, Account/Release
--                        account-vault.ts, account-authz.ts and device-release.ts
--   Account/System       the routes of account.ts, and runs of requests and of what else changes the
--                        tables
--   Text                 the functions of JavaScript on texts that account-auth.ts calls
--   Prelude              Boolean tests, lists, maps, and rules for proofs about conditionals
--   Tests                concrete runs
-- The proofs are in the child modules: Room/Attached, Room/Written and Room/Sound carry the invariant
-- of a room through every handler, and Room/System/Reachable collects it. Account/Closed says once that every
-- route keeps what every statement keeps, and its children take one invariant of the tables each.
--
-- How state and operations correspond. A RoomCore is the record Room, and a method that changes it is
-- a function on rooms, with the ids of websockets for the objects. The attachment of a websocket is a
-- field of the socket, so the mutation of a read attachment is a record that write_att stores, as
-- writeAtt does. A frame that is sent is put on the list of its socket. Names are those of the source
-- in snake case (handlePairOpen is handle_pair_open).
--
-- Awaits. The field `others` of Env is what runs while a handler awaits: any function on rooms, which
-- a handler applies to the room at each await before it goes on with what it gets. Room/System takes
-- for it any sequence of events, whose handlers may await in turn, to any finite depth (`nested`).
-- The pairing lock is not a state: a handler under it is one step but for these awaits. The handlers of
-- the accounts are tasks: a task runs alone but for its awaits, each of which applies `others` after
-- its statement, and Account/System takes for it what any scheduler chooses, nested in the same way. A
-- batch of statements is one step, as it is one transaction of the database.
--
-- Other parameters of Env: the entropy source, JSON.parse with the text decoder, the text encoder,
-- the digest, the answers of the pairing index, and whether the write of the platform alarm throws.
-- The claim witness and the metrics are calls that are noted; nothing depends on them. The Env of the
-- accounts holds the entropy source, the text encoder, the digests of addresses and tokens, the hash
-- of passwords and its check, the service token and decodeURIComponent. What the room answers to the
-- worker (a ticket, a verified token) is part of the event.
--
-- Bounds. newRouteId draws eight times and PAIR_OPEN mints eight locations, as in the source, by
-- recursion on that number. mintInviteCode draws until it has four letters; the model follows it for
-- `rounds` rounds, and a handler that needs more answers `drawing`: four bytes below 234 in these
-- rounds are enough. Every other loop goes over a list. Times are natural numbers, and a
-- difference of two is compared with the subtrahend on the other side.
--
-- Not modelled: a send that throws outside of the one try that catches it (a broken socket takes no
-- frame, and the closeBind that fwdWireFromDaemon calls in its catch runs to its end, where its own
-- sendErr on that socket would throw again), JSON numbers that are not natural (they count as
-- another value), texts outside ASCII in normalizeLoc, the call counters that tests read, the tags
-- and headers of an upgrade, the JSON routes under /internal, and the SQL store, whose contract
-- memory-store.ts has. A statement on the tables of the accounts fails where a key is taken and in
-- no other way. The cookie is read before a request is modelled, handleAccount's checks of the
-- origin and of the limit of the address come before its route, and headers, metrics and padding
-- delays are left out. The bytes that a data channel has queued are not counted. The worker's
-- enrolment and pages, the rest of the PWA and the Go daemon are other programs.
pub mod Account
pub mod Attachment
pub mod Constants
pub mod Crockford
pub mod Direct
pub mod Envelope
pub mod Gate
pub mod Hex
pub mod Json
pub mod Limits
pub mod Locations
pub mod Prelude
pub mod Room
pub mod Store
pub mod Task
pub mod Tests
pub mod Text
