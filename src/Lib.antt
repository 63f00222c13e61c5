-- ===== src/Lib.antt =====
-- A model of the ponswarp signaling server, of its mesh coordinator and of its cloud shares with
-- their payments, with their properties.
--
-- The program is a WebSocket and HTTP server. Over the WebSocket, peers connect, join and leave
-- rooms, and exchange WebRTC signals through the server (src/main.rs dispatches, src/handlers/
-- handles, src/state.rs holds the state). Over HTTP, the mesh endpoints (src/mesh.rs) keep an
-- in-memory registry of workspaces, nodes, files and shares; the cloud endpoints
-- (src/handlers/cloud_share.rs) keep files for a time in an object store, with their shares,
-- download sessions and paid plans in a database (src/database.rs), which the webhooks of the
-- payment providers (src/billing.rs) fill with what was paid for.
--
-- Which file models what:
--   Common/ holds the shared notions: Map (`DashMap` as an association list with distinct keys),
--     NameSet (`HashSet<String>` as a list without repetition, in whose order the program's open
--     iteration order is taken), Text (`trim`, `strip_prefix`), Decimal (`{}`, `{:x}`, `parse`).
--   Protocol is src/protocol/messages.rs: the two message types, with the source's constructors.
--   Signaling is the part of `AppState` in src/state.rs that signalling uses: `rooms`, `peers`,
--     `config.room`, `config.turn`, and two fields that make effects visible, `sent`, the log of
--     all messages handed to the channels, and `tasks`, the spawned broadcasts that have not run.
--   Signaling/Rooms is src/handlers/room.rs, Signaling/Connection src/handlers/connection.rs,
--     Signaling/Relay src/handlers/signaling.rs, Signaling/Turn src/handlers/turn.rs, and
--     Signaling/Server `handle_client_message` and the life of a socket in src/main.rs.
--   Mesh is src/mesh.rs: Mesh/Registry the state, the requests and the responses; Mesh/Handlers
--     workspaces, nodes and reading; Mesh/Publish what reads JSON; Mesh/Shares the share codes. A
--     `Request` is a call of one route of src/main.rs.
--   SignIn is the part of src/auth.rs that says where a sign-in returns to.
--   Manifest holds the records that cloud shares and the database have in common.
--   Database is src/database.rs over the tables of src/migrations/: Database/Shares, Users, Passes
--     and Subscriptions hold one function on the tables for each statement or transaction, and
--     Database/Statements the sequences of those that write.
--   Billing is src/billing.rs: the check of a signature, Billing/Plans the plans that are sold and
--     the small texts, Billing/Webhooks and Billing/PayPal what an event does to the
--     database.
--   Cloud is src/handlers/cloud_share.rs: Cloud/World what a handler works on, and how it fails;
--     Cloud/Names the stored names and paths; Cloud/Secrets passwords and tokens; Cloud/Storage the
--     objects, with `CloudStorage` of src/state.rs; Cloud/Multipart the parts of large uploads;
--     Cloud/Policy the plan of a new share; Cloud/Create, Cloud/Complete, Cloud/Access and
--     Cloud/Cleanup the life of a share; Cloud/Plans the plans that are shown.
--   The children of each are named for what they prove, and Examples hold the tests.
--
-- How the code is read. Each handler is a function from the state to the state (and the response,
-- over HTTP), and a run is a list of events in the order in which the server handles them. A run
-- of `step` does not switch between handlers inside one, which the program's runtime may do at an
-- await. `leave_room_internal` is also given in its three parts, cut where it drops the room's
-- guard; Signaling/Server/Interleaved has the runs in which other handlers, and other leaves and
-- disconnects, come between the first part and the rest, and the results on `run` do not speak of such runs.
-- `tokio::spawn` adds a task that runs at a later event. A channel whose socket is closed drops what is sent, which the log
-- does not show. Texts are sequences of Unicode characters. Times, UUIDs and random numbers are
-- arguments. Sums of `u64` times are written modulo 2 ^ 64, as a release build computes them.
-- HMAC-SHA1 with Base64, the check of an HMAC-SHA256, and the JSON values of serde_json, are
-- parameters. The loops of the program run over lists, so recursion is structural; printing
-- a number uses fuel, as many steps as its successor, which exceeds its count of digits.
--
-- The handlers of cloud shares are functions on a world (the tables, the manifests and the sizes of
-- the objects in the store) that end in a value or a `CloudShareError`. Each call outside has a
-- number, and a setting says what the clock reads, which text is random, and whether a call fails
-- at that number, so that any pattern of failures is covered; a call that fails changes nothing.
-- Requests are handled one after another. The tables are maps by their keys, or lists where
-- several columns are unique; a statement that violates a constraint is a call that fails. Signed
-- addresses, the HMAC, the printing of sizes by floating point, the order of the database, the
-- listing of keys, the JSON values and the parser of identifiers are parameters. A panic of
-- `clamp` is an error. The clean-up has fuel, one for each page of keys.
--
-- Not modelled: the HTTP routing, CORS and socket tasks of src/main.rs and the logging; creating a
-- checkout and capturing an order, which are calls of the payment providers (src/billing.rs);
-- Google sign-in and its sessions (the rest of src/auth.rs, and their statements in
-- src/database.rs); the admin pages (src/admin.rs) and their lists in src/database.rs; reading the
-- environment (src/config.rs). The order of the database only matters for lists of files.
pub mod Common
pub mod Protocol
pub mod Signaling
pub mod Mesh
pub mod SignIn
pub mod Billing
pub mod Manifest
pub mod Database
pub mod Cloud
