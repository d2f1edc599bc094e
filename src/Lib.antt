-- ===== src/Lib.antt =====
-- The coordination core of a multi-agent workflow, in which agents share one repository: a host
-- orders the events of a session, and locks, intents, presence, tasks and messages tell each member
-- what the others are doing.
--
-- Parts and how they interact. A session (packages/core-state/src/session.ts, Session) has a key
-- under which every registry keeps its state. An inbound event passes the gate
-- (packages/core-state/src/ingest.ts, Ingest): it is validated, the sender's permission is checked,
-- a known Event_ID is answered with its revision, the replay guard
-- (packages/security/src/replay.ts, Replay) takes its counter and nonce, the counter
-- (packages/core-state/src/revisions.ts, Revisions) gives it an Event_Revision, and an applier
-- changes the registries. Claims that compete are resolved by the earliest Event_Revision
-- (packages/core-state/src/conflict.ts, Conflict), which the lock registry
-- (packages/core-state/src/locks.ts, Locks with Locks/Group and Locks/Upkeep) does for each scope
-- and branch. Scopes and paths are compared by a normalized key (packages/core-state/src/path.ts,
-- RepoPath). Members declare what they are about to change
-- (packages/core-state/src/intents.ts, Intents): Intents/State is the state, Intents/Validate the
-- checks of a request, Intents/Claims the claims on files to be created, Intents/Reconcile what
-- happens to intents when files are created, saved, renamed or deleted and when a device is gone,
-- Intents/Queries the lookups. A device without a heartbeat loses its locks, intents and presence
-- in one sweep (packages/core-state/src/expiry.ts, Expiry for the heartbeats and the aged soft
-- locks, Expiry/Devices for the sweep), which stamps what it reports with revisions. How strictly a
-- path is treated is read from a rules file (packages/core-state/src/rules.ts, Rules with
-- Rules/Glob for the patterns and Rules/Parse for the file). The host keeps a log of the updates
-- that it has broadcast, and an agent that reconnects applies the missed part of it or a snapshot to
-- its cache (packages/core-state/src/sync.ts, Sync/Log and Sync/Cache). Tasks, Presence, Messaging,
-- Coalesce, Liveness and Notifications model the files of the same names beside these. Protocol
-- holds the types of packages/protocol/src that the parts share, Base the helpers: texts,
-- JavaScript maps and sets as lists in insertion order, stable sorting. Fixtures and the Tests
-- modules hold concrete data and the theorems at it.
--
-- The diffs that members share (packages/core-state/src/diffs.ts, Diffs) and the decision on an
-- override (packages/core-state/src/override.ts, Override) are parts of their own. Snapshot models
-- packages/core-state/src/snapshot.ts, which stores what all registries hold of a session and
-- restores them with the revision counter.
--
-- A method is a function of the same name in lower case that takes the object's state and returns
-- the new state with the result. A thrown RangeError is the result `none`; so is the TypeError that
-- `acquire` would raise without a winner, which the theorem on its outcome excludes.
-- A field that the code mutates in place, such as the `concurrent` flag that resolveGroup writes
-- into stored locks, is written back where the object stands.
--
-- Parameters: the digest of node:crypto, String.prototype.toLowerCase and localeCompare, Date.parse
-- and process.platform are fields of `Platform`; the validator of signed events, the permission check
-- and the applier are arguments of the gate; the revision allocator is an argument where presence
-- is stopped; JSON.stringify is an argument of the rules parser, whose input is a value that is
-- parsed already. No function has fuel except the decimal digits of a number, which has one unit
-- for each value below the number.
--
-- Bounds: revisions and times are natural numbers, so rounding above 2^53 and times before 1970 are
-- not modelled; a counter that may be any JavaScript number is a `Number`. Texts are lists of UTF-16
-- code units.
--
-- Not modelled: risk.ts, orchestrator.ts, minimize.ts and repo-id.ts of packages/core-state/src;
-- the validator of packages/protocol/src; keys, signing, invitations and credential stores of
-- packages/security/src; the dependency analyzer, the MCP server and the applications, which are
-- network, storage and user interface around this core.
pub mod Base
pub mod Protocol
pub mod Fixtures
pub mod Session
pub mod Tasks
pub mod Presence
pub mod Messaging
pub mod Coalesce
pub mod Liveness
pub mod Notifications
pub mod Expiry
pub mod Rules
pub mod Intents
pub mod Sync
pub mod Diffs
pub mod Override
pub mod Snapshot
pub mod RepoPath
pub mod Revisions
pub mod Replay
pub mod Ingest
pub mod Conflict
pub mod Locks
