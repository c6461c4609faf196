-- ===== src/Lib.antt =====
-- The verification library of request-sudo: a broker that runs a privileged command only after
-- another person has approved it, and keeps each step in a log whose events are chained by hashes.
--
-- The parts, and the files that model them:
--   Core            internal/core: statuses, the frozen request, `DescribeRequest` (Core.Describe).
--   Events          internal/events/types.go: events and the errors of the code that reads them.
--   Events.Json     encoding/json and SHA-256 as a parameter, with the laws that the code relies on.
--   Events.Log      internal/events/log.go: `Append`, `Replay`, `NewLog`.
--   Projection      internal/projection/projection.go: `Apply`, `Rebuild`, `Get`, `All`.
--   Execution       internal/execution/executor.go: the frozen context and the local executor.
--   Protocol        internal/protocol/wire.go: the messages and `FromSnapshot`.
--   Broker          internal/broker/service.go: State (the service and its two writes), Requests
--                   (`Submit`, `Status`, expiry), Review (`Approve`, `Deny`), Execute (`Execute`,
--                   recovery, `NewService`), Sections (interleavings of locked sections).
--   Socket          internal/socket/server.go: `dispatch`, `reviewAllowed`, `handleConn`; Socket.Client
--                   client.go: `Call`.
--   Adapter         internal/twilioadapter: Phones (code.go, country_guard.go, the lookup of
--                   approvers.go), Pending (pending_set.go), Replies, Signature, Verify and Webhook
--                   (webhook_handler.go, webhook.go, verify_check.go: a reply by text message), Send
--                   (twilio.go, and `handlePending` of cmd/request-sudo-twilio-adapter/main.go), Canon
--                   (canon_tail.go: following the event log), Codes, Config and Approvers (the options
--                   and files: country_guard.go, config.go, approvers.go).
--   Commands        cmd/request-sudo, request-sudoctl, request-sudod: the ids that may review, and the
--                   message of each command.
--   Base, Tests     helpers; concrete inputs and the theorems at them.
--
-- How they interact: the adapter follows the log, sends a text message for a new request, and brings
-- the reply to the broker as a message on its review socket. The server dispatches a message to an
-- operation of the service; each operation appends an event to the log and applies the event that came
-- back to the projection. After a restart the projection is rebuilt from the log.
--
-- Conventions: a text is its list of bytes and a time is a number of nanoseconds. What the code takes
-- from outside (the clock, random ids, what the file system answers) is an argument of each operation.
-- In the adapter a reply, or the sending for one request, is one step: its calls of the pending set are
-- atomic, but other handlers that run between them are not modelled. In the broker a mutex makes a
-- locked section atomic, so that concurrent calls are sequences of sections; `Execute` is two sections
-- with the run of the command between them. The state is passed on beside an error too, since what was
-- written before it stays written. Every loop is structural recursion on a list: there
-- is no fuel, except in the decimal digits of a number (Base.Bytes), which takes the number itself, and
-- in `strings.TrimSpace` (Base.Trim), which takes the length of the text.
--
-- What the documents describe and the code does not have is not modelled either: the broker's policy of
-- approver sets (CONTEXT.md, docs/adr/0002), the check of an approval token by the broker (PROTOCOL.md),
-- and the execution context and the log format of docs/adr/0003 and 0004 where they differ from the code.
--
-- Not modelled: flag parsing, printing and process set-up of the commands, the system calls below the
-- server, the set-up of the adapter (the HTTP server, signals), `ParseReply` of webhook.go, which no
-- command calls, and the writing of the adapter's audit file: an operation gives back the rows that it
-- emits. HMAC-SHA1, the HTTP client and JSON decoding are parameters; logging is left out.
mod Base
pub mod Core
pub mod Events
pub mod Projection
pub mod Execution
pub mod Protocol
pub mod Broker
pub mod Socket
pub mod Adapter
pub mod Commands
mod Tests
