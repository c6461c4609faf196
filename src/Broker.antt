-- ===== src/Broker.antt =====
-- internal/broker/service.go: the service that owns the log and the projection. Each operation runs
-- under the service's mutex; `Execute` gives it up while the command runs, so it is two sections.
pub mod State
pub mod Requests
pub mod Review
pub mod Execute
pub mod Effects
pub mod Guards
pub mod Sections
pub mod Kinds
pub mod Launches
pub mod Succeeds
pub mod Opens
pub mod Recovery
pub mod Durable
pub mod Restart
pub mod ReviewDurable
pub mod SectionsDurable
pub mod RestartSafe
pub mod StartGuards
pub mod ReviewGuards
