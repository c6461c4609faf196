-- ===== src/Tests.antt =====
-- Concrete inputs, tests by evaluation, and the theorems at inputs that meet their hypotheses.
mod Codec
mod Sample
mod Scenario
mod Projections
mod Logs
mod Brokers
mod Succeeds
mod Sockets
mod Adapters
mod Webhooks
mod Sends
mod Canons
mod Options
