-- ===== src/SessionBroker.antt =====
-- apps/magna-management/src/lib/wallet-session-broker.ts: a login in one tab that the wallet session in
-- another tab carries out. The broadcast channel, the timers and the handler are events.
pub mod Messages
pub mod Broker
pub mod Requester
pub mod Wire
mod Examples
