-- ===== src/Core.antt =====
-- packages/magna-core: the session layer that the client and the wallet share.
mod Examples
pub mod Values
pub mod Bytes
pub mod BigInts
pub mod Policy
pub mod SessionAssertion
pub mod ConnectorProtocol
pub mod PolicyHash
