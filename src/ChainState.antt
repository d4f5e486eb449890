-- ===== src/ChainState.antt =====
-- packages/magna-wallet/src/browser/credential-chain-state.ts: what the chain says of a credential.
pub mod Notes
pub mod Readers
pub mod Reads
pub mod Rooted
pub mod Instagram
pub mod Agreement
mod Examples
