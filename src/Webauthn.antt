-- ===== src/Webauthn.antt =====
-- packages/magna-wallet/src/webauthn: what the wallet reads from, and sends to, an authenticator.
mod Examples
pub mod Der
pub mod Utf8
pub mod Cbor
pub mod PublicKey
pub mod Witness
pub mod Ceremony
