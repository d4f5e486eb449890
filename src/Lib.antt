-- ===== src/Lib.antt =====
-- Magna: credentials on Aztec, and logins that prove a policy about them.
--
-- A relying application runs packages/magna-client. It sends a login request to the wallet, which checks
-- the request with packages/magna-core, proves the policy on the chain with packages/magna-wallet,
-- and answers with an assertion that the client checks against the chain. A login by redirect brings
-- the assertion through the one-time codes of apps/magna-verification-api. The wallet's account is a
-- WebAuthn key, and a wallet session that is open in one tab serves a login in another. magna-wallet also
-- reads from the chain whether a credential is live, and packages/magna-recovery-v3 derives what a
-- recovery of a credential commits to.
--
-- The parts, and where they are modelled:
--   Base: shared tests, lists, texts, results, numbers and digits.
--   Core.Values: the values of the dynamic language, for what TypeScript types as `unknown`.
--   Core.Bytes, Core.Policy: magna-core's bytes.ts, types.ts and policy.ts.
--   Core.PolicyHash: policy-hash.ts, the hash of one policy.
--   Core.SessionAssertion: session-assertion.ts, the values that a login commits to.
--   Core.ConnectorProtocol, with Wire: connector-protocol.ts, the checks of a message and its wire form.
--   Client, Client.Chain, Client.Popup: magna-client's connector.ts. `validate_login_response` is
--     `validateLoginResponse`, Client.Chain has its default verifier, and `on_event` is what
--     `openLoginRequest` does with an event.
--   Client.Redirect: magna-client's redirect.ts.
--   ClaimHashes, with Instagram: magna-wallet's src/engine/encoding.ts, ghost.ts and root.ts.
--   Webauthn.Der, Cbor, PublicKey, Witness, Ceremony: the files of those names in magna-wallet's
--     src/webauthn.
--   SponsorAllowance: magna-wallet's src/browser/sponsor-allowance.ts.
--   Recovery: magna-recovery-v3's src/encoding.ts.
--   Core.BigInts: the language's `BigInt` of a text.
--   ChainState, with Notes and Readers: magna-wallet's src/browser/credential-chain-state.ts.
--   SessionBroker: apps/magna-management/src/lib/wallet-session-broker.ts, with its Messages, the Broker
--     that `registerWalletSessionLoginBroker` registers, and the Requester that
--     `tryWalletLoginThroughExistingSession` runs.
--   SessionCodes: the verification API's src/session-code-store.ts.
-- A definition has the name of the function it models, in snake_case, and what a function throws is
-- the `err` of a Result. Strings are lists of UTF-16 code units, and byte arrays lists of numbers.
--
-- Parameters stand for what is outside the repository: a chain verifier, the Poseidon and Pedersen
-- hashes and SHA-256 of a text, the parsers of addresses and of transaction hashes, the exchange of a
-- code, the Aztec node and the wallet's anchor (a snapshot for each attempt), random ids and codes, and
-- the clock. In ChainState and Client.Chain the value `none` of a parameter is a call that throws.
-- `bigint` values are natural numbers or integers without a bound, as they are in the language. Times
-- of an assertion are natural numbers of seconds, and a response is a value of its declared type, except
-- that its receipts need not be an array, nor a receipt hold a string.
--
-- The browser is a source of events, in any order. A message on the channel between tabs that passes the
-- guard `isBrokerMessage` has the type BrokerMessage, posting throws on a closed channel only, and the
-- ids that are drawn are arguments. A handler's settling is one event, with its callbacks.
--
-- Loops are recursion on the list or the count that they run over. `decode_at` takes the 33 levels that
-- `decodeAt` allows as its fuel, and running out of them is the error that the code throws. `send_loop`
-- takes the five attempts that may send.
--
-- Not modelled: the Aztec SDK and calls of it, WebCrypto, pages, contracts and circuits, the hash
-- of combined requirements, the text of the address that a redirect goes to, and the registration of a
-- key.
pub mod Base
pub mod ChainState
pub mod ClaimHashes
pub mod Client
pub mod Core
pub mod Recovery
pub mod SessionBroker
pub mod SessionCodes
pub mod SponsorAllowance
pub mod Webauthn
