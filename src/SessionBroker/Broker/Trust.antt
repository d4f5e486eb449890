-- ===== src/SessionBroker/Broker/Trust.antt =====
-- Whose assertions the broker hands to its handler, and what it does once it is closed.
use magna_monorepo.Base.{
  ℕ, ◌≡◌, refl, ap, Bool, true, false, not, ◌||◌, List, [], ◌∷◌, ◌++◌, Option, none, some, Result,
  ok, err, ◌==◌, length, if◌then◌else◌, inl, inr, if_holds, ◌⊎◌, ok_injective,
}
use magna_monorepo.Base.Texts.{text_eq, text_eq_iff}
use magna_monorepo.Base.Maps.{lookup}
use magna_monorepo.Core.Values.{Value}
use magna_monorepo.Core.Bytes.{bytes_to_hex}
use magna_monorepo.SessionBroker.Messages.{
  AssertionResult, WireError, assertion_from_wire, BrokerError, assertion_timed_out, BrokerMessage,
  probe, available, execute, started, success, failure, webauthn_request, webauthn_success,
  webauthn_failure, is_broker_message,
}
use magna_monorepo.SessionBroker.Broker.{
  BrokerEffect, post, start_handler, new_promise, post_threw, resolve, reject, refuse, Broker,
  BrokerState, BrokerEvent, delivered, timer_fired, assertion_requested, handler_finished,
  unregistered, registered, emit, post_open, settle, settle_if, expire_if, on_assertion,
  wire_result, start_or_decline, on_broker_message, on_delivered, on_timer, post_or_throw,
  ask_popup, with_credential, with_request, bad_challenge, request_webauthn_assertion, is_active,
  release, outcome_message, on_finished, rejections, unregister, broker_step, run_broker,
}

-- Whether the promise of the id is resolved with this assertion.
abbrev pub Resolves : List ℕ → AssertionResult → List BrokerEffect → Type 0
Resolves id w [] = ⊥
Resolves id w (resolve a v ∷ effects) = ((a ≡ id) × (v ≡ w)) ⊎ Resolves id w effects
Resolves id w (_ ∷ effects) = Resolves id w effects

-- A message to this broker that brings the assertion for the id, in its wire form.
abbrev pub Brings : Broker → List ℕ → AssertionResult → BrokerEvent → Type 0
Brings me id w (delivered (webauthn_success r b a wire)) =
    (b ≡ me.broker_id) × (a ≡ id) × (assertion_from_wire wire ≡ ok w)
Brings me id w _ = ⊥

abbrev pub SomeBrings : Broker → List ℕ → AssertionResult → List BrokerEvent → Type 0
SomeBrings me id w [] = ⊥
SomeBrings me id w (e ∷ events) = Brings me id w e ⊎ SomeBrings me id w events

Resolves-append :
    (id : List ℕ) (w : AssertionResult) (xs ys : List BrokerEffect)
    → Resolves id w (xs ++ ys)
    → Resolves id w xs ⊎ Resolves id w ys
Resolves-append id w [] ys h = inr h
Resolves-append id w (resolve a v ∷ xs) ys (inl e) = inl (inl e)
Resolves-append id w (resolve a v ∷ xs) ys (inr h) = elim (Resolves-append id w xs ys h) [
  | inl k ↦ inl (inr k)
  | inr k ↦ inr k
]
Resolves-append id w (post m ∷ xs) ys h = Resolves-append id w xs ys h
Resolves-append id w (start_handler r v ∷ xs) ys h = Resolves-append id w xs ys h
Resolves-append id w (new_promise a ∷ xs) ys h = Resolves-append id w xs ys h
Resolves-append id w (post_threw a ∷ xs) ys h = Resolves-append id w xs ys h
Resolves-append id w (reject a e ∷ xs) ys h = Resolves-append id w xs ys h
Resolves-append id w (refuse r ∷ xs) ys h = Resolves-append id w xs ys h

-- A state whose promise of the id was resolved with the assertion only for this reason.
abbrev pub ResolvedFor {κ} : List ℕ → AssertionResult → Type κ → BrokerState → BrokerState → Type κ
ResolvedFor id w Why before after = Resolves id w after.log → Resolves id w before.log ⊎ Why

module _ (id : List ℕ) (w : AssertionResult) (s : BrokerState) where
  quiet :
      {Why : Type 0} (effects : List BrokerEffect)
      → (Resolves id w effects → ⊥)
      → Resolves id w (s.log ++ effects)
      → Resolves id w s.log ⊎ Why
  quiet effects never h = elim (Resolves-append id w s.log effects h) [
    | inl k ↦ inl k
    | inr k ↦ absurd (never k)
  ]

  settle-ResolvedFor :
      (a : List ℕ) (result : Result BrokerError AssertionResult)
      → ResolvedFor id w ((a ≡ id) × (result ≡ ok w)) s (settle a result s)
  unfolding settle
  settle-ResolvedFor a (err e) h = quiet (reject a e ∷ []) (λ k. k) h
  settle-ResolvedFor a (ok v) h = elim (Resolves-append id w s.log (resolve a v ∷ []) h) [
    | inl k ↦ inl k
    | inr (inl (same, is)) ↦ inr (same, ap ok is)
    | inr (inr never) ↦ absurd never
  ]

  if-ResolvedFor :
      {Why : Type 0} (b : Bool) (t : BrokerState)
      → ResolvedFor id w Why s t
      → ResolvedFor id w ((b ≡ true) × Why) s (if b then t else s)
  if-ResolvedFor true t h k = elim (h k) [ inl before ↦ inl before | inr why ↦ inr (refl, why) ]
  if-ResolvedFor false t h k = inl k

  settle_if-ResolvedFor :
      (owner : Option (List ℕ)) (r a : List ℕ) (result : Result BrokerError AssertionResult)
      → ResolvedFor id w ((a ≡ id) × (result ≡ ok w)) s (settle_if owner r a result s)
  settle_if-ResolvedFor none r a result h = inl h
  settle_if-ResolvedFor (some owner) r a result h =
      elim (if-ResolvedFor (text_eq owner r) _ (settle-ResolvedFor a result) h) [
        | inl before ↦ inl before
        | inr (_, why) ↦ inr why
      ]

  expire_if-ResolvedFor :
      (owner : Option (List ℕ)) (a : List ℕ) → ResolvedFor id w ⊥ s (expire_if owner a s)
  expire_if-ResolvedFor none a h = inl h
  expire_if-ResolvedFor (some owner) a h = elim (settle-ResolvedFor a (err assertion_timed_out) h) [
    | inl before ↦ inl before
    | inr (_, wrong) ↦ absurd cc
  ]

  start_or_decline-ResolvedFor :
      (me : Broker) (busy : Option (List ℕ)) (r : List ℕ) (input : Value)
      → ResolvedFor id w ⊥ s (start_or_decline me busy r input s)
  unfolding emit
  start_or_decline-ResolvedFor me none r input h = quiet _ (λ k. k) h
  start_or_decline-ResolvedFor me (some b) r input h = quiet _ (λ k. k) h

  wire_result_sound :
      (result : Result WireError AssertionResult) → wire_result result ≡ ok w → result ≡ ok w
  wire_result_sound (ok v) h = ap ok (ok_injective h)
  wire_result_sound (err e) h = cc

  on_broker_message-ResolvedFor :
      (me : Broker) (message : BrokerMessage)
      → ResolvedFor id w (Brings me id w (delivered message)) s (on_broker_message me message s)
  unfolding on_broker_message on_assertion emit
  on_broker_message-ResolvedFor me (webauthn_success r b a wire) h =
      elim (if-ResolvedFor (text_eq b me.broker_id) _
        (settle_if-ResolvedFor (lookup a s.pending) r a (wire_result (assertion_from_wire wire)))
        h) [
          | inl before ↦ inl before
          | inr (mine, (same, is)) ↦
              inr ((text_eq_iff b me.broker_id).0 mine, same, wire_result_sound _ is)
        ]
  on_broker_message-ResolvedFor me (webauthn_failure r b a e) h =
      elim (if-ResolvedFor (text_eq b me.broker_id) _
        (settle_if-ResolvedFor (lookup a s.pending) r a (err e)) h) [
          | inl before ↦ inl before
          | inr (_, (_, wrong)) ↦ absurd cc
        ]
  on_broker_message-ResolvedFor me (probe r) h = quiet _ (λ k. k) h
  on_broker_message-ResolvedFor me (execute r b input) h =
      elim (if-ResolvedFor (text_eq b me.broker_id) _
        (start_or_decline-ResolvedFor me s.active_request r input) h) [
          | inl before ↦ inl before
          | inr (_, never) ↦ absurd never
        ]
  on_broker_message-ResolvedFor me (available r b c) h = inl h
  on_broker_message-ResolvedFor me (started r b) h = inl h
  on_broker_message-ResolvedFor me (success r b outcome) h = inl h
  on_broker_message-ResolvedFor me (failure r b e) h = inl h
  on_broker_message-ResolvedFor me (webauthn_request r b a c challenge) h = inl h

  asked-silent :
      (a : List ℕ) (closed : Bool) (message : BrokerMessage)
      → Resolves id w (new_promise a ∷ post_or_throw closed a message ∷ [])
      → ⊥
  asked-silent a true message h = h
  asked-silent a false message h = h

  ask_popup-ResolvedFor :
      (me : Broker) (r c challenge a : List ℕ)
      → ResolvedFor id w ⊥ s (ask_popup me r c challenge a s)
  unfolding ask_popup
  ask_popup-ResolvedFor me r c challenge a =
      let message = webauthn_request r me.broker_id a c (bytes_to_hex challenge) in
      quiet (new_promise a ∷ post_or_throw s.closed a message ∷ [])
        (asked-silent a s.closed message)

  request-ResolvedFor :
      (me : Broker) (challenge a : List ℕ) (active credential : Option (List ℕ))
      → ResolvedFor id w ⊥ s (
          with_request active
            (λ r. with_credential credential (λ c t.
              if length challenge == 32
              then ask_popup me r c challenge a t
              else emit (refuse bad_challenge ∷ []) t))
            s)
  unfolding emit
  request-ResolvedFor me challenge a none credential h = quiet _ (λ k. k) h
  request-ResolvedFor me challenge a (some r) none h = quiet _ (λ k. k) h
  request-ResolvedFor me challenge a (some r) (some []) h = quiet _ (λ k. k) h
  request-ResolvedFor me challenge a (some r) (some (c ∷ cs)) h =
      if_holds (ResolvedFor id w ⊥ s) (length challenge == 32)
        (ask_popup-ResolvedFor me r (c ∷ cs) challenge a) (λ k. quiet _ (λ l. l) k) h

  on_finished-ResolvedFor :
      (me : Broker) (r : List ℕ) (result : Result BrokerError Value)
      → ResolvedFor id w ⊥ s (on_finished me r result s)
  unfolding on_finished post_open release emit
  on_finished-ResolvedFor me r result h =
      let posted : ResolvedFor id w ⊥ s (post_open (outcome_message me r result) s) =
        if_holds (ResolvedFor id w ⊥ s) s.closed (λ k. inl k) (λ k. quiet _ (λ l. l) k) in
      if_holds (ResolvedFor id w ⊥ s)
        (is_active (post_open (outcome_message me r result) s).active_request r) posted posted h

  rejections-silent : (pending : List (List ℕ × List ℕ)) → Resolves id w (rejections pending) → ⊥
  rejections-silent [] h = h
  rejections-silent ((a, r) ∷ pending) h = rejections-silent pending h

  nothing_brought : {Why : Type 0} → Resolves id w s.log ⊎ ⊥ → Resolves id w s.log ⊎ Why
  nothing_brought (inl before) = inl before
  nothing_brought (inr never) = absurd never

  broker_step-ResolvedFor :
      (me : Broker) (e : BrokerEvent) → ResolvedFor id w (Brings me id w e) s (broker_step me e s)
  unfolding broker_step on_delivered on_timer request_webauthn_assertion unregister
  broker_step-ResolvedFor me (delivered message) =
      if_holds (ResolvedFor id w (Brings me id w (delivered message)) s)
        (not (is_broker_message message) || s.closed) (λ k. inl k)
        (on_broker_message-ResolvedFor me message)
  broker_step-ResolvedFor me (timer_fired a) =
      λ k. nothing_brought (expire_if-ResolvedFor (lookup a s.pending) a k)
  broker_step-ResolvedFor me (assertion_requested challenge a) =
      λ k. nothing_brought (request-ResolvedFor me challenge a s.active_request me.credential_id k)
  broker_step-ResolvedFor me (handler_finished r result) =
      λ k. nothing_brought (on_finished-ResolvedFor me r result k)
  broker_step-ResolvedFor me unregistered =
      quiet (rejections s.pending) (rejections-silent s.pending)

run_broker-from :
    (id : List ℕ) (w : AssertionResult) (me : Broker) (events : List BrokerEvent) (s : BrokerState)
    → Resolves id w (run_broker me events s).log
    → Resolves id w s.log ⊎ SomeBrings me id w events
unfolding run_broker
run_broker-from id w me [] s h = inl h
run_broker-from id w me (e ∷ events) s h =
    elim (run_broker-from id w me events (broker_step me e s) h) [
      | inl now ↦ elim (broker_step-ResolvedFor id w s me e now) [
        | inl before ↦ inl before
        | inr here ↦ inr (inl here)
      ]
      | inr later ↦ inr (inr later)
    ]

-- A promise is resolved with an assertion only if a message to this broker brought, for its id, a wire
-- form that decodes to that assertion.
pub run_broker-trusted :
    (id : List ℕ) (w : AssertionResult) (me : Broker) (events : List BrokerEvent)
    → Resolves id w (run_broker me events registered).log
    → SomeBrings me id w events
run_broker-trusted id w me events h = elim (run_broker-from id w me events registered h) [
  | inl never ↦ absurd never
  | inr brought ↦ brought
]
