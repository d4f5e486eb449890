-- ===== src/Client/Popup/Trust.antt =====
-- Whose messages the popup of a login hears.
use magna_monorepo.Base.{
  ℕ, ◌≡◌, refl, ap, subst, Bool, true, false, not, List, [], ◌∷◌, ◌++◌, if◌then◌else◌, Bool-cases,
  inl, inr, arith, ◌⊎◌,
}
use magna_monorepo.Base.Texts.{codes, text_eq, text_eq_iff}
use magna_monorepo.Core.Values.{
  Value, undefined, null, boolean, number, string, array, object, Properties, get,
}
use magna_monorepo.Core.ConnectorProtocol.{is_text}
use magna_monorepo.Core.ConnectorProtocol.Accepted.{is_text_iff}
use magna_monorepo.Client.Popup.{
  PopupEvent, timed_out, polled, message, PopupEffect, post_request, clean_up, close_popup,
  reject_timeout, reject_closed, reject_error, validate, PopupState, PopupRequest, opened, finish,
  is_request, post_once, on_data, on_message, on_event, run_popup,
}

-- Whether the log starts the validation of this assertion.
abbrev pub Validates : Value → List PopupEffect → Type 0
Validates a [] = ⊥
Validates a (validate b ∷ es) = (b ≡ a) ⊎ Validates a es
Validates a (_ ∷ es) = Validates a es

-- A response to this request: an object of the wallet's origin that carries the request's id and
-- this assertion.
abbrev pub IsResponse : PopupRequest → Value → PopupEvent → Type 0
IsResponse request a timed_out = ⊥
IsResponse request a (polled closed) = ⊥
IsResponse request a (message origin v) =
    (fields : Properties) × (v ≡ object fields)
    × (origin ≡ request.wallet_origin)
    × (get (codes "requestId") fields ≡ string request.request_id)
    × (get (codes "kind") fields ≡ string (codes "magna:login-response"))
    × (get (codes "assertion") fields ≡ a)

abbrev pub HasResponse : PopupRequest → Value → List PopupEvent → Type 0
HasResponse request a [] = ⊥
HasResponse request a (e ∷ events) = IsResponse request a e ⊎ HasResponse request a events

Validates-append :
    (a : Value) (xs ys : List PopupEffect)
    → Validates a (xs ++ ys)
    → Validates a xs ⊎ Validates a ys
Validates-append a [] ys h = inr h
Validates-append a (validate b ∷ xs) ys (inl e) = inl (inl e)
Validates-append a (validate b ∷ xs) ys (inr h) = elim (Validates-append a xs ys h) [
  | inl k ↦ inl (inr k)
  | inr k ↦ inr k
]
Validates-append a (post_request ∷ xs) ys h = Validates-append a xs ys h
Validates-append a (clean_up ∷ xs) ys h = Validates-append a xs ys h
Validates-append a (close_popup ∷ xs) ys h = Validates-append a xs ys h
Validates-append a (reject_timeout ∷ xs) ys h = Validates-append a xs ys h
Validates-append a (reject_closed ∷ xs) ys h = Validates-append a xs ys h
Validates-append a (reject_error v ∷ xs) ys h = Validates-append a xs ys h

finish-Validates :
    (a : Value) (effects : List PopupEffect) (s : PopupState)
    → Validates a (finish effects s).log
    → Validates a s.log ⊎ Validates a effects
unfolding finish
finish-Validates a effects s h = elim (Bool-cases s.settled) [
  | inl done ↦
      inl (let same : finish effects s ≡ s = rw done refl in subst (λ t. Validates a t.log) same h)
  | inr live ↦
      let made : finish effects s ≡ record {
        settled = true;
        request_posted = s.request_posted;
        log = s.log ++ (clean_up ∷ effects);
      } =
        rw live refl in
      Validates-append a s.log (clean_up ∷ effects) (subst (λ t. Validates a t.log) made h)
]

post_once-Validates :
    (a : Value) (s : PopupState) → Validates a (post_once s).log → Validates a s.log
unfolding post_once
post_once-Validates a s h = elim (Bool-cases s.request_posted) [
  | inl done ↦ (let same : post_once s ≡ s = rw done refl in subst (λ t. Validates a t.log) same h)
  | inr fresh ↦
      let made : post_once s ≡ record {
        settled = s.settled;
        request_posted = true;
        log = s.log ++ (post_request ∷ []);
      } =
        rw fresh refl in
      elim (Validates-append a s.log (post_request ∷ []) (subst (λ t. Validates a t.log) made h)) [
        | inl k ↦ k
        | inr k ↦ absurd k
      ]
]

is_request_sound : (id : List ℕ) (v : Value) → is_request id v ≡ true → v ≡ string id
is_request_sound id (string s) h = ap string ((text_eq_iff s id).0 h)
is_request_sound id _ h = cc

if-Validates :
    (a : Value) (b : Bool) (s t : PopupState)
    → Validates a (if b then s else t).log
    → ((b ≡ true) × Validates a s.log) ⊎ ((b ≡ false) × Validates a t.log)
if-Validates a true s t h = inl (refl, h)
if-Validates a false s t h = inr (refl, h)

-- The branch of a message of this request, after the other kinds have been passed over.
settle-Validates :
    (request : PopupRequest) (fields : Properties) (s : PopupState) (a : Value)
    → get (codes "requestId") fields ≡ string request.request_id
    → Validates a
        (if is_text "magna:login-error" (get (codes "kind") fields)
          then finish (reject_error (get (codes "error") fields) ∷ []) s
          else if is_text "magna:login-response" (get (codes "kind") fields)
          then finish (close_popup ∷ validate (get (codes "assertion") fields) ∷ []) s
          else s).log
    → Validates a s.log ⊎ IsResponse request a (message request.wallet_origin (object fields))
settle-Validates request fields s a id h =
    let failed = is_text "magna:login-error" (get (codes "kind") fields) in
    let response = is_text "magna:login-response" (get (codes "kind") fields) in
    let rejected = finish (reject_error (get (codes "error") fields) ∷ []) s in
    let answered = finish (close_popup ∷ validate (get (codes "assertion") fields) ∷ []) s in
    elim (if-Validates a failed rejected (if response then answered else s) h) [
      | inl (_, k) ↦
          elim (finish-Validates a (reject_error (get (codes "error") fields) ∷ []) s k) [
            | inl before ↦ inl before
            | inr never ↦ absurd never
          ]
      | inr (_, k) ↦ elim (if-Validates a response answered s k) [
        | inl (kind, l) ↦
            elim (finish-Validates a (close_popup ∷ validate (get (codes "assertion") fields) ∷ [])
              s l) [
                | inl before ↦ inl before
                | inr (inl same) ↦
                    inr
                      (fields, refl, refl, id, (is_text_iff "magna:login-response" _).0 kind, same)
                | inr (inr never) ↦ absurd never
              ]
        | inr (_, l) ↦ inl l
      ]
    ]

on_data-Validates :
    (request : PopupRequest) (fields : Properties) (s : PopupState) (a : Value)
    → Validates a (on_data request fields s).log
    → Validates a s.log ⊎ IsResponse request a (message request.wallet_origin (object fields))
unfolding on_data
on_data-Validates request fields s a h =
    let ready = is_text "magna:ready" (get (codes "kind") fields) in
    let other = not (is_request request.request_id (get (codes "requestId") fields)) in
    elim (if-Validates a ready (post_once s) _ h) [
      | inl (_, k) ↦ inl (post_once-Validates a s k)
      | inr (_, k) ↦ elim (if-Validates a other s _ k) [
        | inl (_, l) ↦ inl l
        | inr (mine, l) ↦
            settle-Validates request fields s a
              (is_request_sound request.request_id _ (ground (arith, mine))) l
      ]
    ]

on_event-Validates :
    (request : PopupRequest) (e : PopupEvent) (s : PopupState) (a : Value)
    → Validates a (on_event request e s).log
    → Validates a s.log ⊎ IsResponse request a e
unfolding on_event on_message
on_event-Validates request timed_out s a h = elim (finish-Validates a (reject_timeout ∷ []) s h) [
  | inl before ↦ inl before
  | inr never ↦ absurd never
]
on_event-Validates request (polled closed) s a h =
    elim (if-Validates a closed (finish (reject_closed ∷ []) s) s h) [
      | inl (_, k) ↦ elim (finish-Validates a (reject_closed ∷ []) s k) [
        | inl before ↦ inl before
        | inr never ↦ absurd never
      ]
      | inr (_, k) ↦ inl k
    ]
on_event-Validates request (message origin (object fields)) s a h =
    elim (if-Validates a (text_eq origin request.wallet_origin) (on_data request fields s) s h) [
      | inl (same, k) ↦ elim (on_data-Validates request fields s a k) [
        | inl before ↦ inl before
        | inr (f, is, _, id, kind, a_is) ↦
            inr (f, is, (text_eq_iff origin request.wallet_origin).0 same, id, kind, a_is)
      ]
      | inr (_, k) ↦ inl k
    ]
on_event-Validates request (message origin undefined) s a h = inl h
on_event-Validates request (message origin null) s a h = inl h
on_event-Validates request (message origin (boolean b)) s a h = inl h
on_event-Validates request (message origin (number n)) s a h = inl h
on_event-Validates request (message origin (string t)) s a h = inl h
on_event-Validates request (message origin (array es)) s a h = inl h

run_popup-from :
    (request : PopupRequest) (events : List PopupEvent) (s : PopupState) (a : Value)
    → Validates a (run_popup request events s).log
    → Validates a s.log ⊎ HasResponse request a events
unfolding run_popup
run_popup-from request [] s a h = inl h
run_popup-from request (e ∷ events) s a h =
    elim (run_popup-from request events (on_event request e s) a h) [
      | inl now ↦ elim (on_event-Validates request e s a now) [
        | inl before ↦ inl before
        | inr here ↦ inr (inl here)
      ]
      | inr later ↦ inr (inr later)
    ]

-- An assertion is validated only if a message brought it whose origin is the wallet's, whose data is
-- an object with this request's id, and whose kind is a login response.
pub run_popup-trusted :
    (request : PopupRequest) (events : List PopupEvent) (a : Value)
    → Validates a (run_popup request events opened).log
    → HasResponse request a events
run_popup-trusted request events a h = elim (run_popup-from request events opened a h) [
  | inl never ↦ absurd never
  | inr brought ↦ brought
]
