-- ===== src/Client/Popup.antt =====
-- packages/magna-client/src/connector.ts, `openLoginRequest`: the popup of a login as a state machine
-- over what the browser delivers, in any order and any number of times.
pub mod Runs
pub mod Trust
use magna_monorepo.Base.{ℕ, Bool, true, false, ◌&&◌, not, List, [], ◌∷◌, ◌++◌, if◌then◌else◌}
use magna_monorepo.Base.Texts.{codes, text_eq}
use magna_monorepo.Core.Values.{Value, string, object, Properties, get}
use magna_monorepo.Core.ConnectorProtocol.{is_text}

-- The timer, a tick of the poll with `popup.closed`, and a message with its origin and data.
pub data PopupEvent : Type 0 where
  timed_out : PopupEvent
  polled : Bool → PopupEvent
  message : List ℕ → Value → PopupEvent

-- What the code does to the world, in order. `validate` starts `validateLoginResponse` on an assertion.
pub data PopupEffect : Type 0 where
  post_request clean_up close_popup reject_timeout reject_closed : PopupEffect
  reject_error validate : Value → PopupEffect

pub record PopupState : Type 0 where
  pub settled : Bool
  pub request_posted : Bool
  pub log : List PopupEffect

-- The values that the closures have captured.
pub record PopupRequest : Type 0 where
  pub wallet_origin : List ℕ
  pub request_id : List ℕ

abbrev pub opened : PopupState
opened = record { settled = false; request_posted = false; log = [] }

-- `finish`
unfoldable pub finish : List PopupEffect → PopupState → PopupState
finish effects s = if s.settled then s else record {
  settled = true;
  request_posted = s.request_posted;
  log = s.log ++ (clean_up ∷ effects);
}

-- `data.requestId === requestId`
abbrev pub is_request : List ℕ → Value → Bool
is_request request_id (string s) = text_eq s request_id
is_request request_id _ = false

unfoldable pub post_once : PopupState → PopupState
post_once s =
    if s.request_posted
    then s
    else record { settled = s.settled; request_posted = true; log = s.log ++ (post_request ∷ []) }

-- The listener, once the origin has passed and `event.data` is an object.
unfoldable pub on_data : PopupRequest → Properties → PopupState → PopupState
unfolding finish post_once
on_data request fields s =
    if is_text "magna:ready" (get (codes "kind") fields)
    then post_once s
    else if not (is_request request.request_id (get (codes "requestId") fields))
    then s
    else if is_text "magna:login-error" (get (codes "kind") fields)
    then finish (reject_error (get (codes "error") fields) ∷ []) s
    else if is_text "magna:login-response" (get (codes "kind") fields)
    then finish (close_popup ∷ validate (get (codes "assertion") fields) ∷ []) s
    else s

unfoldable pub on_message : PopupRequest → List ℕ → Value → PopupState → PopupState
unfolding on_data
on_message request origin (object fields) s =
    if text_eq origin request.wallet_origin then on_data request fields s else s
on_message request origin _ s = s

unfoldable pub on_event : PopupRequest → PopupEvent → PopupState → PopupState
unfolding finish on_message
on_event request timed_out s = finish (reject_timeout ∷ []) s
on_event request (polled closed) s = if closed then finish (reject_closed ∷ []) s else s
on_event request (message origin fields) s = on_message request origin fields s

unfoldable pub run_popup : PopupRequest → List PopupEvent → PopupState → PopupState
unfolding on_event
run_popup request [] s = s
run_popup request (e ∷ events) s = run_popup request events (on_event request e s)
