-- ===== src/Client/Popup/Runs.antt =====
-- What holds of every run of the popup.
use magna_monorepo.Base.{
  ℕ, suc, ◌+◌, ◌≤◌, ◌≡◌, refl, sym, ap, ◌∙◌, subst, Bool, true, false, List, [], ◌∷◌, ◌++◌,
  if◌then◌else◌, Bool-cases, inl, inr, arith,
}
use magna_monorepo.Base.Texts.{codes}
use magna_monorepo.Core.Values.{
  Value, undefined, null, boolean, number, string, array, object, Properties, get,
}
use magna_monorepo.Core.ConnectorProtocol.{is_text}
use magna_monorepo.Client.Popup.{
  PopupEvent, timed_out, polled, message, PopupEffect, post_request, clean_up, close_popup,
  reject_timeout, reject_closed, reject_error, validate, PopupState, PopupRequest, opened, finish,
  post_once, on_data, on_message, on_event, run_popup,
}

-- How many times the request was posted.
abbrev pub posts : List PopupEffect → ℕ
posts [] = 0
posts (post_request ∷ es) = suc (posts es)
posts (_ ∷ es) = posts es

-- How many times the promise was settled, or handed to `validateLoginResponse`.
abbrev pub settlements : List PopupEffect → ℕ
settlements [] = 0
settlements (reject_timeout ∷ es) = suc (settlements es)
settlements (reject_closed ∷ es) = suc (settlements es)
settlements (reject_error _ ∷ es) = suc (settlements es)
settlements (validate _ ∷ es) = suc (settlements es)
settlements (_ ∷ es) = settlements es

abbrev pub count_of : Bool → ℕ
count_of true = 1
count_of false = 0

posts-append : (xs ys : List PopupEffect) → posts (xs ++ ys) ≡ posts xs + posts ys
posts-append [] ys = omega arith
posts-append (post_request ∷ xs) ys = omega (arith, posts-append xs ys)
posts-append (clean_up ∷ xs) ys = posts-append xs ys
posts-append (close_popup ∷ xs) ys = posts-append xs ys
posts-append (reject_timeout ∷ xs) ys = posts-append xs ys
posts-append (reject_closed ∷ xs) ys = posts-append xs ys
posts-append (reject_error v ∷ xs) ys = posts-append xs ys
posts-append (validate v ∷ xs) ys = posts-append xs ys

settlements-append :
    (xs ys : List PopupEffect) → settlements (xs ++ ys) ≡ settlements xs + settlements ys
settlements-append [] ys = omega arith
settlements-append (post_request ∷ xs) ys = settlements-append xs ys
settlements-append (clean_up ∷ xs) ys = settlements-append xs ys
settlements-append (close_popup ∷ xs) ys = settlements-append xs ys
settlements-append (reject_timeout ∷ xs) ys = omega (arith, settlements-append xs ys)
settlements-append (reject_closed ∷ xs) ys = omega (arith, settlements-append xs ys)
settlements-append (reject_error v ∷ xs) ys = omega (arith, settlements-append xs ys)
settlements-append (validate v ∷ xs) ys = omega (arith, settlements-append xs ys)

-- The flags count what was done.
pub record IsCounted (s : PopupState) : Type 0 where
  pub settled : settlements s.log ≡ count_of s.settled
  pub posted : posts s.log ≡ count_of s.request_posted

finish-IsCounted :
    (effects : List PopupEffect) (s : PopupState)
    → settlements effects ≡ 1
    → posts effects ≡ 0
    → IsCounted s
    → IsCounted (finish effects s)
unfolding finish
finish-IsCounted effects s one none h = elim (Bool-cases s.settled) [
  | inl done ↦ (let same : finish effects s ≡ s = rw done refl in subst IsCounted (sym same) h)
  | inr live ↦
      let made : finish effects s ≡ record {
        settled = true;
        request_posted = s.request_posted;
        log = s.log ++ (clean_up ∷ effects);
      } =
        rw live refl in
      subst IsCounted (sym made) (record {
        settled = omega (
          arith,
          settlements-append s.log (clean_up ∷ effects),
          one,
          h.settled ∙ ap count_of live,
        );
        posted = omega (arith, posts-append s.log (clean_up ∷ effects), none, h.posted);
      })
]

post_once-IsCounted : (s : PopupState) → IsCounted s → IsCounted (post_once s)
unfolding post_once
post_once-IsCounted s h = elim (Bool-cases s.request_posted) [
  | inl done ↦ (let same : post_once s ≡ s = rw done refl in subst IsCounted (sym same) h)
  | inr fresh ↦
      let made : post_once s ≡ record {
        settled = s.settled;
        request_posted = true;
        log = s.log ++ (post_request ∷ []);
      } =
        rw fresh refl in
      subst IsCounted (sym made) (record {
        settled = omega (arith, settlements-append s.log (post_request ∷ []), h.settled);
        posted =
            omega (arith, posts-append s.log (post_request ∷ []), h.posted ∙ ap count_of fresh);
      })
]

if-IsCounted :
    (b : Bool) (s t : PopupState) → IsCounted s → IsCounted t → IsCounted (if b then s else t)
if-IsCounted true s t h k = h
if-IsCounted false s t h k = k

on_data-IsCounted :
    (request : PopupRequest) (fields : Properties) (s : PopupState)
    → IsCounted s
    → IsCounted (on_data request fields s)
unfolding on_data
on_data-IsCounted request fields s h = if-IsCounted _ _ _ (post_once-IsCounted s h) (
    if-IsCounted _ _ _ h (
      if-IsCounted (is_text "magna:login-error" (get (codes "kind") fields)) _ _
        (finish-IsCounted (reject_error (get (codes "error") fields) ∷ []) s refl refl h)
        (if-IsCounted (is_text "magna:login-response" (get (codes "kind") fields)) _ _
          (finish-IsCounted (close_popup ∷ validate (get (codes "assertion") fields) ∷ []) s refl
            refl h)
          h)))

on_message-IsCounted :
    (request : PopupRequest) (origin : List ℕ) (v : Value) (s : PopupState)
    → IsCounted s
    → IsCounted (on_message request origin v s)
unfolding on_message
on_message-IsCounted request origin (object fields) s h =
    if-IsCounted _ _ _ (on_data-IsCounted request fields s h) h
on_message-IsCounted request origin undefined s h = h
on_message-IsCounted request origin null s h = h
on_message-IsCounted request origin (boolean b) s h = h
on_message-IsCounted request origin (number n) s h = h
on_message-IsCounted request origin (string t) s h = h
on_message-IsCounted request origin (array es) s h = h

on_event-IsCounted :
    (request : PopupRequest) (e : PopupEvent) (s : PopupState)
    → IsCounted s
    → IsCounted (on_event request e s)
unfolding on_event
on_event-IsCounted request timed_out s h = finish-IsCounted _ s refl refl h
on_event-IsCounted request (polled closed) s h =
    if-IsCounted closed _ _ (finish-IsCounted _ s refl refl h) h
on_event-IsCounted request (message origin v) s h = on_message-IsCounted request origin v s h

run_popup-IsCounted :
    (request : PopupRequest) (events : List PopupEvent) (s : PopupState)
    → IsCounted s
    → IsCounted (run_popup request events s)
unfolding run_popup
run_popup-IsCounted request [] s h = h
run_popup-IsCounted request (e ∷ events) s h =
    run_popup-IsCounted request events _ (on_event-IsCounted request e s h)

count_of-le : (b : Bool) → count_of b ≤ 1
count_of-le true = omega arith
count_of-le false = omega arith

-- Whatever is delivered, and in whatever order, the login is settled at most once and the request is
-- posted at most once.
pub run_popup-once :
    (request : PopupRequest) (events : List PopupEvent)
    → (settlements (run_popup request events opened).log ≤ 1)
      × (posts (run_popup request events opened).log ≤ 1)
run_popup-once request events =
    let s = run_popup request events opened in
    let counted =
      run_popup-IsCounted request events opened (record { settled = refl; posted = refl }) in
    (
      omega (arith, counted.settled, count_of-le s.settled),
      omega (arith, counted.posted, count_of-le s.request_posted),
    )
