-- ===== src/SessionBroker/Requester/Deadlines.antt =====
-- The two timers end a login that is handed to another tab.
use magna_monorepo.Base.{
  ℕ, ◌≡◌, refl, sym, subst, ap, ◌∙◌, Bool, true, false, not, ◌&&◌, ◌||◌, List, [], ◌∷◌, ◌++◌,
  Option, none, some, Bool-cases, inl, inr, count, if_holds,
}
use magna_monorepo.Base.Texts.{text_eq}
use magna_monorepo.Core.ConnectorProtocol.{has}
use magna_monorepo.SessionBroker.Messages.{
  BrokerMessage, probe, available, execute, started, success, failure, webauthn_request,
  webauthn_success, webauthn_failure, request_of, is_broker_message, is_filled, is_set,
}
use magna_monorepo.SessionBroker.Requester.{
  resolve_unhandled, reject_timeout, Requester, RequesterState, RequesterEvent, received,
  discovery_elapsed, completion_elapsed, performed, probing, add_effects, finish, note_conflict,
  select_broker, same_id, on_available, is_selected, on_broker_reply, on_received, on_performed,
  requester_step, run_requester,
}
use magna_monorepo.SessionBroker.Requester.Settled.{
  is_settlement, IsOneOf, IsWaitingOrSettled, run_requester-IsWaitingOrSettled, settled_times,
  probing-IsWaitingOrSettled, requester_step-IsWaitingOrSettled,
}

-- The timer of the discovery is not set.
abbrev pub HasNoDiscovery : RequesterState → Type 0
HasNoDiscovery s = s.discovering ≡ false

abbrev pub HasFinished : RequesterState → Type 0
HasFinished s = s.finished ≡ true

note_conflict-HasNoDiscovery :
    (c : Option (List ℕ)) (s : RequesterState)
    → HasNoDiscovery s
    → HasNoDiscovery (note_conflict c s)
note_conflict-HasNoDiscovery none s h = h
note_conflict-HasNoDiscovery (some c) s h =
    if_holds HasNoDiscovery (not (is_filled c) || has s.conflicting c) h h

on_broker_reply-HasNoDiscovery :
    (me : Requester) (message : BrokerMessage) (s : RequesterState)
    → HasNoDiscovery s
    → HasNoDiscovery (on_broker_reply me message s)
unfolding on_broker_reply on_available select_broker add_effects finish
on_broker_reply-HasNoDiscovery me (available r b c) s h =
    if_holds HasNoDiscovery (not (is_set s.selected))
      (if_holds HasNoDiscovery
        (is_set me.target_credential_id && not (same_id c me.target_credential_id))
        (note_conflict-HasNoDiscovery c s h) refl)
      h
on_broker_reply-HasNoDiscovery me (webauthn_request r b a c challenge) s h =
    if_holds HasNoDiscovery (is_selected s.selected b) h h
on_broker_reply-HasNoDiscovery me (success r b outcome) s h =
    if_holds HasNoDiscovery (is_selected s.selected b) refl h
on_broker_reply-HasNoDiscovery me (failure r b e) s h =
    if_holds HasNoDiscovery (is_selected s.selected b) refl h
on_broker_reply-HasNoDiscovery me (probe r) s h = h
on_broker_reply-HasNoDiscovery me (execute r b input) s h = h
on_broker_reply-HasNoDiscovery me (started r b) s h = h
on_broker_reply-HasNoDiscovery me (webauthn_success r b a wire) s h = h
on_broker_reply-HasNoDiscovery me (webauthn_failure r b a e) s h = h

requester_step-HasNoDiscovery :
    (me : Requester) (e : RequesterEvent) (s : RequesterState)
    → HasNoDiscovery s
    → HasNoDiscovery (requester_step me e s)
unfolding requester_step on_received on_performed finish add_effects
requester_step-HasNoDiscovery me (received message) s h =
    if_holds HasNoDiscovery
      (s.finished
        || not (is_broker_message message)
        || not (text_eq (request_of message) me.request_id))
      h (on_broker_reply-HasNoDiscovery me message s h)
requester_step-HasNoDiscovery me discovery_elapsed s h =
    if_holds HasNoDiscovery s.discovering refl h
requester_step-HasNoDiscovery me completion_elapsed s h =
    if_holds HasNoDiscovery s.completing refl h
requester_step-HasNoDiscovery me (performed b a result) s h = if_holds HasNoDiscovery s.finished h h

run_requester-HasNoDiscovery :
    (me : Requester) (events : List RequesterEvent) (s : RequesterState)
    → HasNoDiscovery s
    → HasNoDiscovery (run_requester me events s)
unfolding run_requester
run_requester-HasNoDiscovery me [] s h = h
run_requester-HasNoDiscovery me (e ∷ events) s h =
    run_requester-HasNoDiscovery me events _ (requester_step-HasNoDiscovery me e s h)

discovery_ends :
    (me : Requester) (s : RequesterState) → HasNoDiscovery (requester_step me discovery_elapsed s)
unfolding requester_step finish
discovery_ends me s = elim (Bool-cases s.discovering) [
  | inl on ↦
      let is : requester_step me discovery_elapsed s ≡ finish (resolve_unhandled s.conflicting) s =
        rw on refl in
      subst HasNoDiscovery (sym is) refl
  | inr off ↦
      let is : requester_step me discovery_elapsed s ≡ s = rw off refl in
      subst HasNoDiscovery (sym is) off
]

one_is_left : (f d c : Bool) → IsOneOf f d c → d ≡ false → c ≡ false → f ≡ true
one_is_left true d c h off out = refl
one_is_left false true c h off out = cc
one_is_left false false true h off out = cc
one_is_left false false false h off out = absurd h

completion_ends :
    (me : Requester) (s : RequesterState)
    → IsWaitingOrSettled s
    → HasNoDiscovery s
    → HasFinished (requester_step me completion_elapsed s)
unfolding requester_step finish
completion_ends me s h off = elim (Bool-cases s.completing) [
  | inl on ↦
      let is : requester_step me completion_elapsed s ≡ finish reject_timeout s = rw on refl in
      subst HasFinished (sym is) refl
  | inr out ↦
      let is : requester_step me completion_elapsed s ≡ s = rw out refl in
      subst HasFinished (sym is) (one_is_left s.finished s.discovering s.completing h.flags off out)
]

requester_step-HasFinished :
    (me : Requester) (e : RequesterEvent) (s : RequesterState)
    → HasFinished s
    → HasFinished (requester_step me e s)
unfolding requester_step on_received on_performed finish
requester_step-HasFinished me (received message) s h =
    let same : on_received me message s ≡ s = rw h refl in subst HasFinished (sym same) h
requester_step-HasFinished me discovery_elapsed s h = if_holds HasFinished s.discovering refl h
requester_step-HasFinished me completion_elapsed s h = if_holds HasFinished s.completing refl h
requester_step-HasFinished me (performed b a result) s h =
    let same : on_performed me b a result s ≡ s = rw h refl in subst HasFinished (sym same) h

run_requester-HasFinished :
    (me : Requester) (events : List RequesterEvent) (s : RequesterState)
    → HasFinished s
    → HasFinished (run_requester me events s)
unfolding run_requester
run_requester-HasFinished me [] s h = h
run_requester-HasFinished me (e ∷ events) s h =
    run_requester-HasFinished me events _ (requester_step-HasFinished me e s h)

run_requester-append :
    (me : Requester) (xs ys : List RequesterEvent) (s : RequesterState)
    → run_requester me (xs ++ ys) s ≡ run_requester me ys (run_requester me xs s)
unfolding run_requester
run_requester-append me [] ys s = refl
run_requester-append me (e ∷ xs) ys s = run_requester-append me xs ys (requester_step me e s)

finished_after :
    (me : Requester) (before between after : List RequesterEvent)
    → HasFinished (
        run_requester me
          (before ++ (discovery_elapsed ∷ (between ++ (completion_elapsed ∷ after))))
          (probing me))
unfolding run_requester
finished_after me before between after =
    let s = run_requester me before (probing me) in
    let t = run_requester me between (requester_step me discovery_elapsed s) in
    let live = run_requester-IsWaitingOrSettled me between (requester_step me discovery_elapsed s) (
      requester_step-IsWaitingOrSettled me discovery_elapsed s (
        run_requester-IsWaitingOrSettled me before (probing me) (probing-IsWaitingOrSettled me))) in
    let off =
      run_requester-HasNoDiscovery me between (requester_step me discovery_elapsed s)
        (discovery_ends me s) in
    subst HasFinished
      (sym (
        run_requester-append me before
          (discovery_elapsed ∷ (between ++ (completion_elapsed ∷ after))) (probing me)))
      (subst HasFinished
        (sym (
          run_requester-append me between (completion_elapsed ∷ after)
            (requester_step me discovery_elapsed s)))
        (run_requester-HasFinished me after (requester_step me completion_elapsed t)
          (completion_ends me t live off)))

-- Once the time for the discovery has passed and then the time for the completion, the promise has been
-- settled, and once only, whatever else arrived before, between and after.
pub run_requester-settled :
    (me : Requester) (before between after : List RequesterEvent)
    → count is_settlement
        (run_requester me
          (before ++ (discovery_elapsed ∷ (between ++ (completion_elapsed ∷ after))))
          (probing me)).log
      ≡ 1
run_requester-settled me before between after =
    let events = before ++ (discovery_elapsed ∷ (between ++ (completion_elapsed ∷ after))) in
    let h =
      run_requester-IsWaitingOrSettled me events (probing me) (probing-IsWaitingOrSettled me) in
    h.counted ∙ ap settled_times (finished_after me before between after)
