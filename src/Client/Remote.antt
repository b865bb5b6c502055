-- ===== src/Client/Remote.antt =====
-- A client and the daemon of labtris_netd: a call over the wire is the daemon's own.
use labtris.Prelude.{
  ◌∙◌, text_eq-eq, Bool-cases, inl, inr, ℕ, suc, Text, codes, List, [], ◌∷◌, ◌++◌, true, false,
  Option, none, some, ◌≡◌, refl, ap, text_eq, text_eq_refl, ◌≢◌,
}
use labtris.Prelude.Result.{Result, ok, err}
use labtris.Netd.Json.{Json, Fields, str, bool, obj, end, field, get}
use labtris.Netd.Verb.{Verb, to_verb}
use labtris.Netd.Call.{Call}
use labtris.Netd.Make.{call}
use labtris.Netd.Dispatch.{
  Answer, Reply, success, failure, error_code, dispatch, run_verb, attempt, answered,
}
use labtris.Netd.Session.{
  Phase, locked, serving, closed, Event, welcome, refused, made, replied, serve, handle_frame,
  start_phase, is_text, try_unlock,
}
use labtris.Client.{
  Outcome, returned, netd_error, client_call, request_frame, request_id, check_id, outcome_of, send,
  finish, fields_of, behind_auth, got,
}

text_ne : (t u : Text) → t ≢ u → text_eq t u ≡ false
text_ne t u apart = elim (Bool-cases (text_eq t u)) [
  | inl same ↦ absurd (apart (text_eq-eq t u same))
  | inr other ↦ other
]

-- the line that a reply is written as
abbrev pub success_line : Json → Json → Fields
success_line id r = field "id" id (field "ok" (bool true) (field "result" r end))

abbrev pub failure_line : Json → Text → Fields
failure_line id code =
    field "id" id (field "ok" (bool false) (field "error" (obj (field "code" (str code) end)) end))

abbrev pub reply_line : Reply → Fields
reply_line (success id r) = success_line id r
reply_line (failure id code) = failure_line id (codes code)

-- the first line that is written; a connection that is closed writes none
abbrev pub first_line : List Event → Option Fields
first_line [] = none
first_line (welcome id ∷ es) = some (success_line id (obj end))
first_line (refused id ∷ es) = some (failure_line id (codes "EAUTH"))
first_line (replied r ∷ es) = some (reply_line r)
first_line (made c ∷ es) = first_line es

abbrev pub calls_of : List Event → List Call
calls_of [] = []
calls_of (made c ∷ es) = c ∷ calls_of es
calls_of (e ∷ es) = calls_of es

module _ (decimal : ℕ → Option ℕ) (net : Call → Answer) where
  -- the daemon's end of a connection, with the calls that it has made
  abbrev pub answer_frame : Text → Phase × List Call → Fields → (Phase × List Call) × Option Fields
  answer_frame token (phase, done) frame =
      let (phase', events) = handle_frame decimal net token phase frame in
      ((phase', done ++ calls_of events), first_line events)

  -- what a call comes to where it is made
  abbrev pub answer_outcome : Answer → Outcome
  answer_outcome (Answer.result r) = returned (fields_of r)
  answer_outcome (Answer.fault code) = netd_error (codes code)
  answer_outcome Answer.crash = netd_error (codes "EINTERNAL")

  abbrev pub made_outcome : Result Call → List Call × Outcome
  made_outcome (ok c) = (c ∷ [], answer_outcome (net c))
  made_outcome (err e) = ([], netd_error (codes (error_code e)))

  abbrev pub verb_outcome : Option Verb → Fields → List Call × Outcome
  verb_outcome none params = ([], netd_error (codes "EINVAL"))
  verb_outcome (some v) params = made_outcome (call decimal v params)

  module _ (str_of : Json → Text) where
    success_lem :
        (t : Text) (r : Json)
        → outcome_of str_of (check_id t (some (success_line (str t) r))) ≡ returned (fields_of r)
    unfolding check_id outcome_of
    success_lem t r = rw (text_eq_refl t) refl

    failure_lem :
        (t code : Text)
        → outcome_of str_of (check_id t (some (failure_line (str t) code))) ≡ netd_error code
    unfolding check_id outcome_of
    failure_lem t code = rw (text_eq_refl t) refl

    answered_lem :
        (t : Text) (a : Answer)
        → outcome_of str_of (check_id t (some (reply_line (answered decimal net (str t) a))))
          ≡ answer_outcome a
    answered_lem t (Answer.result r) = success_lem t r
    answered_lem t (Answer.fault code) = failure_lem t (codes code)
    answered_lem t Answer.crash = failure_lem t (codes "EINTERNAL")

    -- what a served request amounts to, for the daemon and for the client
    abbrev Served : Text → Phase × List Event → List Call × Outcome → Type 0
    Served t (phase, events) (calls, outcome) =
        (phase ≡ serving)
        × (calls_of events ≡ calls)
        × (outcome_of str_of (check_id t (first_line events)) ≡ outcome)

    module _ (token : Text) where
      attempt_lem :
          (t : Text) (r : Result Call)
          → Served t
              (serve decimal net token
                (some (attempt decimal net (str t) r).0, (attempt decimal net (str t) r).1))
              (made_outcome r)
      attempt_lem t (ok c) = (refl, refl, answered_lem t (net c))
      attempt_lem t (err e) = (refl, refl, failure_lem t (codes (error_code e)))

      run_verb_lem :
          (t : Text) (o : Option Verb) (params : Fields)
          → Served t
              (serve decimal net token (run_verb decimal net (str t) (some o) params))
              (verb_outcome o params)
      run_verb_lem t none params = (refl, refl, failure_lem t (codes "EINVAL"))
      run_verb_lem t (some v) params = attempt_lem t (call decimal v params)

      request_lem :
          (n : ℕ) (verb : Text) (params : Fields)
          → Served
              (request_id n)
              (handle_frame decimal net token serving (request_frame n verb params))
              (verb_outcome (to_verb verb) params)
      unfolding handle_frame dispatch request_frame get
      request_lem n verb params = run_verb_lem (request_id n) (to_verb verb) params

      finish_lem :
          (n : ℕ) (done : List Call) (verb : Text) (params : Fields)
          → finish str_of
              (answer_frame token)
              (send str_of (answer_frame token) n (serving, done) verb params)
            ≡ (
              suc n,
              (serving, done ++ (verb_outcome (to_verb verb) params).0),
              (verb_outcome (to_verb verb) params).1,
            )
      unfolding send
      finish_lem n done verb params =
          let (phase, calls, outcome) = request_lem (suc n) verb params in
          rw (phase, calls, outcome) refl

    abbrev auth_params : Text → Fields
    auth_params t = field "token" (str t) end

    -- the right token opens the connection
    right_token :
        (c : ℕ) (t : Text) (n : ℕ)
        → send str_of (answer_frame (c ∷ t)) n (locked, []) (codes "auth") (auth_params (c ∷ t))
          ≡ (suc n, (serving, []), got (success_line (str (request_id (suc n))) (obj end)))
    unfolding send handle_frame try_unlock is_text get request_frame check_id
    right_token c t n = rw (text_eq_refl (c ∷ t), text_eq_refl (request_id (suc n))) refl

    wrong_token :
        (u t : Text) (n : ℕ)
        → text_eq t u ≡ false
        → send str_of (answer_frame u) n (locked, []) (codes "auth") (auth_params t)
          ≡ (suc n, (closed, []), got (failure_line (str (request_id (suc n))) (codes "EAUTH")))
    unfolding send handle_frame try_unlock is_text get request_frame check_id
    wrong_token u t n apart = rw (apart, text_eq_refl (request_id (suc n))) refl

    -- the counter behind a call, and the token that the daemon compares with
    abbrev pub counted : Option Text → ℕ → ℕ
    counted none n = suc n
    counted (some t) n = suc (suc n)

    abbrev pub token_text : Option Text → Text
    token_text none = []
    token_text (some t) = t

    -- A call over a new connection to a daemon with the client's own token, if any, comes to what it
    -- comes to at the daemon, with the same calls on the kernel; it takes one request, and one more
    -- where there is a token.
    pub client_call-verb_outcome :
        (token : Option Text) (n : ℕ) (idle : Phase × List Call) (verb : Text) (params : Fields)
        → token ≢ some []
        → client_call str_of
            (answer_frame (token_text token))
            token
            n
            (some (start_phase token, []))
            idle
            verb
            params
          ≡ (
            counted token n,
            (serving, (verb_outcome (to_verb verb) params).0),
            (verb_outcome (to_verb verb) params).1,
          )
    unfolding client_call start_phase
    client_call-verb_outcome none n idle verb params set = finish_lem [] n [] verb params
    client_call-verb_outcome (some []) n idle verb params set = absurd (set refl)
    client_call-verb_outcome (some (c ∷ t)) n idle verb params set =
        ap (behind_auth str_of (answer_frame (c ∷ t)) verb params) (right_token c t n)
        ∙ finish_lem (c ∷ t) (suc n) [] verb params

    -- A call with a token that is not the daemon's is refused with EAUTH, and the daemon makes no call.
    pub client_call-refused :
        (c : ℕ) (t u : Text) (n : ℕ) (idle : Phase × List Call) (verb : Text) (params : Fields)
        → c ∷ t ≢ u
        → client_call str_of
            (answer_frame u)
            (some (c ∷ t))
            n
            (some (start_phase (some u), []))
            idle
            verb
            params
          ≡ (suc n, (closed, []), netd_error (codes "EAUTH"))
    unfolding client_call start_phase
    client_call-refused c t u n idle verb params apart =
        ap (behind_auth str_of (answer_frame u) verb params)
          (wrong_token u (c ∷ t) n (text_ne (c ∷ t) u apart))
