-- ===== src/Client.antt =====
-- labtris_api/netd_client.py: `NetdClient.call` and `_send`. A frame is decoded; the other end, from a
-- frame that is sent to the line that is read, is a parameter, and so is the text of a code that is none.
pub mod Remote
mod Tests
use labtris.Prelude.{
  ℕ, suc, Text, codes, [], ◌∷◌, ◌++◌, Bool, true, false, Option, none, some, if◌then◌else◌, String,
}
use labtris.Naming.Device.{decimal}
use labtris.Netd.Json.{Json, Fields, str, obj, end, field, get, get_default, truthy}
use labtris.Netd.Session.{is_text}

-- what a call comes to: a result, NetdError with its code, or an exception: the connection was not
-- made, was closed, or the reply was to something else; or one that the code does not mean to raise
pub data Outcome : Type 0 where
  returned : Fields → Outcome
  netd_error : Text → Outcome
  unavailable closed_early mismatched crashed : Outcome

-- `_send`: no line, a line with another id, the reply
pub data Sent : Type 0 where
  gone wrong : Sent
  got : Fields → Sent

-- `f"r{self._req_id}"`
unfoldable pub request_id : ℕ → Text
request_id n = codes "r" ++ decimal n

unfoldable pub request_frame : ℕ → Text → Fields → Fields
unfolding request_id
request_frame n verb params =
    field "id" (str (request_id n)) (field "verb" (str verb) (field "params" (obj params) end))

unfoldable pub check_id : Text → Option Fields → Sent
unfolding get is_text
check_id id none = gone
check_id id (some msg) = if is_text id (get "id" msg) then got msg else wrong

-- the fields of a dict, and none of anything else
abbrev pub fields_of : Json → Fields
fields_of (obj fs) = fs
fields_of v = end

module _ (str_of : Json → Text) where
  abbrev pub code_text : Json → Text
  code_text (str s) = s
  code_text v = str_of v

  -- `msg.get("error") or {}`, of which the code is read
  abbrev pub error_outcome : Json → Outcome
  error_outcome (obj fs) = netd_error (code_text (get_default "code" (str (codes "EINTERNAL")) fs))
  error_outcome v = if truthy v then crashed else netd_error (codes "EINTERNAL")

  unfoldable pub outcome_of : Sent → Outcome
  unfolding get get_default truthy
  outcome_of gone = closed_early
  outcome_of wrong = mismatched
  outcome_of (got msg) =
      if truthy (get "ok" msg)
      then returned (fields_of (get "result" msg))
      else error_outcome (get "error" msg)

  module _ {S : Type 0} (answer : S → Fields → S × Option Fields) where
    -- the client's counter, the other end, and what was read
    unfoldable pub send : ℕ → S → Text → Fields → ℕ × S × Sent
    unfolding request_frame check_id
    send n s verb params =
        let (s', line) = answer s (request_frame (suc n) verb params) in
        (suc n, s', check_id (request_id (suc n)) line)

    abbrev pub finish : ℕ × S × Sent → ℕ × S × Outcome
    finish (n, s, sent) = (n, s, outcome_of sent)

    -- the reply to "auth", and the call behind it
    abbrev pub behind_auth : Text → Fields → ℕ × S × Sent → ℕ × S × Outcome
    behind_auth verb params (n, s, gone) = (n, s, closed_early)
    behind_auth verb params (n, s, wrong) = (n, s, mismatched)
    behind_auth verb params (n, s, got msg) =
        let answered = finish (send n s verb params) in
        if truthy (get "ok" msg) then answered else (n, s, netd_error (codes "EAUTH"))

    -- `if self.token`: an empty one is none
    abbrev pub with_token : Option Text → ℕ → S → Text → Fields → ℕ × S × Outcome
    with_token none n s verb params = finish (send n s verb params)
    with_token (some []) n s verb params = finish (send n s verb params)
    with_token (some (c ∷ t)) n s verb params =
        behind_auth verb params (send n s (codes "auth") (field "token" (str (c ∷ t)) end))

    -- a connection that is made gives the other end
    unfoldable pub client_call : Option Text → ℕ → Option S → S → Text → Fields → ℕ × S × Outcome
    unfolding send outcome_of
    client_call token n none s verb params = (n, s, unavailable)
    client_call token n (some made) s verb params = with_token token n made verb params
