-- ===== src/Client/Tests.antt =====
-- Calls through a daemon.
use labtris.Prelude.{
  ℕ, ◌-◌, Text, codes, [], leb, ◌&&◌, if◌then◌else◌, Option, none, some, ◌≡◌, ◌≢◌, List,
}
use labtris.Netd.Json.{Json, Fields, str, end, field}
use labtris.Netd.Verb.{to_verb}
use labtris.Netd.Call.{Call}
use labtris.Netd.Dispatch.{Answer}
use labtris.Netd.Session.{Phase, serving, closed, start_phase}
use labtris.Client.{client_call, netd_error}
use labtris.Client.Remote.{
  answer_frame, verb_outcome, client_call-verb_outcome, client_call-refused,
}

-- the ASCII digits alone
abbrev ascii : ℕ → Option ℕ
ascii c = if leb b'0' c && leb c b'9' then some (c - b'0') else none

abbrev busy : Call → Answer
busy c = Answer.fault "EBUSY"

abbrev no_text : Json → Text
no_text v = []

abbrev create : Text
create = codes "bridge.create"

abbrev bridge_name : Fields
bridge_name = field "name" (str (codes "bub1-3f2a")) end

abbrev idle : Phase × List Call
idle = (closed, [])

some_token : some (codes "key") ≢ some []
some_token e = cc e

client_call-verb_outcome_example :
    client_call no_text
      (answer_frame ascii busy (codes "key"))
      (some (codes "key"))
      4
      (some (start_phase (some (codes "key")), []))
      idle
      create
      bridge_name
    ≡ (
      6,
      (serving, (verb_outcome ascii busy (to_verb create) bridge_name).0),
      (verb_outcome ascii busy (to_verb create) bridge_name).1,
    )
client_call-verb_outcome_example =
    client_call-verb_outcome ascii busy no_text (some (codes "key")) 4 idle create bridge_name
      some_token

other_token : codes "lock" ≢ codes "key"
other_token e = cc e

client_call-refused_example :
    client_call no_text
      (answer_frame ascii busy (codes "key"))
      (some (codes "lock"))
      0
      (some (start_phase (some (codes "key")), []))
      idle
      create
      bridge_name
    ≡ (1, (closed, []), netd_error (codes "EAUTH"))
client_call-refused_example =
    client_call-refused ascii busy no_text b'l' (codes "ock") (codes "key") 0 idle create
      bridge_name other_token
