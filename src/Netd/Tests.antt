-- ===== src/Netd/Tests.antt =====
-- Runs of the gate, the frames, the verbs and the connection at concrete inputs.
use labtris.Prelude.{
  take, arith, ℕ, ◌-◌, ◌≡◌, refl, Bytes, Text, All, length, codes, [], ◌∷◌, ◌++◌, true, false, ◌&&◌,
  leb, ltb, if◌then◌else◌, none, some, Option,
}
use labtris.Prelude.Int.{pos}
use labtris.Prelude.Result.{Result, ok, err, value_error}
use labtris.Netd.Line.{decode_line}
use labtris.Netd.Protocol.{is_blank, scan, is_word, matches_ifname, newline, feed}
use labtris.Netd.Protocol.Gate.{IsSafe, matches_ifname-newline}
use labtris.Netd.Protocol.Frames.{Unbroken, feed-append}
use labtris.Netd.Json.{as_str, Json, Fields, get, end, field, null, num, str, obj}
use labtris.Netd.Verb.{Verb}
use labtris.Netd.Call.{Call}
use labtris.Netd.Make.{call_plain, call}
use labtris.Netd.Dispatch.{Answer, dispatch}
use labtris.Netd.Safety.{IsSafe as IsSafeCall, Ensures}
use labtris.Netd.Safety.Calls.{call-IsSafe}
use labtris.Netd.Safety.Replies.{IsOrderly, dispatch-IsOrderly}
use labtris.Netd.Session.{is_text, locked, closed, handle}
use labtris.Netd.Session.Auth.{NoCall, Opens, handle-locked}
use labtris.Netd.Check.{require_ifname}

-- the ASCII digits alone
abbrev ascii : ℕ → Option ℕ
ascii c = if leb b'0' c && leb c b'9' then some (c - b'0') else none

abbrev tap_name : Text
tap_name = codes "tub1-3f2a"

tap_name-accepted : matches_ifname tap_name ≡ true
unfolding matches_ifname
tap_name-accepted = refl

tap_name-IsSafe : All IsSafe tap_name
unfolding is_word
tap_name-IsSafe = (refl, (refl, (refl, (refl, (refl, (refl, (refl, (refl, (refl, tt)))))))))

matches_ifname-newline_example : matches_ifname (tap_name ++ newline ∷ []) ≡ true
matches_ifname-newline_example = matches_ifname-newline tap_name tap_name-IsSafe tap_name-accepted

foreign_names :
    (matches_ifname (codes "docker0") ≡ false)
    × (matches_ifname (codes "veth48dff4c") ≡ false)
    × (matches_ifname (codes "br-13b48a89612a") ≡ false)
unfolding matches_ifname
foreign_names = (refl, refl, refl)

-- a line is its length, and an empty one is refused
abbrev measure : Bytes → Result ℕ
measure b = if ltb 1 (length b) then ok (length b) else err value_error

abbrev read_one : Text → Result Json
read_one (c ∷ []) = ok (obj end)
read_one s = err value_error

-- one frame, a blank line and the start of another
one_frame :
    feed (decode_line (λ line. ok line) (take 1) read_one) [] (97 ∷ 10 ∷ 32 ∷ 10 ∷ 98 ∷ [])
    ≡ (ok (end ∷ []), 98 ∷ [])
unfolding feed scan is_blank decode_line
one_frame = refl

feed-append_example :
    (feed measure (97 ∷ []) ((98 ∷ 10 ∷ 99 ∷ []) ++ 10 ∷ 100 ∷ [])
      ≡ (ok ((3 ∷ []) ++ 2 ∷ []), 100 ∷ []))
    × Unbroken (100 ∷ [])
unfolding feed scan is_blank
feed-append_example =
    feed-append measure (97 ∷ []) (98 ∷ 10 ∷ 99 ∷ []) (10 ∷ 100 ∷ []) (99 ∷ []) (100 ∷ []) (3 ∷ [])
      (2 ∷ []) refl refl

abbrev create : Fields
create = field "name" (str tap_name) end

call-IsSafe_example : Ensures (IsSafeCall ascii) (call ascii Verb.bridge_create create)
call-IsSafe_example = call-IsSafe ascii create Verb.bridge_create

bridge_created : call ascii Verb.bridge_create create ≡ ok (Call.bridge_create tap_name)
unfolding call call_plain require_ifname as_str get matches_ifname
bridge_created = refl

abbrev no_net : Call → Answer
no_net c = Answer.result null

abbrev request : Json → Fields
request verb = field "id" (num (pos 7)) (field "verb" verb (field "params" (obj create) end))

dispatch-IsOrderly_example :
    IsOrderly ascii no_net
      (Json.num (pos 7))
      (str (codes "bridge.create"))
      (get "params" (request (str (codes "bridge.create"))))
      (dispatch ascii no_net (request (str (codes "bridge.create"))))
unfolding get
dispatch-IsOrderly_example = dispatch-IsOrderly ascii no_net (request (str (codes "bridge.create")))

not_auth : ¬ Opens (codes "secret") (request (str (codes "ping")))
unfolding get is_text
not_auth o = ground (arith, o.verb)

handle-locked_example :
    All NoCall
      (handle ascii no_net
        (codes "secret")
        locked
        (request (str (codes "ping")) ∷ request (str (codes "ping")) ∷ [])).1
    × ((handle ascii no_net
          (codes "secret")
          locked
          (request (str (codes "ping")) ∷ request (str (codes "ping")) ∷ [])).0
        ≡ closed)
handle-locked_example =
    handle-locked ascii no_net (codes "secret") (request (str (codes "ping")))
      (request (str (codes "ping")) ∷ []) not_auth
