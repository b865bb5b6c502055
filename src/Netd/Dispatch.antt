-- ===== src/Netd/Dispatch.antt =====
-- labtris_netd/verbs.py: `dispatch`. What NetOps answers a call is a parameter.
use labtris.Prelude.{ℕ, String, List, [], ◌∷◌, Option, none, some, if◌then◌else◌}
use labtris.Prelude.Result.{Result, ok, err, Error, einval}
use labtris.Netd.Json.{Json, Fields, obj, end, get, truthy, str, arr}
use labtris.Netd.Verb.{Verb, to_verb}
use labtris.Netd.Call.{Call}
use labtris.Netd.Make.{call}

-- what a call on the kernel comes back with: a result, a NetdFault with its code, or another exception
pub data Answer : Type 0 where
  result : Json → Answer
  fault : String → Answer
  crash : Answer

pub data Reply : Type 0 where
  -- {"id": …, "ok": True, "result": …}
  success : Json → Json → Reply
  -- {"id": …, "ok": False, "error": {"code": …}}
  failure : Json → String → Reply

-- `none` is a TypeError that leaves `dispatch`: `verb not in VERBS` hashes the verb
abbrev pub member : Json → Option (Option Verb)
member (str s) = some (to_verb s)
member (arr vs) = none
member (obj fs) = none
member _ = some none

abbrev pub error_code : Error → String
error_code einval = "EINVAL"
error_code _ = "EINTERNAL"

module _ (decimal : ℕ → Option ℕ) (net : Call → Answer) where
  abbrev pub answered : Json → Answer → Reply
  answered id (result r) = success id r
  answered id (fault code) = failure id code
  answered id crash = failure id "EINTERNAL"

  -- the `try` block
  abbrev pub attempt : Json → Result Call → Reply × List Call
  attempt id (ok c) = (answered id (net c), c ∷ [])
  attempt id (err e) = (failure id (error_code e), [])

  abbrev pub run_verb : Json → Option (Option Verb) → Fields → Option Reply × List Call
  run_verb id none ps = (none, [])
  run_verb id (some none) ps = (some (failure id "EINVAL"), [])
  run_verb id (some (some v)) ps = let (r, cs) = attempt id (call decimal v ps) in (some r, cs)

  -- `request.get("params") or {}`, which has to be a dict
  abbrev pub with_params : Json → Json → Json → Option Reply × List Call
  with_params id verb (obj ps) = run_verb id (member verb) ps
  with_params id verb ps =
      if truthy ps then (some (failure id "EINVAL"), []) else run_verb id (member verb) end

  -- the reply, if no exception leaves `dispatch`, and the calls made
  unfoldable pub dispatch : Fields → Option Reply × List Call
  dispatch request = with_params (get "id" request) (get "verb" request) (get "params" request)
