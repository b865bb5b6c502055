-- ===== src/Netd/Safety/Replies.antt =====
-- What `dispatch` answers, and which calls it makes.
use labtris.Prelude.{
  if◌then◌else◌, Bool-cases, ℕ, List, [], ◌∷◌, ◌≡◌, ◌⊎◌, refl, true, false, some, none, Option, inl,
  inr, Text, Option-cases,
}
use labtris.Prelude.Result.{Result, ok, err, Error}
use labtris.Netd.Json.{end, Json, Fields, get, truthy}
use labtris.Netd.Verb.{Verb, to_verb}
use labtris.Netd.Call.{Call}
use labtris.Netd.Make.{call}
use labtris.Netd.Dispatch.{
  Answer, Reply, success, failure, member, attempt, answered, run_verb, with_params, dispatch,
  error_code,
}
use labtris.Netd.Safety.{IsSafe, Ensures}
use labtris.Netd.Safety.Calls.{call-IsSafe}

-- what a reply says of the answer to its call
abbrev pub Reports : Json → Answer → Reply → Type 0
Reports id (Answer.result r) (success i s) = (i ≡ id) × (s ≡ r)
Reports id (Answer.fault code) (failure i c) = (i ≡ id) × (c ≡ code)
Reports id Answer.crash (failure i c) = (i ≡ id) × (c ≡ "EINTERNAL")
Reports id _ _ = ⊥

-- a refusal, which carries the id and one of two codes
abbrev pub Refuses : Json → Reply → Type 0
Refuses id (success i r) = ⊥
Refuses id (failure i c) = (i ≡ id) × ((c ≡ "EINVAL") ⊎ (c ≡ "EINTERNAL"))

-- a dict, or what `or {}` turns into one
abbrev pub IsParams : Json → Type 0
IsParams (Json.obj ps) = Unit
IsParams v = truthy v ≡ false

abbrev pub IsUnhashable : Json → Type 0
IsUnhashable (Json.arr vs) = Unit
IsUnhashable (Json.obj fs) = Unit
IsUnhashable _ = ⊥

module _ (decimal : ℕ → Option ℕ) (net : Call → Answer) where
  -- an exception for a verb that has no hash, a refusal without a call, or one call with validated
  -- arguments whose answer the reply reports
  abbrev pub IsOrderly : Json → Json → Json → Option Reply × List Call → Type 0
  IsOrderly id verb ps (none, cs) = (cs ≡ []) × IsUnhashable verb × IsParams ps
  IsOrderly id verb ps (some r, []) = Refuses id r × ¬ (IsUnhashable verb × IsParams ps)
  IsOrderly id verb ps (some r, c ∷ []) =
      IsSafe decimal c
      × Reports id (net c) r
      × (v : Verb) × (s : Text) × (verb ≡ Json.str s)
      × (to_verb s ≡ some v)
  IsOrderly id verb ps (some r, c ∷ d ∷ cs) = ⊥

  answered-Reports : (id : Json) (a : Answer) → Reports id a (answered decimal net id a)
  answered-Reports id (Answer.result r) = (refl, refl)
  answered-Reports id (Answer.fault code) = (refl, refl)
  answered-Reports id Answer.crash = (refl, refl)

  code-Refuses : (id : Json) (e : Error) → Refuses id (failure id (error_code e))
  code-Refuses id Error.einval = (refl, inl refl)
  code-Refuses id _ = (refl, inr refl)

  attempt-IsOrderly :
      (id ps : Json) (s : Text) (v : Verb) (r : Result Call)
      → to_verb s ≡ some v
      → Ensures (IsSafe decimal) r
      → IsOrderly id
          (Json.str s)
          ps
          (some (attempt decimal net id r).0, (attempt decimal net id r).1)
  attempt-IsOrderly id ps s v (ok c) known h = (h, answered-Reports id (net c), v, s, refl, known)
  attempt-IsOrderly id ps s v (err e) known h = (code-Refuses id e, λ n. n.0)

  run_verb-IsOrderly :
      (id verb ps : Json) (fs : Fields)
      → IsParams ps
      → IsOrderly id verb ps (run_verb decimal net id (member verb) fs)
  run_verb-IsOrderly id (Json.str s) ps fs h = elim (Option-cases (to_verb s)) [
    | inr e ↦ rw e ((refl, inl refl), λ n. n.0)
    | inl (v, e) ↦
        rw e (attempt-IsOrderly id ps s v (call decimal v fs) e (call-IsSafe decimal fs v))
  ]
  run_verb-IsOrderly id (Json.arr vs) ps fs h = (refl, tt, h)
  run_verb-IsOrderly id (Json.obj gs) ps fs h = (refl, tt, h)
  run_verb-IsOrderly id _ ps fs h = ((refl, inl refl), λ n. n.0)

  other_params-IsOrderly :
      (id verb ps : Json)
      → (truthy ps ≡ true → ¬ IsParams ps)
      → (truthy ps ≡ false → IsParams ps)
      → IsOrderly id verb ps (
          if truthy ps
          then (some (failure id "EINVAL"), [])
          else run_verb decimal net id (member verb) end)
  other_params-IsOrderly id verb ps bad good = elim (Bool-cases (truthy ps)) [
    | inl e ↦ rw e ((refl, inl refl), λ n. bad e n.1)
    | inr e ↦ rw e (run_verb-IsOrderly id verb ps end (good e))
  ]

  with_params-IsOrderly :
      (id verb ps : Json) → IsOrderly id verb ps (with_params decimal net id verb ps)
  with_params-IsOrderly id verb (Json.obj ps) = run_verb-IsOrderly id verb (Json.obj ps) ps tt
  with_params-IsOrderly id verb ps = other_params-IsOrderly id verb ps (λ e h. cc (e, h)) (λ e. e)

  -- For any request, `dispatch` does one of three things. It makes one call, with validated arguments,
  -- for a verb that it knows, and its reply has the request's id and reports what the call came back
  -- with. Or it makes no call and refuses, with the request's id and EINVAL or EINTERNAL. Or it makes
  -- no call and raises instead of replying: exactly when the verb is a list or a dict and the
  -- parameters are a dict or falsy.
  pub dispatch-IsOrderly :
      (request : Fields)
      → IsOrderly
          (get "id" request)
          (get "verb" request)
          (get "params" request)
          (dispatch decimal net request)
  unfolding dispatch
  dispatch-IsOrderly request =
      with_params-IsOrderly (get "id" request) (get "verb" request) (get "params" request)
