-- ===== src/Netd/Session.antt =====
-- labtris_netd/__main__.py: `handle`, one connection. A frame is a decoded request. Reading and
-- decoding are Netd/Protocol.antt's.
pub mod Auth
use labtris.Prelude.{text_eq}
use labtris.Prelude.{
  ℕ, Text, codes, List, [], ◌∷◌, ◌++◌, Bool, true, false, ◌&&◌, Option, none, some, map,
  if◌then◌else◌,
}
use labtris.Netd.Json.{Json, Fields, str, obj, get, truthy}
use labtris.Netd.Call.{Call}
use labtris.Netd.Dispatch.{Answer, Reply, dispatch}

pub data Phase : Type 0 where
  -- the token has not been seen yet, which frames are served, the writer is closed
  locked serving closed : Phase

-- what the connection does, in order
pub data Event : Type 0 where
  -- {"ok": True, "result": {}} and EAUTH
  welcome : Json → Event
  refused : Json → Event
  made : Call → Event
  replied : Reply → Event

-- `v == t` for a text
unfoldable pub is_text : Text → Json → Bool
is_text t (str s) = text_eq s t
is_text t _ = false

-- `(frame.get("params") or {}).get("token") == token`; `none` is an AttributeError
abbrev pub token_matches : Text → Json → Option Bool
token_matches t (obj ps) = some (is_text t (get "token" ps))
token_matches t ps = if truthy ps then none else some false

-- the first frame of a locked connection: a wrong one closes it, and so does an exception
abbrev pub unlock : Json → Option Bool → Phase × List Event
unlock id (some true) = (serving, welcome id ∷ [])
unlock id (some false) = (closed, refused id ∷ [])
unlock id none = (closed, [])

unfoldable pub try_unlock : Text → Fields → Phase × List Event
try_unlock t frame = unlock (get "id" frame) (
    if is_text (codes "auth") (get "verb" frame)
    then token_matches t (get "params" frame)
    else some false)

module _ (decimal : ℕ → Option ℕ) (net : Call → Answer) (token : Text) where
  -- a served frame; an exception that leaves `dispatch` closes the connection
  abbrev pub serve : Option Reply × List Call → Phase × List Event
  serve (some r, cs) = (serving, map made cs ++ replied r ∷ [])
  serve (none, cs) = (closed, map made cs)

  unfoldable pub handle_frame : Phase → Fields → Phase × List Event
  handle_frame locked frame = try_unlock token frame
  handle_frame serving frame = serve (dispatch decimal net frame)
  handle_frame closed frame = (closed, [])

  unfoldable pub handle : Phase → List Fields → Phase × List Event
  unfolding handle_frame
  handle phase [] = (phase, [])
  handle phase (frame ∷ frames) =
      let (phase', events) = handle_frame phase frame in
      let (last, later) = handle phase' frames in (last, events ++ later)

-- a connection that needs no token serves from the start
unfoldable pub start_phase : Option Text → Phase
start_phase none = serving
start_phase (some t) = locked
