-- ===== src/Netd/Session/Auth.antt =====
-- Nothing is called before the token has been seen.
use labtris.Prelude.{
  All-append, Bool-cases, ℕ, Text, codes, List, [], ◌∷◌, Bool, true, false, Option, none, some, ◌≡◌,
  ◌≢◌, inl, inr, refl, All,
}
use labtris.Netd.Json.{Json, Fields, get}
use labtris.Netd.Call.{Call}
use labtris.Netd.Dispatch.{Answer}
use labtris.Netd.Session.{
  unlock, locked, closed, Event, made, is_text, token_matches, try_unlock, handle_frame, handle,
}

-- an event that is no call on the kernel
abbrev pub NoCall : Event → Type 0
NoCall (made c) = ⊥
NoCall _ = Unit

-- a frame that opens a connection with this token
pub record Opens (token : Text) (frame : Fields) : Type 0 where
  pub verb : is_text (codes "auth") (get "verb" frame) ≡ true
  pub matches : token_matches token (get "params" frame) ≡ some true

unlock-closed :
    (id : Json) (o : Option Bool)
    → o ≢ some true
    → ((unlock id o).0 ≡ closed) × All NoCall (unlock id o).1
unlock-closed id none n = (refl, tt)
unlock-closed id (some true) n = absurd (n refl)
unlock-closed id (some false) n = (refl, (tt, tt))

-- a first frame that does not show the token closes the connection
try_unlock-closed :
    (token : Text) (frame : Fields)
    → ¬ Opens token frame
    → ((try_unlock token frame).0 ≡ closed) × All NoCall (try_unlock token frame).1
unfolding try_unlock
try_unlock-closed token frame no_token =
    elim (Bool-cases (is_text (codes "auth") (get "verb" frame))) [
      | inl v ↦ rw v (
          unlock-closed (get "id" frame) (token_matches token (get "params" frame))
            (λ m. no_token (record { verb = v; matches = m })))
      | inr v ↦ rw v (refl, (tt, tt))
    ]

module _ (decimal : ℕ → Option ℕ) (net : Call → Answer) (token : Text) where
  handle-closed : (frames : List Fields) → handle decimal net token closed frames ≡ (closed, [])
  unfolding handle
  handle-closed [] = refl
  handle-closed (frame ∷ frames) = rw (handle-closed frames)

  -- A connection that waits for a token, and whose first frame does not show it, makes no call,
  -- whatever frames follow, and ends up closed.
  pub handle-locked :
      (frame : Fields) (frames : List Fields)
      → ¬ Opens token frame
      → All NoCall (handle decimal net token locked (frame ∷ frames)).1
        × ((handle decimal net token locked (frame ∷ frames)).0 ≡ closed)
  unfolding handle handle_frame
  handle-locked frame frames no_token =
      let (shut, quiet) = try_unlock-closed token frame no_token in
      (
        rw (shut, handle-closed frames) (All-append NoCall (try_unlock token frame).1 [] quiet tt),
        rw (shut, handle-closed frames),
      )
