-- ===== src/Netd/Protocol/Frames.antt =====
-- How a stream is cut into frames does not depend on how it arrives.
use labtris.Prelude.{
  All-append, sym, ◌∙◌, subst, All, inl, inr, Bool-cases, Bytes, List, [], ◌∷◌, ◌++◌, false, ◌≡◌,
  arith, ◌==◌,
}
use labtris.Netd.Protocol.{ok, Result, newline, is_blank, scan, feed}
use labtris.Prelude.Result.{Result-cases, ok, Result}
use mathlib.Core.List.{append_assoc, append-nil}

-- a line that has no end yet
abbrev pub Unbroken : Bytes → Type 0
Unbroken = All (λ c. (c == newline) ≡ false)

module _ {Msg : Type 0} (decode_line : Bytes → Result Msg) where
  -- a scan that stops without an exception goes on where it stopped
  scan-append :
      (fs gs : List Msg) (line a b rest : Bytes)
      → scan decode_line fs line a ≡ (ok gs, rest)
      → scan decode_line fs line (a ++ b) ≡ scan decode_line gs rest b
  unfolding scan
  scan-append fs gs line [] b rest h = ground arith
  scan-append fs gs line (c ∷ a) b rest h =
      elim (Result-cases (decode_line (line ++ newline ∷ []))) [
        | inl (m, e) ↦ ground (
          arith,
          e,
          scan-append fs gs (line ++ c ∷ []) a b rest,
          scan-append fs gs [] a b rest,
          scan-append (fs ++ m ∷ []) gs [] a b rest,
        )
        | inr (x, e) ↦
            ground
              (arith, e, scan-append fs gs (line ++ c ∷ []) a b rest, scan-append fs gs [] a b rest)
      ]

  -- frames found before only stand in front
  scan-front :
      (fs gs hs : List Msg) (line a rest : Bytes)
      → scan decode_line gs line a ≡ (ok hs, rest)
      → scan decode_line (fs ++ gs) line a ≡ (ok (fs ++ hs), rest)
  unfolding scan
  scan-front fs gs hs line [] rest h = ground arith
  scan-front fs gs hs line (c ∷ a) rest h =
      elim (Result-cases (decode_line (line ++ newline ∷ []))) [
        | inl (m, e) ↦ ground (
          arith,
          e,
          append_assoc fs gs (m ∷ []),
          scan-front fs gs hs (line ++ c ∷ []) a rest,
          scan-front fs gs hs [] a rest,
          scan-front fs (gs ++ m ∷ []) hs [] a rest,
        )
        | inr (x, e) ↦
            ground
              (arith, e, scan-front fs gs hs (line ++ c ∷ []) a rest, scan-front fs gs hs [] a rest)
      ]

  scan-Unbroken :
      (fs gs : List Msg) (line a rest : Bytes)
      → Unbroken line
      → scan decode_line fs line a ≡ (ok gs, rest)
      → Unbroken rest
  unfolding scan
  scan-Unbroken fs gs line [] rest u h = subst Unbroken (ground arith) u
  scan-Unbroken fs gs line (c ∷ a) rest u h = elim (Bool-cases (c == newline)) [
    | inr n ↦
        scan-Unbroken fs gs (line ++ c ∷ []) a rest
          (All-append (λ b. (b == newline) ≡ false) line (c ∷ []) u (n, tt)) (ground arith)
    | inl n ↦ elim (Bool-cases (is_blank line)) [
      | inl k ↦ scan-Unbroken fs gs [] a rest tt (ground arith)
      | inr k ↦ elim (Result-cases (decode_line (line ++ newline ∷ []))) [
        | inl (m, e) ↦ scan-Unbroken (fs ++ m ∷ []) gs [] a rest tt (ground (arith, e))
        | inr (x, e) ↦ absurd (ground (arith, e))
      ]
    ]
  ]

  -- a line so far is read in one go
  scan-line :
      (fs : List Msg) (line part a : Bytes)
      → Unbroken part
      → scan decode_line fs line (part ++ a) ≡ scan decode_line fs (line ++ part) a
  unfolding scan
  scan-line fs line [] a u = rw append-nil
  scan-line fs line (c ∷ part) a (n, u) =
      rw (n, scan) (scan-line fs (line ++ c ∷ []) part a u ∙ simp append_assoc)

  -- Feeding a stream in two pieces gives the frames that feeding it whole gives, and leaves the same
  -- buffer, if neither piece raises; and that buffer holds no whole line.
  pub feed-append :
      (buf a b mid rest : Bytes) (xs ys : List Msg)
      → feed decode_line buf a ≡ (ok xs, mid)
      → feed decode_line mid b ≡ (ok ys, rest)
      → (feed decode_line buf (a ++ b) ≡ (ok (xs ++ ys), rest)) × Unbroken rest
  unfolding feed
  feed-append buf a b mid rest xs ys h k =
      let u = scan-Unbroken [] xs [] (buf ++ a) mid tt h in
      let k' : scan decode_line [] mid b ≡ (ok ys, rest) = sym (scan-line [] [] mid b u) ∙ k in
      (
        rw (sym (append_assoc buf a b)) (
            scan-append [] xs [] (buf ++ a) b mid h
            ∙ subst (λ z. scan decode_line z mid b ≡ (ok (xs ++ ys), rest)) (append-nil xs)
                (scan-front xs [] ys mid b rest k')),
        scan-Unbroken [] ys mid b rest u k',
      )
