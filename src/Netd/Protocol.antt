-- ===== src/Netd/Protocol.antt =====
-- labtris_netd/protocol.py: the gate for interface names (naming.py has the same pattern) and the
-- frames of the socket.
pub mod Gate
pub mod Frames
use labtris.Prelude.{
  ℕ, zero, suc, Bytes, Text, List, [], ◌∷◌, ◌++◌, Bool, true, false, ◌&&◌, ◌||◌, not, ltb, leb,
  ◌==◌, if◌then◌else◌,
}
use labtris.Prelude.Result.{Result, ok, err, Error}

-- [0-9] and [0-9a-z]
unfoldable pub is_digit : ℕ → Bool
is_digit c = leb b'0' c && leb c b'9'

unfoldable pub is_word : ℕ → Bool
unfolding is_digit
is_word c = is_digit c || (leb b'a' c && leb c b'z')

abbrev pub newline : ℕ
newline = 10

-- `$` in Python's `re`: the end of the text, or the place before a last newline
unfoldable pub at_end : Text → Bool
at_end [] = true
at_end (c ∷ []) = c == newline
at_end (c ∷ d ∷ s) = false

-- (t|b|v|x)
unfoldable pub is_kind : ℕ → Bool
is_kind c = c == b't' || c == b'b' || c == b'v' || c == b'x'

-- [0-9a-z]{n}$
unfoldable pub word_run : ℕ → Text → Bool
unfolding is_word at_end
word_run zero s = at_end s
word_run (suc n) [] = false
word_run (suc n) (c ∷ s) = is_word c && word_run n s

-- [0-9a-z]{0,n}-[0-9a-z]{4}$
unfoldable pub label_run : ℕ → Text → Bool
unfolding word_run
label_run n [] = false
label_run zero (c ∷ s) = c == b'-' && word_run 4 s
label_run (suc n) (c ∷ s) = if c == b'-' then word_run 4 s else is_word c && label_run n s

-- [0-9a-z]{1,9}-[0-9a-z]{4}$
unfoldable pub readable : Text → Bool
unfolding label_run
readable [] = false
readable (c ∷ s) = is_word c && label_run 8 s

-- `IFNAME_RE.match(s)`
unfoldable pub matches_ifname : Text → Bool
unfolding is_kind readable
matches_ifname [] = false
matches_ifname (c ∷ s) = is_kind c && (word_run 8 s || readable s)

-- `bytes.strip()` leaves nothing
unfoldable pub is_blank : Bytes → Bool
is_blank [] = true
is_blank (c ∷ s) = (leb 9 c && leb c 13 || c == 32) && is_blank s

-- `FrameDecoder.feed`, over what `decode_line` makes of a line. `line` is what stands before the next
-- newline: the recursion over the buffer is the search for it. The second part is the new `_buf`.
module _ {Msg : Type 0} (decode_line : Bytes → Result Msg) where
  abbrev add_frame :
      Result Msg
      → (List Msg → Result (List Msg) × Bytes)
      → List Msg
      → Bytes
      → Result (List Msg) × Bytes
  add_frame (ok m) k frames rest = k (frames ++ m ∷ [])
  add_frame (err e) k frames rest = (err e, rest)

  unfoldable pub scan : List Msg → Bytes → Bytes → Result (List Msg) × Bytes
  scan frames line [] = (ok frames, line)
  scan frames line (c ∷ rest) = elim (c == newline) [
    | false ↦ scan frames (line ++ c ∷ []) rest
    | true ↦ elim (is_blank line) [
      | true ↦ scan frames [] rest
      | false ↦
          add_frame (decode_line (line ++ newline ∷ [])) (λ frames'. scan frames' [] rest) frames
            rest
    ]
  ]

  -- `buf` holds no newline when the call starts: what it holds is the start of a line
  unfoldable pub feed : Bytes → Bytes → Result (List Msg) × Bytes
  feed buf bytes = scan [] [] (buf ++ bytes)
