-- ===== src/UeStack/Struct.antt =====
-- What ue_stack/packet.py uses of the standard `struct` module, with `!` (network byte order): the
-- codes B, H and I, packed from a Python int and unpacked from the head of a buffer.
use labtris.Prelude.{ℕ, ◌+◌, ◌*◌, ◌/◌, ◌%◌, ◌^◌, Bytes, [], ◌∷◌, ltb, if◌then◌else◌}
use labtris.Prelude.Result.{Result, ok, err, struct_error}

-- a field that does not fit raises struct.error
unfoldable pub pack8 : ℕ → Result Bytes
pack8 n = if ltb n (2 ^ 8) then ok (n ∷ []) else err struct_error

unfoldable pub pack16 : ℕ → Result Bytes
pack16 n = if ltb n (2 ^ 16) then ok (n / 256 ∷ n % 256 ∷ []) else err struct_error

unfoldable pub pack32 : ℕ → Result Bytes
pack32 n =
    if ltb n (2 ^ 32)
    then ok (n / 2 ^ 24 ∷ n / 2 ^ 16 % 256 ∷ n / 2 ^ 8 % 256 ∷ n % 256 ∷ [])
    else err struct_error

-- a field and the bytes behind it; a short buffer raises struct.error
unfoldable pub unpack8 : Bytes → Result (ℕ × Bytes)
unpack8 [] = err struct_error
unpack8 (a ∷ b) = ok (a, b)

unfoldable pub unpack16 : Bytes → Result (ℕ × Bytes)
unpack16 (a ∷ b ∷ r) = ok (a * 256 + b, r)
unpack16 _ = err struct_error

unfoldable pub unpack32 : Bytes → Result (ℕ × Bytes)
unpack32 (a ∷ b ∷ c ∷ d ∷ r) = ok (a * 2 ^ 24 + b * 2 ^ 16 + c * 2 ^ 8 + d, r)
unpack32 _ = err struct_error
