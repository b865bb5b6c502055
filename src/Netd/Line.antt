-- ===== src/Netd/Line.antt =====
-- labtris_netd/protocol.py: `decode_line`. `utf8` is `bytes.decode`, `strip` is `str.strip` and
-- `loads` is `json.loads`.
use labtris.Prelude.{Bytes, Text, [], ◌∷◌}
use labtris.Prelude.Result.{Result, ok, err, value_error, ◌>>=◌, ◌>>◌}
use labtris.Netd.Json.{Json, Fields, obj}

-- `if not text`
abbrev pub nonempty : Text → Result (Unit {0})
nonempty [] = err value_error
nonempty (c ∷ s) = ok tt

abbrev pub object : Json → Result Fields
object (obj fs) = ok fs
object _ = err value_error

module _ (utf8 : Bytes → Result Text) (strip : Text → Text) (loads : Text → Result Json) where
  unfoldable pub decode_line : Bytes → Result Fields
  decode_line line = do text ← utf8 line; let s = strip text; nonempty s; v ← loads s; object v
