-- ===== src/Naming/Device.antt =====
-- labtris_api/naming.py: the names of host devices. The digest of a text, a number below 2 ^ 64 that
-- `hashlib.blake2b` makes of its encoding, is a parameter. Texts that have no encoding, those with a
-- lone surrogate, are outside the model.
pub mod Legal
use labtris.Prelude.{
  ℕ, zero, suc, ◌+◌, ◌-◌, ◌<◌, Text, codes, List, [], ◌∷◌, ◌++◌, Bool, true, false, ◌&&◌, ◌||◌, not,
  ltb, leb, ◌==◌, if◌then◌else◌, take, length, arith,
}
use labtris.Prelude.Int.{ℤ, pos, negsuc}
use labtris.Prelude.Result.{Result, ok, err, value_error, ◌>>=◌}
use labtris.Netd.Protocol.{is_word, matches_ifname}
use labtris.Naming.Digits.{digits}

pub data Kind : Type 0 where
  tap bridge veth vxlan : Kind

unfoldable pub prefix_of : Kind → ℕ
prefix_of tap = b't'
prefix_of bridge = b'b'
prefix_of veth = b'v'
prefix_of vxlan = b'x'

-- `str.lower`, as far as `slug` can tell: of the characters beyond ASCII two have a lower-case form
-- with an ASCII letter, U+0130 (i and a combining dot) and U+212A (k)
unfoldable pub lower_char : ℕ → Text
lower_char c =
    if leb b'A' c && leb c b'Z'
    then (c + 32) ∷ []
    else if c == 0x130
    then b'i' ∷ 0x307 ∷ []
    else if c == 0x212a
    then b'k' ∷ []
    else c ∷ []

unfoldable pub lower : Text → Text
unfolding lower_char
lower [] = []
lower (c ∷ s) = lower_char c ++ lower s

-- `_UNSAFE.sub("", s)`
unfoldable pub keep_words : Text → Text
unfolding is_word
keep_words [] = []
keep_words (c ∷ s) = if is_word c then c ∷ keep_words s else keep_words s

abbrev pub slug_max : ℕ
slug_max = 9

unfoldable pub slug : Text → ℕ → Text
unfolding keep_words lower
slug hint limit = take limit (keep_words (lower hint))

-- `max(1, n)`
abbrev pub at_least_one : ℕ → ℕ
at_least_one n = if ltb n 1 then 1 else n

unfoldable pub device_hint : Text → Text → Text
unfolding slug
device_hint owner part =
    let port = slug part 5 in slug owner (at_least_one (slug_max - length port)) ++ port

-- the characters of _ALPH
unfoldable pub alph : ℕ → ℕ
alph r = if ltb r 10 then b'0' + r else b'a' + (r - 10)

pub one-lt-36 : 1 < 36
one-lt-36 = omega arith

unfoldable pub base36 : ℤ → Result Text
unfolding digits alph
base36 (negsuc n) = err value_error
base36 (pos n) = if n == 0 then ok (b'0' ∷ []) else ok (digits 36 one-lt-36 alph n [])

pub one-lt-10 : 1 < 10
one-lt-10 = omega arith

-- the text of a number in an f-string
unfoldable pub decimal_digit : ℕ → ℕ
decimal_digit r = b'0' + r

unfoldable pub decimal : ℕ → Text
unfolding digits decimal_digit
decimal n = if n == 0 then b'0' ∷ [] else digits 10 one-lt-10 decimal_digit n []

-- `s.rjust(width, "0")`
abbrev pub zeros : ℕ → Text
zeros zero = []
zeros (suc n) = b'0' ∷ zeros n

unfoldable pub rjust : ℕ → Text → Text
rjust width s = zeros (width - length s) ++ s

-- the name before it is checked
unfoldable pub ifname_of : Kind → Text → Text → Text
unfolding prefix_of
ifname_of kind [] tail = prefix_of kind ∷ take 8 tail
ifname_of kind (c ∷ label) tail = prefix_of kind ∷ ((c ∷ label) ++ b'-' ∷ take 4 tail)

abbrev pub ifname_max : ℕ
ifname_max = 15

unfoldable pub check_ifname : Text → Result Text
check_ifname name =
    if not (matches_ifname name) || ltb ifname_max (length name) then err value_error else ok name

unfoldable pub host_ifname : (Text → ℕ) → Kind → Text → ℕ → Text → Result Text
host_ifname digest kind owner_id salt hint = do
  text ← base36 (pos (digest (owner_id ++ b':' ∷ decimal salt)))
  check_ifname (ifname_of kind (slug hint slug_max) (rjust 8 text))
