-- ===== src/Netd/Check.antt =====
-- labtris_netd/verbs.py: the validators. `none` stands for NetdFault("EINVAL", …), which is what each
-- of them raises.
use labtris.Prelude.{
  ℕ, zero, suc, Text, codes, List, [], ◌∷◌, Bool, true, false, ◌&&◌, ◌||◌, not, leb, ◌==◌,
  if◌then◌else◌, Option, none, some, text_eq,
}
use labtris.Prelude.Int.{ℤ, pos, negsuc}
use labtris.Netd.Protocol.{is_digit, at_end, matches_ifname}
use labtris.Netd.Json.{Json, null, as_str, as_int, as_list}

infixl 5 ◌>>=◌ ◌>>◌
abbrev pub ◌>>=◌ {ℓ κ} : {A : Type ℓ} {B : Type κ} → Option A → (A → Option B) → Option B
none >>= f = none
some a >>= f = f a

abbrev pub ◌>>◌ {ℓ} : {B : Type ℓ} → Option (Unit {0}) → Option B → Option B
m >> k = m >>= λ _. k

-- `if not b: raise NetdFault`
abbrev pub require : Bool → Option (Unit {0})
require true = some tt
require false = none

-- the value with a test
abbrev pub checked {ℓ} : {A : Type ℓ} → Bool → A → Option A
checked true a = some a
checked false a = none

-- [class]{0,n}$
unfoldable pub class_run : (ℕ → Bool) → ℕ → Text → Bool
unfolding at_end
class_run p zero s = at_end s
class_run p (suc n) [] = true
class_run p (suc n) (c ∷ s) = at_end (c ∷ s) || (p c && class_run p n s)

-- [A-Za-z0-9]
unfoldable pub is_alnum : ℕ → Bool
unfolding is_digit
is_alnum c = is_digit c || (leb b'a' c && leb c b'z') || (leb b'A' c && leb c b'Z')

-- [A-Za-z0-9_.@:-]
unfoldable pub is_host_char : ℕ → Bool
unfolding is_alnum
is_host_char c = is_alnum c || c == b'_' || c == b'.' || c == b'@' || c == b':' || c == b'-'

-- `HOST_IFNAME_RE.match`
unfoldable pub matches_host_ifname : Text → Bool
unfolding is_host_char class_run
matches_host_ifname [] = false
matches_host_ifname (c ∷ s) = is_alnum c && class_run is_host_char 14 s

-- [A-Za-z0-9_-] and `KEY_RE.match`
unfoldable pub is_key_char : ℕ → Bool
unfolding is_alnum
is_key_char c = is_alnum c || c == b'_' || c == b'-'

unfoldable pub matches_key : Text → Bool
unfolding is_key_char class_run
matches_key [] = false
matches_key (c ∷ s) = is_key_char c && class_run is_key_char 63 s

-- [A-Za-z0-9._:\-] and `_TARGET_RE.match`
unfoldable pub is_target_char : ℕ → Bool
unfolding is_alnum
is_target_char c = is_alnum c || c == b'.' || c == b'_' || c == b':' || c == b'-'

unfoldable pub matches_target : Text → Bool
unfolding is_target_char class_run
matches_target [] = false
matches_target (c ∷ s) = is_target_char c && class_run is_target_char 252 s

-- [0-9a-fA-F] and `MAC_RE.match`: `n` pairs with a colon, and one more
unfoldable pub is_hex : ℕ → Bool
unfolding is_digit
is_hex c = is_digit c || (leb b'a' c && leb c b'f') || (leb b'A' c && leb c b'F')

unfoldable pub mac_run : ℕ → Text → Bool
unfolding is_hex at_end
mac_run zero (a ∷ b ∷ s) = is_hex a && is_hex b && at_end s
mac_run (suc n) (a ∷ b ∷ c ∷ s) = is_hex a && is_hex b && c == b':' && mac_run n s
mac_run _ _ = false

unfoldable pub matches_mac : Text → Bool
unfolding mac_run
matches_mac s = mac_run 5 s

unfoldable pub require_ifname : Json → Option Text
require_ifname v = do s ← as_str v; checked (matches_ifname s) s

unfoldable pub require_host_ifname : Json → Option Text
require_host_ifname v = do
  s ← as_str v
  require (matches_host_ifname s)
  checked (not (text_eq s (codes "lo"))) s

unfoldable pub require_key : Json → Option Text
require_key v = do s ← as_str v; checked (matches_key s) s

abbrev pub within : ℕ → ℕ → ℤ → Option ℕ
within lo hi (pos n) = checked (leb lo n && leb n hi) n
within lo hi (negsuc n) = none

-- `isinstance(v, int) and lo <= v <= hi`
unfoldable pub int_in : ℕ → ℕ → Json → Option ℕ
unfolding as_int
int_in lo hi v = do n ← as_int v; within lo hi n

unfoldable pub require_prefix : Json → Option ℕ
unfolding int_in
require_prefix = int_in 0 32

unfoldable pub require_vid : Json → Option ℕ
unfolding int_in
require_vid = int_in 1 4094

abbrev pub traverse {ℓ κ} : {A : Type ℓ} {B : Type κ} → (A → Option B) → List A → Option (List B)
traverse f [] = some []
traverse f (a ∷ as') = do b ← f a; bs ← traverse f as'; some (b ∷ bs)

abbrev pub is_null : Json → Bool
is_null null = true
is_null _ = false

unfoldable pub require_vids : Json → Option (List ℕ)
unfolding require_vid
require_vids v = if is_null v then some [] else do vs ← as_list v; traverse require_vid vs
