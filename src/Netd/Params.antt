-- ===== src/Netd/Params.antt =====
-- labtris_netd/verbs.py: the tests that `_call` makes in place on a verb's parameters. `none` is
-- NetdFault("EINVAL", …).
use labtris.Prelude.{text_eq}
use labtris.Netd.Check.{require_host_ifname, checked, ◌>>=◌}
use labtris.Netd.Json.{
  get, as_dict, end, num, truthy, as_str, field, Fields, as_int, Json, null, str,
}
use text.Mathlib.Text.{◌==◌ as str_eq}
use labtris.Prelude.Int.{pos, ℤ}
use labtris.Prelude.{
  not, ◌&&◌, ◌||◌, [], ◌∷◌, none, false, ◌==◌, suc, String, true, some, if◌then◌else◌, Bool, Option,
  List, ℕ, Text,
}
use labtris.Ip.{contains, ip_address, ip_network}

-- a value that may be None
abbrev pub optional {ℓ} : {A : Type ℓ} → (Json → Option A) → Json → Option (Option A)
optional f null = some none
optional f v = do a ← f v; some (some a)

-- `isinstance(v, int) and v > 0`
abbrev pub positive_int : ℤ → Option ℕ
positive_int (pos (suc n)) = some (suc n)
positive_int _ = none

unfoldable pub positive : Json → Option ℕ
unfolding as_int
positive v = do n ← as_int v; positive_int n

-- `isinstance(v, str)` and a test
abbrev pub text_with : (Text → Bool) → Json → Option Text
text_with p v = do s ← as_str v; checked (p s) s

abbrev pub starts_with : Text → Text → Bool
starts_with [] s = true
starts_with (a ∷ p) [] = false
starts_with (a ∷ p) (b ∷ s) = a == b && starts_with p s

-- the namespaces of `netns.links`: a bool is no pid here
abbrev pub link_pid : Json → Option ℕ
link_pid (num n) = positive_int n
link_pid _ = none

unfoldable pub link_pids : Fields → Option (List (String × ℕ))
link_pids end = some []
link_pids (field k v fs) =
    let rest = link_pids fs in
    if str_eq k "" then none else do n ← link_pid v; ps ← rest; some ((k, n) ∷ ps)

unfoldable pub fields_length : Fields → ℕ
fields_length end = 0
fields_length (field k v fs) = suc (fields_length fs)

-- one of ";|&`$"
unfoldable pub is_meta : ℕ → Bool
is_meta c = c == b';' || c == b'|' || c == b'&' || c == b'`' || c == b'$'

abbrev pub none_of : (ℕ → Bool) → Text → Bool
none_of p [] = true
none_of p (c ∷ s) = not (p c) && none_of p s

-- the names of NICs, each once
abbrev pub seen_in : Text → List Text → Bool
seen_in s [] = false
seen_in s (t ∷ ts) = text_eq s t || seen_in s ts

unfoldable pub uplinks : List Text → List Json → Option (List Text)
uplinks seen [] = some []
uplinks seen (v ∷ vs) = do
  entry ← as_dict v
  nic ← require_host_ifname (get "nic" entry)
  nics ← uplinks (nic ∷ seen) vs
  checked (not (seen_in nic seen)) (nic ∷ nics)

-- "dhcp" or "manual", "nic" or "bridge": whether it is the second
abbrev pub either_text : Text → Text → Json → Option Bool
either_text a b (str s) =
    if text_eq s a then some false else if text_eq s b then some true else none
either_text a b _ = none

-- `f(v) if v else None`
abbrev pub if_truthy {ℓ} : {A : Type ℓ} → (Json → Option A) → Json → Option (Option A)
if_truthy f v = if truthy v then (do a ← f v; some (some a)) else some none

-- `v or default`
abbrev pub or_else : Json → Json → Json
or_else v d = if truthy v then v else d

abbrev pub is_inside : Text → Text → Option (Unit {0})
is_inside gateway address = do
  net ← ip_network address
  a ← ip_address gateway
  checked (contains net a) tt
