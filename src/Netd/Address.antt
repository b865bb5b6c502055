-- ===== src/Netd/Address.antt =====
-- labtris_netd/verbs.py: the validators of addresses. `decimal` is the property of the Unicode
-- database that `\d` and `int` go by: the value of a character that is a decimal digit, in any
-- script.
use labtris.Prelude.{
  ℕ, ◌+◌, ◌*◌, ◌-◌, Text, List, [], ◌∷◌, Bool, true, false, ◌&&◌, ◌||◌, ltb, leb, ◌==◌,
  if◌then◌else◌, Option, none, some,
}
use labtris.Netd.Protocol.{at_end}
use labtris.Netd.Json.{Json, as_str, as_list, as_dict, get}
use labtris.Netd.Check.{◌>>=◌, ◌>>◌, require, checked, traverse, matches_mac, is_null}

-- a character in front of the first part
abbrev pub push : ℕ → List Text → List Text
push d [] = (d ∷ []) ∷ []
push d (t ∷ ts) = (d ∷ t) ∷ ts

-- `s.split(c)`
unfoldable pub split_on : ℕ → Text → List Text
split_on c [] = [] ∷ []
split_on c (d ∷ s) = if d == c then [] ∷ split_on c s else push d (split_on c s)

abbrev pub head_part : List Text → Text
head_part [] = []
head_part (t ∷ ts) = t

abbrev pub is_some {ℓ} : {A : Type ℓ} → Option A → Bool
is_some none = false
is_some (some a) = true

module _ (decimal : ℕ → Option ℕ) where
  abbrev pub is_decimal : ℕ → Bool
  is_decimal c = is_some (decimal c)

  -- (\d{1,3}\.){g}\d{1,3} with `room` digits left in this octet (3 before its first), then `stop`
  unfoldable pub octets : (Text → Bool) → ℕ → ℕ → Text → Bool
  octets stop g room [] = g == 0 && ltb room 3 && stop []
  octets stop g room (c ∷ s) = elim (is_decimal c && ltb 0 room) [
    | true ↦ octets stop g (room - 1) s
    | false ↦ elim (c == b'.' && ltb room 3 && ltb 0 g) [
      | true ↦ octets stop (g - 1) 3 s
      | false ↦ g == 0 && ltb room 3 && stop (c ∷ s)
    ]
  ]

  -- `IPV4_RE.match`
  unfoldable pub matches_ipv4 : Text → Bool
  unfolding octets at_end
  matches_ipv4 = octets at_end 3 3

  -- /(3[0-2]|[12]?\d)$
  unfoldable pub prefix_end : Text → Bool
  unfolding at_end
  prefix_end (slash ∷ a ∷ []) = slash == b'/' && is_decimal a
  prefix_end (slash ∷ a ∷ b ∷ s) =
      slash == b'/'
      && (a == b'3' && leb b'0' b && leb b b'2' && at_end s
          || (a == b'1' || a == b'2') && is_decimal b && at_end s
          || is_decimal a && at_end (b ∷ s))
  prefix_end _ = false

  -- `CIDR_RE.match`
  unfoldable pub matches_cidr : Text → Bool
  unfolding octets prefix_end
  matches_cidr = octets prefix_end 3 3

  -- `int(part)`: of a part that the pattern has passed, so digits, and perhaps the last newline,
  -- which `int` strips
  unfoldable pub to_int : ℕ → Text → ℕ
  to_int n [] = n
  to_int n (c ∷ s) = elim (decimal c) [ some d ↦ to_int (n * 10 + d) s | none ↦ to_int n s ]

  -- not any(int(part) > 255 for part in …)
  unfoldable pub all_octets : List Text → Bool
  unfolding to_int
  all_octets [] = true
  all_octets (part ∷ parts) = leb (to_int 0 part) 255 && all_octets parts

  unfoldable pub require_ipv4 : Json → Option Text
  require_ipv4 v = do
    s ← as_str v
    require (matches_ipv4 s)
    checked (all_octets (split_on b'.' s)) s

  unfoldable pub require_cidr : Json → Option Text
  require_cidr v = do
    s ← as_str v
    require (matches_cidr s)
    checked (all_octets (split_on b'.' (head_part (split_on b'/' s)))) s

  -- one reservation: its MAC and its address
  unfoldable pub require_host : Json → Option (Text × Text)
  require_host v = do
    entry ← as_dict v
    mac ← as_str (get "mac" entry)
    require (matches_mac mac)
    ip ← require_ipv4 (get "ip" entry)
    some (mac, ip)

  unfoldable pub require_hosts : Json → Option (List (Text × Text))
  unfolding require_host
  require_hosts v = if is_null v then some [] else do vs ← as_list v; traverse require_host vs
