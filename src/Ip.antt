-- ===== src/Ip.antt =====
-- What the program uses of the standard `ipaddress` module, for IPv4: addresses as numbers below
-- 2 ^ 32, and networks as a network address and a prefix length.
use labtris.Prelude.{
  ℕ, ◌+◌, ◌*◌, ◌-◌, ◌/◌, ◌^◌, Text, List, [], ◌∷◌, Bool, true, false, ◌&&◌, not, ltb, leb, ◌==◌,
  if◌then◌else◌, Option, none, some, length,
}
use labtris.Netd.Protocol.{is_digit}
use labtris.Netd.Address.{split_on}
use labtris.Netd.Check.{◌>>=◌, checked}

-- ASCII digits, read in base ten
unfoldable pub number : ℕ → Text → Option ℕ
unfolding is_digit
number n [] = some n
number n (c ∷ s) = elim (is_digit c) [ true ↦ number (n * 10 + (c - b'0')) s | false ↦ none ]

-- one to three digits, with no zero in front of another digit, at most 255
unfoldable pub octet : Text → Option ℕ
unfolding number
octet [] = none
octet (c ∷ s) =
    if leb (length s) 2 && not (c == b'0' && ltb 0 (length s))
    then (do n ← number 0 (c ∷ s); checked (leb n 255) n)
    else none

abbrev pub four : List Text → Option ℕ
four (a ∷ b ∷ c ∷ d ∷ []) = do
  i ← octet a
  j ← octet b
  k ← octet c
  l ← octet d
  some (i * 2 ^ 24 + j * 2 ^ 16 + k * 2 ^ 8 + l)
four _ = none

-- `ip_address(s)`
unfoldable pub ip_address : Text → Option ℕ
unfolding octet split_on
ip_address s = four (split_on b'.' s)

pub record Net : Type 0 where
  pub base : ℕ
  pub prefix : ℕ

-- the number of addresses
unfoldable pub size : ℕ → ℕ
size prefix = 2 ^ (32 - prefix)

-- the network of an address: its host bits are dropped, as with strict=False
unfoldable pub network_of : ℕ → ℕ → Net
unfolding size
network_of a prefix = record { base = a / size prefix * size prefix; prefix = prefix }

abbrev pub slashed : List Text → Option Net
slashed (a ∷ p ∷ []) = do
  i ← ip_address a
  n ← number 0 p
  checked (ltb 0 (length p) && leb n 32) (network_of i n)
slashed _ = none

-- `ip_network(s, strict=False)` of an address and a prefix length
unfoldable pub ip_network : Text → Option Net
unfolding ip_address number network_of split_on
ip_network s = slashed (split_on b'/' s)

-- `a in net`
unfoldable pub contains : Net → ℕ → Bool
unfolding size
contains net a = leb net.base a && ltb a (net.base + size net.prefix)
