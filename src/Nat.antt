-- ===== src/Nat.antt =====
-- labtris_api/nat.py: the subnet of a NAT network and its DHCP pool. A row is the subnet column of a
-- network. What `ipaddress.ip_network(s, strict=False)` reads is a parameter; networks, and
-- addresses as numbers, are Ip.antt's.
pub mod Pick
pub mod Pool
mod Tests
use labtris.Prelude.{
  ℕ, zero, suc, ◌+◌, ◌*◌, ◌-◌, ◌/◌, ◌^◌, Text, List, [], ◌∷◌, Bool, true, false, ◌||◌, not, ltb,
  leb, ◌==◌, if◌then◌else◌, Option, none, some,
}
use labtris.Prelude.Result.{Result, ok, err, bad_request}
use labtris.Ip.{Net, size, contains}

-- what `ip_network` reads
pub data Parsed : Type 0 where
  v4 : Net → Parsed
  v6 : Parsed

unfoldable pub broadcast : Net → ℕ
unfolding size
broadcast n = n.base + size n.prefix - 1

-- `e.overlaps(net)` of the standard library: an end of one lies in the other. A network of the other
-- version holds no address of this one.
unfoldable pub overlaps : Parsed → Net → Bool
unfolding contains broadcast
overlaps v6 n = false
overlaps (v4 e) n =
    contains n e.base || contains n (broadcast e) || contains e n.base || contains e (broadcast n)

unfoldable pub clashes : List Parsed → Net → Bool
unfolding overlaps
clashes [] n = false
clashes (e ∷ es) n = overlaps e n || clashes es n

abbrev pub auto_prefix : ℕ
auto_prefix = 24

-- 10.200.0.0, the start of AUTO_POOL, and the number of its subnets
abbrev pub auto_base : ℕ
auto_base = 10 * 2 ^ 24 + 200 * 2 ^ 16

abbrev pub auto_count : ℕ
auto_count = 256

abbrev pub candidate : ℕ → Net
candidate i = record { base = auto_base + i * 256; prefix = auto_prefix }

-- the first candidate that is free, of the next `n` from `i` on
unfoldable pub first_free : List Parsed → ℕ → ℕ → Result Net
unfolding clashes
first_free es zero i = err bad_request
first_free es (suc n) i =
    let rest = first_free es n (suc i) in
    if not (clashes es (candidate i)) then ok (candidate i) else rest

-- a subnet that the caller asked for
unfoldable pub check_wanted : List Parsed → Option Parsed → Result Net
unfolding clashes
check_wanted es none = err bad_request
check_wanted es (some v6) = err bad_request
check_wanted es (some (v4 n)) =
    if ltb 30 n.prefix then err bad_request else if clashes es n then err bad_request else ok n

module _ (ip_network : Text → Option Parsed) where
  -- rows that do not parse are passed over
  abbrev pub add_row : Option Parsed → List Parsed → List Parsed
  add_row none es = es
  add_row (some e) es = e ∷ es

  unfoldable pub existing : List Text → List Parsed
  existing [] = []
  existing (row ∷ rows) = add_row (ip_network row) (existing rows)

  -- None and "" ask for any subnet
  unfoldable pub pick_subnet : List Text → Option Text → Result Net
  pick_subnet rows none = first_free (existing rows) auto_count 0
  pick_subnet rows (some []) = first_free (existing rows) auto_count 0
  pick_subnet rows (some (c ∷ s)) = check_wanted (existing rows) (ip_network (c ∷ s))

-- the first of `net.hosts()` and their number: /31 keeps both ends, and /32 its one address
unfoldable pub first_host : Net → ℕ
first_host n = if ltb 30 n.prefix then n.base else n.base + 1

unfoldable pub host_count : Net → ℕ
unfolding size
host_count n = if ltb 30 n.prefix then size n.prefix else size n.prefix - 2

abbrev pub min : ℕ → ℕ → ℕ
min a b = if ltb b a then b else a

abbrev pub max : ℕ → ℕ → ℕ
max a b = if ltb a b then b else a

-- `max(1, min(49, len(hosts) // 2))`
unfoldable pub pool_start : ℕ → ℕ
pool_start count = max 1 (min 49 (count / 2))

pub record DhcpPool : Type 0 where
  pub gateway : ℕ
  pub first : ℕ
  pub last : ℕ

unfoldable pub pool_for : Net → Result DhcpPool
unfolding first_host host_count pool_start
pool_for n =
    if ltb (host_count n) 2
    then err bad_request
    else ok (record {
      gateway = first_host n;
      first = first_host n + pool_start (host_count n);
      last = first_host n + (host_count n - 1);
    })
