-- ===== src/Nat/Pool.antt =====
-- The DHCP pool of a subnet.
use labtris.Prelude.{refl, zero, subst, suc, arith, ◌^◌, ◌-◌}
use labtris.Nat.{suc, DhcpPool, ok, pool_start, ℕ, host_count, first_host, pool_for, broadcast}
use labtris.Ip.{size, Net}
use labtris.Prelude.{◌-◌, ◌<◌, ◌+◌, ◌≡◌, ◌≤◌, ℕ}
use labtris.Prelude.Result.{ok}

size-four : (p : ℕ) → p ≤ 30 → 4 ≤ size p
unfolding size
size-four p h = subst (λ k. 4 ≤ 2 ^ k) {x = suc (suc (30 - p))} (omega arith) (pow-four (30 - p))
  where
    pow-four : (k : ℕ) → 4 ≤ 2 ^ suc (suc k)
    pow-four zero = omega arith
    pow-four (suc k) = omega (arith, pow-four k)

-- A subnet with a prefix of at most 30 bits has a pool: the gateway is its first address but the
-- network's own, the pool lies behind the gateway, is not empty, and ends before the broadcast
-- address.
pub pool_for-inside :
    (n : Net)
    → n.prefix ≤ 30
    → (q : DhcpPool) × (pool_for n ≡ ok q)
      × (q.gateway ≡ n.base + 1)
      × (q.gateway < q.first)
      × (q.first ≤ q.last)
      × (q.last + 1 ≡ broadcast n)
unfolding pool_for broadcast first_host host_count pool_start
pool_for-inside n h = (
  record {
    gateway = n.base + 1;
    first = n.base + 1 + pool_start (size n.prefix - 2);
    last = n.base + 1 + (size n.prefix - 3);
  },
  ground (arith, size-four n.prefix h),
  refl,
  ground (arith, size-four n.prefix h),
  ground (arith, size-four n.prefix h),
  ground (arith, size-four n.prefix h),
)
