-- ===== src/Nat/Tests.antt =====
-- Runs of the subnets at concrete inputs.
use labtris.Ip.{network_of, Net, ip_network}
use labtris.Nat.{
  check_wanted, first_free, bad_request, [], err, true, false, ok, some, none, List, Text, Option,
  pick_subnet, clashes, existing, candidate, pool_for, broadcast, Parsed, v4, DhcpPool,
}
use labtris.Nat.Pick.{Apart, pick_subnet-Apart, pick_subnet-finds}
use labtris.Nat.Pool.{pool_for-inside}
use labtris.Prelude.{
  refl, ◌<◌, [], ◌+◌, arith, ◌∷◌, true, false, ◌≤◌, codes, some, ◌≡◌, All, none, List, Text, Option,
}
use labtris.Prelude.Result.{bad_request, err, ok, succeeds}

-- IPv4 networks with a prefix length
abbrev as_v4 : Option Net → Option Parsed
as_v4 none = none
as_v4 (some n) = some (v4 n)

abbrev parse : Text → Option Parsed
parse s = as_v4 (ip_network s)

abbrev rows : List Text
rows = codes "10.200.0.0/24" ∷ codes "nonsense" ∷ codes "10.200.1.128/25" ∷ []

abbrev picked : Net
picked = candidate 2

picks_third : pick_subnet parse rows none ≡ ok picked
unfolding pick_subnet ip_network first_free existing check_wanted network_of
picks_third = refl

pick_subnet-Apart_example : All (Apart picked) (existing parse rows) × (picked.prefix ≤ 30)
pick_subnet-Apart_example = pick_subnet-Apart parse rows none picks_third

third_free : clashes (existing parse rows) (candidate 2) ≡ false
unfolding clashes existing ip_network
third_free = refl

pick_subnet-finds_example : succeeds (pick_subnet parse rows none) ≡ true
pick_subnet-finds_example = pick_subnet-finds parse rows 2 (omega arith) third_free

pool_for-inside_example :
    (q : DhcpPool) × (pool_for picked ≡ ok q)
    × (q.gateway ≡ picked.base + 1)
    × (q.gateway < q.first)
    × (q.first ≤ q.last)
    × (q.last + 1 ≡ broadcast picked)
pool_for-inside_example = pool_for-inside picked (omega arith)

refused : pick_subnet parse rows (some (codes "10.200.1.0/24")) ≡ err bad_request
unfolding pick_subnet ip_network first_free existing check_wanted network_of
refused = refl

pool_of_24 :
    pool_for (candidate 0)
    ≡ ok (record { gateway = 180879361; first = 180879410; last = 180879614 })
unfolding pool_for
pool_of_24 = refl
