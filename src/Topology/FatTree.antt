-- ===== src/Topology/FatTree.antt =====
-- labtris_api/topology_gen.py: `_fat_tree`, with its layout. A cell is a column and a row of the grid.
pub mod Shape
pub mod Layout
use labtris.Prelude.{text_eq}
use labtris.Prelude.{
  ℕ, zero, suc, ◌+◌, ◌*◌, ◌-◌, ◌/◌, ◌%◌, Text, codes, List, [], ◌∷◌, ◌++◌, ◌==◌, ◌&&◌, leb, not,
  if◌then◌else◌, Option, none, some, Bool,
}
use labtris.Prelude.Result.{err, bad_request, index_error}
use labtris.Naming.Device.{decimal}
use labtris.Topology.Frr.{
  Script, frr, frr_over, host, with, fattree_core_frr_conf, fattree_agg_frr_conf,
  fattree_edge_frr_conf, fattree_edge_overlay, fattree_host_setup,
}
use labtris.Topology.Builder.{
  pick, M, ◌>>=◌, ◌>>◌, return, Place, at, add_node, connect, for_range, for_each, collect,
}
use labtris.Topology.Request.{GenerateIn}
use labtris.Topology.Clos.{with_two, program_of, evpn_config}

-- `math.ceil(math.sqrt(k))`: the first number from `n` on whose square is not below `k`
pub first_root : ℕ → ℕ → ℕ → ℕ
first_root k zero n = n
first_root k (suc fuel) n =
    let later = first_root k fuel (suc n) in if leb k (n * n) then n else later

unfoldable pub ceil_sqrt : ℕ → ℕ
unfolding first_root
ceil_sqrt k = first_root k k 0

abbrev pub at_least_one : ℕ → ℕ
at_least_one n = if leb 1 n then n else 1

abbrev pub half : ℕ → ℕ
half k = k / 2

unfoldable pub pods_across : ℕ → ℕ
unfolding ceil_sqrt
pods_across k = at_least_one (ceil_sqrt k)

unfoldable pub span : ℕ → ℕ
unfolding pods_across
span k = pods_across k * (half k + 1)

unfoldable pub core_rows : ℕ → ℕ
unfolding span
core_rows k = at_least_one ((half k * half k + (span k - 1)) / span k)

-- `_pod_origin`
unfoldable pub origin_col : ℕ → ℕ → ℕ
origin_col k pod = pod % pods_across k * (half k + 1)

unfoldable pub origin_row : ℕ → ℕ → ℕ
origin_row k pod = core_rows k + 1 + pod / pods_across k * (2 + half k + 1)

unfoldable pub core_place : ℕ → ℕ → Place
core_place k i = at (i % span k) (i / span k)

unfoldable pub agg_place : ℕ → ℕ → ℕ → Place
agg_place k pod a = at (origin_col k pod + a) (origin_row k pod)

unfoldable pub edge_place : ℕ → ℕ → ℕ → Place
edge_place k pod e = at (origin_col k pod + e) (origin_row k pod + 1)

unfoldable pub host_place : ℕ → ℕ → ℕ → ℕ → Place
host_place k pod e h = at (origin_col k pod + e) (origin_row k pod + 2 + h)

-- `half_k` is k // 2
module _ (body : GenerateIn) (half_k : ℕ) where
  unfoldable pub add_core : ℕ → M ℕ
  add_core i =
      add_node (with "core-" (i + 1)) body.spine_kind (core_place body.k i)
        (program_of body.spine_kind body.p4_program)
        (evpn_config body.with_bgp_evpn body.spine_kind (fattree_core_frr_conf (i + 1) body.k))

  unfoldable pub add_agg : ℕ → ℕ → M ℕ
  add_agg pod a =
      add_node (with_two "agg-" (pod + 1) (a + 1)) body.leaf_kind (agg_place body.k pod a) none (
        evpn_config body.with_bgp_evpn body.leaf_kind
          (fattree_agg_frr_conf (pod + 1) (a + 1) body.k))

  -- an edge switch starts its overlay before FRR
  abbrev pub edge_config : ℕ → ℕ → Option Script
  edge_config pod e =
      if body.with_bgp_evpn && text_eq body.leaf_kind (codes "frr")
      then some (
          frr_over (fattree_edge_overlay (pod + 1) (e + 1) body.k)
            (fattree_edge_frr_conf (pod + 1) (e + 1) body.k))
      else none

  unfoldable pub add_edge : ℕ → ℕ → M ℕ
  add_edge pod e =
      add_node (with_two "edge-" (pod + 1) (e + 1)) body.leaf_kind (edge_place body.k pod e) none
        (edge_config pod e)

  -- the aggregation and the edge switches of a pod
  unfoldable pub add_pod : ℕ → M (List ℕ × List ℕ)
  unfolding add_agg add_edge
  add_pod pod = do
    aggs ← collect half_k (add_agg pod)
    edges ← collect half_k (add_edge pod)
    return (aggs, edges)

  abbrev pub mesh_pod : ℕ → List ℕ × List ℕ → M (Unit {0})
  mesh_pod pod (aggs, edges) = for_each aggs (λ _ a. for_each edges (λ _ e. connect a e))

  -- aggregation switch i of a pod goes to the cores i * k/2 + j
  unfoldable pub wire_core : List ℕ → ℕ → ℕ → ℕ → M (Unit {0})
  unfolding pick
  wire_core cores i a j = do core ← pick cores (i * half_k + j); connect a core

  abbrev pub wire_cores : List ℕ → ℕ → List ℕ × List ℕ → M (Unit {0})
  wire_cores cores pod (aggs, edges) = for_each aggs (λ i a. for_range half_k (wire_core cores i a))

  unfoldable pub add_pod_host : ℕ → ℕ → ℕ → ℕ → M (Unit {0})
  add_pod_host pod e edge h = do
    x ←
        add_node (with_two "h-" (pod + 1) (e + 1) ++ b'-' ∷ decimal (h + 1)) body.host_kind
          (host_place body.k pod e h) none
          (if body.with_bgp_evpn
            then some (host (fattree_host_setup (pod + 1) (e + 1) (h + 1) body.k))
            else none)
    connect edge x

  abbrev pub add_pod_hosts : ℕ → List ℕ × List ℕ → M (Unit {0})
  add_pod_hosts pod (aggs, edges) =
      for_each edges (λ e edge. for_range half_k (add_pod_host pod e edge))

  unfoldable pub fat_tree_even : M (Unit {0})
  unfolding add_core add_pod wire_core add_pod_host
  fat_tree_even = do
    cores ← collect (half_k * half_k) add_core
    pods ← collect body.k add_pod
    for_each pods mesh_pod
    for_each pods (wire_cores cores)
    for_each pods add_pod_hosts

unfoldable pub fat_tree : GenerateIn → M (Unit {0})
unfolding fat_tree_even
fat_tree body s = if body.k % 2 == 0 then fat_tree_even body (half body.k) s else err bad_request
