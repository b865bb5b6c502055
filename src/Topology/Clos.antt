-- ===== src/Topology/Clos.antt =====
-- labtris_api/topology_gen.py: `_spine_leaf` and `_rail_optimised`.
pub mod Shape
pub mod Sessions
use labtris.Prelude.{text_eq}
use labtris.Prelude.{
  String, ℕ, suc, ◌+◌, ◌*◌, Text, codes, List, [], ◌∷◌, ◌++◌, ◌&&◌, if◌then◌else◌, Option, none,
  some, Bool,
}
use labtris.Naming.Device.{decimal}
use labtris.Topology.Frr.{
  Script, Router, frr, with, spine_frr_conf, leaf_frr_conf, rail_spine_frr_conf, rail_host_frr_conf,
}
use labtris.Topology.Builder.{
  M, ◌>>=◌, ◌>>◌, in_row, add_node, connect, for_range, for_each, collect,
}
use labtris.Topology.Request.{GenerateIn}

-- `f"{pre}{i}-{j}"`
abbrev pub with_two : String → ℕ → ℕ → Text
with_two pre i j = with pre i ++ b'-' ∷ decimal j

-- what a bmv2 switch runs
abbrev pub program_of : Text → Text → Option Text
program_of kind p4_program = if text_eq kind (codes "bmv2") then some p4_program else none

-- a router's configuration where it is asked for and the kind is "frr"
abbrev pub evpn_config : Bool → Text → Router → Option Script
evpn_config asked kind r = if asked && text_eq kind (codes "frr") then some (frr r) else none

module _ (body : GenerateIn) where
  unfoldable pub add_spine : ℕ → M ℕ
  add_spine i =
      add_node (with "spine-" (i + 1)) body.spine_kind (in_row 0 i body.spines)
        (program_of body.spine_kind body.p4_program)
        (evpn_config body.with_bgp_evpn body.spine_kind (spine_frr_conf (i + 1) body.leaves))

  unfoldable pub add_leaf : ℕ → M ℕ
  add_leaf j =
      add_node (with "leaf-" (j + 1)) body.leaf_kind (in_row 1 j body.leaves) none
        (evpn_config body.with_bgp_evpn body.leaf_kind (leaf_frr_conf (j + 1) body.spines))

  -- a host and its uplink
  unfoldable pub add_leaf_host : ℕ → ℕ → ℕ → M (Unit {0})
  add_leaf_host j leaf h = do
    host ←
        add_node (with_two "h-" (j + 1) (h + 1)) body.host_kind
          (in_row 2 (j * body.hosts_per_leaf + h) (body.leaves * body.hosts_per_leaf)) none none
    connect leaf host

  unfoldable pub spine_leaf : M (Unit {0})
  unfolding add_spine add_leaf add_leaf_host
  spine_leaf = do
    spines ← collect body.spines add_spine
    leaves ← collect body.leaves add_leaf
    for_each spines (λ _ s. for_each leaves (λ _ l. connect s l))
    for_each leaves (λ j leaf. for_range body.hosts_per_leaf (add_leaf_host j leaf))

  unfoldable pub add_rail_host : ℕ → ℕ → ℕ → M (Unit {0})
  add_rail_host r spine h = do
    host ←
        add_node (with_two "h-r" (r + 1) (h + 1)) body.host_kind
          (in_row 1 (r * body.hosts_per_rail + h) (body.rails * body.hosts_per_rail)) none
          (evpn_config body.with_bgp_evpn body.host_kind (rail_host_frr_conf (r + 1) (h + 1)))
    connect spine host

  unfoldable pub add_rail : ℕ → M (Unit {0})
  unfolding add_rail_host
  add_rail r = do
    spine ←
        add_node (with "spine-r" (r + 1)) body.spine_kind (in_row 0 r body.rails)
          (program_of body.spine_kind body.p4_program)
          (evpn_config body.with_bgp_evpn body.spine_kind
            (rail_spine_frr_conf (r + 1) body.hosts_per_rail))
    for_range body.hosts_per_rail (add_rail_host r spine)

  unfoldable pub rail_optimised : M (Unit {0})
  unfolding add_rail
  rail_optimised = for_range body.rails add_rail
