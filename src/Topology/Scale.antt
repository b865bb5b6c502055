-- ===== src/Topology/Scale.antt =====
-- labtris_api/topology_gen.py: `_front_end`, `_scale_across`, `_scale_above` and `_scale_edge`. What
-- `pick_subnet` gives for a NAT segment is an argument.
pub mod Fabric
pub mod Across
pub mod Above
pub mod Edge
use labtris.Prelude.{text_eq}
use labtris.Topology.Rows.{Impair, delay, preset}
use labtris.Prelude.Result.{Result}
use labtris.Ip.{Net}
use labtris.Topology.Frr.{
  Script, Plain, plain, with, dot, border_frr_conf, uplink_leaf_frr_conf, site_border_frr_conf,
  transit_frr_conf, region_border_frr_conf, edge_core_frr_conf, edge_site_frr_conf,
}
use labtris.Topology.Builder.{
  M, ◌>>=◌, ◌>>◌, return, skip, in_row, add_node, connect, connect_with, for_range, for_from,
  for_each, collect, pick, add_egress, lift,
}
use labtris.Topology.Request.{GenerateIn}
use labtris.Topology.Clos.{with_two}
use labtris.Prelude.Result.{err, bad_request}
use labtris.Prelude.{
  ◌==◌, ◌&&◌, ◌-◌, ◌++◌, ◌%◌, zero, ◌||◌, [], some, not, ◌*◌, none, suc, Bool, ltb, leb, ◌∷◌, ◌+◌,
  Option, codes, ℕ, List, Text, if◌then◌else◌,
}
use labtris.Topology.Roles.{
  plain_config, role, front_roles, edge_roles, at_least_one, max, is_preset, preset_cycle,
  edge_preset_of,
}

module _ (body : GenerateIn) where
  unfoldable pub add_border : ℕ → M ℕ
  add_border i =
      add_node (with "border-" (i + 1)) body.leaf_kind (in_row 0 i 2) none
        (plain_config body.leaf_kind (border_frr_conf (i + 1) 1))

  -- a host behind an access switch
  unfoldable pub add_service : List Text → ℕ → ℕ → ℕ → M (Unit {0})
  add_service roles row access h = do
    host ←
        add_node (role roles h h) body.host_kind (in_row row h (at_least_one body.services)) none
          none
    connect host access

  unfoldable pub front_end_with : Result Net → M (Unit {0})
  unfolding add_border add_service
  front_end_with picked = do
    borders ← collect 2 add_border
    access ← add_node (codes "access-1") body.leaf_kind (in_row 1 0 1) none none
    b0 ← pick borders 0
    b1 ← pick borders 1
    connect b0 b1
    for_each borders (λ _ border. connect border access)
    for_range body.services (add_service front_roles 2 access)
    if body.with_egress then add_egress picked borders else skip

  -- the first column of a site, and the place of a host
  abbrev pub base_col : ℕ → ℕ
  base_col site = site * (body.leaves + 1)

  abbrev pub host_col : ℕ → ℕ → ℕ → ℕ
  host_col site j h = base_col site + j * at_least_one body.hosts_per_leaf + h

  abbrev pub across_wide : ℕ
  across_wide = body.sites * (body.leaves + 1)

  unfoldable pub add_site_leaf : ℕ → ℕ → M ℕ
  add_site_leaf site j =
      let name = with "site" (site + 1) ++ with "-leaf-" (j + 1) in
      add_node name body.leaf_kind (in_row 1 (base_col site + j) across_wide) none (
        plain_config body.leaf_kind (
          uplink_leaf_frr_conf name (65120 + site * 64 + j)
            (dot (with "10.254." (site + 1)) (j + 1))))

  unfoldable pub add_site_host : ℕ → ℕ → ℕ → ℕ → M (Unit {0})
  add_site_host site j leaf h = do
    host ←
        add_node (with "site" (site + 1) ++ with_two "-h-" (j + 1) (h + 1)) body.host_kind
          (in_row 2 (host_col site j h) (across_wide * at_least_one body.hosts_per_leaf)) none none
    connect host leaf

  -- a site; its border is the result
  unfoldable pub add_site : ℕ → M ℕ
  unfolding add_site_leaf add_site_host
  add_site site = do
    border ←
        add_node (with "site" (site + 1) ++ codes "-border") body.leaf_kind
          (in_row 0 (base_col site) across_wide) none
          (plain_config body.leaf_kind
            (site_border_frr_conf (site + 1) body.leaves (if body.sites == 2 then 1 else 2)))
    leaves ← collect body.leaves (add_site_leaf site)
    for_each leaves (λ _ leaf. connect border leaf)
    for_each leaves (λ j leaf. for_range body.hosts_per_leaf (add_site_host site j leaf))
    return border

  -- hop i of the ring of sites, with a delay in each direction
  unfoldable pub add_hop : List ℕ → ℕ → M (Unit {0})
  add_hop borders i = do
    a ← pick borders i
    b ← pick borders ((i + 1) % body.sites)
    connect_with a b (some (delay body.dci_delay_ms)) (some (delay body.dci_return_delay_ms))

  abbrev pub hops : ℕ
  hops = if ltb 2 body.sites then body.sites else 1

  unfoldable pub scale_across : M (Unit {0})
  unfolding add_site add_hop
  scale_across = do borders ← collect body.sites add_site; for_range hops (add_hop borders)

  abbrev pub above_wide : ℕ
  above_wide = max (body.regions * (body.leaves + 1)) body.transits

  unfoldable pub add_transit : ℕ → M ℕ
  add_transit t =
      add_node (with "transit-" (t + 1)) body.leaf_kind (in_row 0 t body.transits) none
        (plain_config body.leaf_kind (transit_frr_conf (t + 1) (body.transits - 1 + body.regions)))

  -- `for j in range(i + 1, transits)`
  unfoldable pub mesh_transit : List ℕ → ℕ → M (Unit {0})
  unfolding for_from
  mesh_transit transits i =
      for_from (i + 1) (body.transits - (i + 1))
        (λ j. do a ← pick transits i; b ← pick transits j; connect a b)

  unfoldable pub add_region_leaf : ℕ → ℕ → M ℕ
  add_region_leaf r j =
      let name = with "region" (r + 1) ++ with "-leaf-" (j + 1) in
      add_node name body.leaf_kind (in_row 2 (base_col r + j) above_wide) none (
        plain_config body.leaf_kind
          (uplink_leaf_frr_conf name (65220 + r * 64 + j) (dot (with "10.252." (r + 1)) (j + 1))))

  unfoldable pub add_region_host : ℕ → ℕ → ℕ → ℕ → M (Unit {0})
  add_region_host r j leaf h = do
    host ←
        add_node (with "region" (r + 1) ++ with_two "-h-" (j + 1) (h + 1)) body.host_kind
          (in_row 3 (host_col r j h) (above_wide * at_least_one body.hosts_per_leaf)) none none
    connect host leaf

  abbrev pub above_delay : ℕ → ℕ
  above_delay t = body.above_delay_ms + t * body.above_delay_step_ms

  unfoldable pub add_region : List ℕ → ℕ → M (Unit {0})
  unfolding add_region_leaf add_region_host
  add_region transits r = do
    border ←
        add_node (with "region" (r + 1) ++ codes "-border") body.leaf_kind
          (in_row 1 (base_col r) above_wide) none
          (plain_config body.leaf_kind (region_border_frr_conf (r + 1) body.transits body.leaves))
    leaves ← collect body.leaves (add_region_leaf r)
    for_each transits (λ t transit.
        connect_with border transit (some (delay (above_delay t)))
          (some (delay (above_delay t + body.above_delay_step_ms))))
    for_each leaves (λ _ leaf. connect border leaf)
    for_each leaves (λ j leaf. for_range body.hosts_per_leaf (add_region_host r j leaf))

  unfoldable pub scale_above : M (Unit {0})
  unfolding add_transit mesh_transit add_region
  scale_above = do
    transits ← collect body.transits add_transit
    for_range body.transits (mesh_transit transits)
    for_range body.regions (add_region transits)

  abbrev pub edge_wide : ℕ
  edge_wide = max (max (body.edges * at_least_one body.hosts_per_edge) body.services) 2

  unfoldable pub add_edge_host : ℕ → ℕ → ℕ → M (Unit {0})
  add_edge_host e edge h = do
    host ←
        add_node (with "edge-" (e + 1) ++ with "-h" (h + 1)) body.host_kind
          (in_row 3 (e * at_least_one body.hosts_per_edge + h) edge_wide) none none
    connect host edge

  unfoldable pub add_edge_site : ℕ → ℕ → M (Unit {0})
  unfolding add_edge_host
  add_edge_site core e = do
    edge ←
        add_node (with "edge-" (e + 1)) body.leaf_kind
          (in_row 2 (e * at_least_one body.hosts_per_edge) edge_wide) none
          (plain_config body.leaf_kind (edge_site_frr_conf (e + 1)))
    connect_with edge core (some (preset (edge_preset_of body.edge_preset e)))
        (some (preset (edge_preset_of body.edge_preset e)))
    for_range body.hosts_per_edge (add_edge_host e edge)

  unfoldable pub scale_edge_with : Result Net → M (Unit {0})
  unfolding add_service add_edge_site
  scale_edge_with picked = do
    core ←
        add_node (codes "core-border") body.leaf_kind (in_row 0 0 2) none
          (plain_config body.leaf_kind (edge_core_frr_conf body.edges))
    access ← add_node (codes "core-access") body.leaf_kind (in_row 0 1 2) none (
        plain_config body.leaf_kind
          (uplink_leaf_frr_conf (codes "core-access") 65290 (codes "10.251.0.2")))
    connect core access
    for_range body.services (add_service edge_roles 1 access)
    for_range body.edges (add_edge_site core)
    if body.with_egress then add_egress picked (core ∷ []) else skip

  unfoldable pub scale_edge : Result Net → M (Unit {0})
  unfolding scale_edge_with is_preset
  scale_edge picked s =
      if not (text_eq body.edge_preset (codes "auto")) && not (is_preset body.edge_preset)
      then err bad_request
      else scale_edge_with picked s
