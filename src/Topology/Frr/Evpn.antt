-- ===== src/Topology/Frr/Evpn.antt =====
-- labtris_api/topology_gen.py: the routers of an EVPN underlay.
use labtris.Prelude.{◌-◌, ℕ, ◌+◌, ◌/◌, Text, codes, List, [], ◌∷◌, ◌++◌, map, Bool, true, false}
use labtris.Naming.Device.{decimal}
use labtris.Topology.Frr.Lines.{with, dot, unlines, join_lines, range_from, range}

-- `neighbor eth{port} interface remote-as {remote_as}`
pub record Neighbor : Type 0 where
  pub port : ℕ
  pub remote_as : Text

-- a router of an EVPN underlay
pub record Router : Type 0 where
  pub hostname : Text
  pub asn : Text
  pub router_id : Text
  pub multipath : Bool
  pub neighbors : List Neighbor
  -- the ports of the "neighbor eth{i} activate" lines
  pub active : List ℕ
  -- "advertise-all-vni" stands under them
  pub advertise : Bool

abbrev pub peer : Text → ℕ → Neighbor
peer remote_as port = record { port = port; remote_as = remote_as }

unfoldable pub spine_frr_conf : ℕ → ℕ → Router
unfolding range_from
spine_frr_conf idx leaves = record {
  hostname = with "spine-" idx;
  asn = codes "65000";
  router_id = with "10.0.0." idx;
  multipath = true;
  neighbors = map (λ i. peer (with "6500" (i + 1)) i) (range leaves);
  active = range leaves;
  advertise = true;
}

unfoldable pub leaf_frr_conf : ℕ → ℕ → Router
unfolding range_from
leaf_frr_conf idx spines = record {
  hostname = with "leaf-" idx;
  asn = decimal (65000 + idx);
  router_id = with "10.0.0." (100 + idx);
  multipath = true;
  neighbors = map (peer (codes "65000")) (range spines);
  active = range spines;
  advertise = true;
}

unfoldable pub rail_spine_frr_conf : ℕ → ℕ → Router
unfolding range_from
rail_spine_frr_conf rail hosts = record {
  hostname = with "spine-r" rail;
  asn = decimal (64700 + rail);
  router_id = with "10." rail ++ codes ".0.1";
  multipath = false;
  neighbors = map (peer (decimal (64700 + rail))) (range hosts);
  active = range hosts;
  advertise = true;
}

unfoldable pub rail_host_frr_conf : ℕ → ℕ → Router
rail_host_frr_conf rail host = record {
  hostname = with "h-r" rail ++ b'-' ∷ decimal host;
  asn = decimal (64700 + rail);
  router_id = dot (with "10." rail) host ++ codes ".1";
  multipath = false;
  neighbors = peer (decimal (64700 + rail)) 0 ∷ [];
  active = 0 ∷ [];
  advertise = false;
}

unfoldable pub fattree_core_frr_conf : ℕ → ℕ → Router
unfolding range_from
fattree_core_frr_conf idx k = record {
  hostname = with "core-" idx;
  asn = codes "65000";
  router_id = with "10.255.0." idx;
  multipath = true;
  neighbors = map (λ i. peer (decimal (65101 + i)) i) (range k);
  active = range k;
  advertise = true;
}

-- the neighbors above are written first
unfoldable pub fattree_agg_frr_conf : ℕ → ℕ → ℕ → Router
unfolding range_from
fattree_agg_frr_conf pod idx k = record {
  hostname = with "agg-" pod ++ b'-' ∷ decimal idx;
  asn = decimal (65100 + pod);
  router_id = dot (with "10." pod) idx ++ codes ".1";
  multipath = true;
  neighbors =
      map (peer (codes "65000")) (range_from (k / 2) (k - k / 2))
      ++ map (peer (decimal (65100 + pod))) (range (k / 2));
  active = range k;
  advertise = true;
}

unfoldable pub fattree_edge_frr_conf : ℕ → ℕ → ℕ → Router
unfolding range_from
fattree_edge_frr_conf pod idx k = record {
  hostname = with "edge-" pod ++ b'-' ∷ decimal idx;
  asn = decimal (65100 + pod);
  router_id = dot (with "10." pod) (100 + idx) ++ codes ".1";
  multipath = false;
  neighbors = map (peer (decimal (65100 + pod))) (range (k / 2));
  active = range (k / 2);
  advertise = true;
}

neighbor_line : Neighbor → Text
neighbor_line n = with " neighbor eth" n.port ++ codes " interface remote-as " ++ n.remote_as

active_line : ℕ → Text
active_line i = with "  neighbor eth" i ++ codes " activate"

abbrev pub multipath_lines : Bool → List Text
multipath_lines true = codes " bgp bestpath as-path multipath-relax" ∷ []
multipath_lines false = []

abbrev pub advertise_lines : Bool → List Text
advertise_lines true = codes "  advertise-all-vni" ∷ []
advertise_lines false = []

-- the text that the functions above share
unfoldable pub evpn_text : Router → Text
unfolding neighbor_line active_line unlines join_lines
evpn_text r = unlines (
    codes "frr version 8.4"
      ∷ codes "frr defaults datacenter"
      ∷ (codes "hostname " ++ r.hostname)
      ∷ codes "!"
      ∷ codes "interface lo"
      ∷ (codes " ip address " ++ r.router_id ++ codes "/32")
      ∷ codes "!"
      ∷ (codes "router bgp " ++ r.asn)
      ∷ (codes " bgp router-id " ++ r.router_id)
      ∷ multipath_lines r.multipath
    ++ join_lines (map neighbor_line r.neighbors)
      ∷ codes " !"
      ∷ codes " address-family ipv4 unicast"
      ∷ codes "  redistribute connected"
      ∷ codes " exit-address-family"
      ∷ codes " !"
      ∷ codes " address-family l2vpn evpn"
      ∷ join_lines (map active_line r.active)
      ∷ advertise_lines r.advertise
    ++ codes " exit-address-family" ∷ codes "!" ∷ codes "line vty" ∷ codes "!" ∷ [])
