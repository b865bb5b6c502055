-- ===== src/Topology/Frr/Peering.antt =====
-- labtris_api/topology_gen.py: the routers that carry no EVPN to their hosts.
use labtris.Prelude.{ℕ, ◌+◌, Text, codes, List, [], ◌∷◌, ◌++◌, map, Bool, true, false}
use labtris.Naming.Device.{decimal}
use labtris.Topology.Frr.Lines.{with, unlines, join_lines, range_from, range}

-- a line of a router without EVPN between hosts
pub data Statement : Type 0 where
  -- "neighbor eth{port} interface remote-as external"
  external : ℕ → Statement
  -- "neighbor {group} peer-group" and "neighbor {group} remote-as external"
  group : Text → Statement
  -- "neighbor eth{port} interface peer-group {group}"
  member : Text → ℕ → Statement

pub record Plain : Type 0 where
  pub hostname : Text
  pub asn : Text
  pub router_id : Text
  pub multipath : Bool
  pub statements : List Statement
  -- what is activated in ipv4 unicast, and in l2vpn evpn if it is there
  pub active : List Text
  pub evpn : List Text

unfoldable pub border_frr_conf : ℕ → ℕ → Plain
unfolding range_from
border_frr_conf idx peers = record {
  hostname = with "border-" idx;
  asn = with "6500" idx;
  router_id = with "10.255.0." idx;
  multipath = true;
  statements = map external (range peers);
  active = codes "eth0" ∷ [];
  evpn = [];
}

unfoldable pub uplink_leaf_frr_conf : Text → ℕ → Text → Plain
uplink_leaf_frr_conf hostname asn router_id = record {
  hostname = hostname;
  asn = decimal asn;
  router_id = router_id;
  multipath = false;
  statements = external 0 ∷ [];
  active = codes "eth0" ∷ [];
  evpn = [];
}

unfoldable pub site_border_frr_conf : ℕ → ℕ → ℕ → Plain
unfolding range_from
site_border_frr_conf site leaves dci_hops = record {
  hostname = with "site" site ++ codes "-border";
  asn = with "6510" site;
  router_id = with "10.254.0." site;
  multipath = true;
  statements =
      group (codes "fabric") ∷ group (codes "dci") ∷ map (member (codes "fabric")) (range leaves)
      ++ map (λ k. member (codes "dci") (leaves + k)) (range dci_hops);
  active = codes "fabric" ∷ codes "dci" ∷ [];
  evpn = codes "dci" ∷ [];
}

unfoldable pub transit_frr_conf : ℕ → ℕ → Plain
unfolding range_from
transit_frr_conf idx ports = record {
  hostname = with "transit-" idx;
  asn = with "6400" idx;
  router_id = with "10.253.0." idx;
  multipath = true;
  statements = group (codes "peers") ∷ map (member (codes "peers")) (range ports);
  active = codes "peers" ∷ [];
  evpn = [];
}

unfoldable pub region_border_frr_conf : ℕ → ℕ → ℕ → Plain
unfolding range_from
region_border_frr_conf region transits leaves = record {
  hostname = with "region" region ++ codes "-border";
  asn = with "6520" region;
  router_id = with "10.252.0." region;
  multipath = true;
  statements =
      group (codes "fabric")
        ∷ group (codes "transit")
        ∷ map (member (codes "transit")) (range transits)
      ++ map (λ j. member (codes "fabric") (transits + j)) (range leaves);
  active = codes "fabric" ∷ codes "transit" ∷ [];
  evpn = [];
}

unfoldable pub edge_core_frr_conf : ℕ → Plain
unfolding range_from
edge_core_frr_conf edges = record {
  hostname = codes "core-border";
  asn = codes "65300";
  router_id = codes "10.251.0.1";
  multipath = true;
  statements =
      group (codes "edges")
      ∷ group (codes "fabric")
      ∷ member (codes "fabric") 0
      ∷ map (λ e. member (codes "edges") (e + 1)) (range edges);
  active = codes "edges" ∷ codes "fabric" ∷ [];
  evpn = [];
}

unfoldable pub edge_site_frr_conf : ℕ → Plain
edge_site_frr_conf idx = record {
  hostname = with "edge-" idx;
  asn = decimal (65300 + idx);
  router_id = with "10.251.1." idx;
  multipath = false;
  statements = external 0 ∷ [];
  active = codes "eth0" ∷ [];
  evpn = [];
}

abbrev pub neighbor_of : Text → Text
neighbor_of name = codes " neighbor " ++ name

statement_text : Statement → Text
statement_text (external port) = with " neighbor eth" port ++ codes " interface remote-as external"
statement_text (group name) =
    (neighbor_of name ++ codes " peer-group")
    ++ 10 ∷ (neighbor_of name ++ codes " remote-as external")
statement_text (member name port) =
    with " neighbor eth" port ++ codes " interface peer-group " ++ name

abbrev pub activate_line : Text → Text
activate_line name = codes "  neighbor " ++ name ++ codes " activate"

abbrev pub multipath_line : Bool → List Text
multipath_line true = codes " bgp bestpath as-path multipath-relax" ∷ []
multipath_line false = []

-- the overlay of a border between sites
abbrev pub evpn_lines : List Text → List Text
evpn_lines [] = []
evpn_lines (name ∷ names) =
    codes " !" ∷ codes " address-family l2vpn evpn" ∷ map activate_line (name ∷ names)
    ++ codes "  advertise-all-vni" ∷ codes " exit-address-family" ∷ []

-- the text that the functions above share
unfoldable pub plain_text : Plain → Text
unfolding statement_text unlines join_lines
plain_text p = unlines (
    codes "frr defaults datacenter"
      ∷ (codes "hostname " ++ p.hostname)
      ∷ codes "!"
      ∷ codes "interface lo"
      ∷ (codes " ip address " ++ p.router_id ++ codes "/32")
      ∷ codes "!"
      ∷ (codes "router bgp " ++ p.asn)
      ∷ (codes " bgp router-id " ++ p.router_id)
      ∷ multipath_line p.multipath
    ++ (codes " no bgp ebgp-requires-policy"
        ∷ join_lines (map statement_text p.statements)
        ∷ codes " !"
        ∷ codes " address-family ipv4 unicast"
        ∷ codes "  redistribute connected"
        ∷ map activate_line p.active)
    ++ (codes " exit-address-family" ∷ evpn_lines p.evpn)
    ++ codes "!" ∷ [])
