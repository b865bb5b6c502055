-- ===== src/Topology/Frr/Tenant.antt =====
-- labtris_api/topology_gen.py: the overlay of a fat tree, before FRR starts and at its hosts.
use labtris.Prelude.{◌-◌, ℕ, ◌+◌, ◌*◌, ◌/◌, Text, codes, List, [], ◌∷◌, ◌++◌, map}
use labtris.Topology.Frr.Lines.{with, dot, range_from, unlines, join_lines}

-- what is mounted on an edge switch before FRR starts: the ports in the bridge, and the address
pub record Overlay : Type 0 where
  pub local : Text
  pub enslaved : List ℕ

unfoldable pub fattree_edge_overlay : ℕ → ℕ → ℕ → Overlay
unfolding range_from
fattree_edge_overlay pod idx k = record {
  local = dot (with "10." pod) (100 + idx) ++ codes ".1";
  enslaved = range_from (k / 2) (k - k / 2);
}

enslave_line : ℕ → Text
enslave_line i =
    with "ip link set eth" i ++ codes " master br10 && " ++ with "ip link set eth" i ++ codes " up"

-- the text of an overlay, with the default VNI
unfoldable pub overlay_text : Overlay → Text
unfolding enslave_line unlines join_lines
overlay_text o = unlines (
    codes "# ---- EVPN overlay, VNI 10 ----"
    ∷ codes "# No MTU change on the uplinks, deliberately. VXLAN adds 50 bytes, and"
    ∷ codes "# the hosts are set to 1450, so an encapsulated frame is at most 1500 —"
    ∷ codes "# which the default already carries. An earlier version raised the"
    ∷ codes "# uplinks to 1600 and was wrong twice over: unnecessary, because"
    ∷ codes "# 1450+50 fits; and applied to the edge's end only, leaving every"
    ∷ codes "# agg-edge link with 1600 on one side and 1500 on the other. Keep the"
    ∷ codes "# tenant MTU below the fabric MTU minus overhead and there is nothing"
    ∷ codes "# to configure here."
    ∷ codes "ip link add br10 type bridge 2>/dev/null || true"
    ∷ codes "ip link set br10 up"
    ∷ (codes "ip link add vxlan10 type vxlan id 10 dstport 4789 local "
        ++ o.local
        ++ codes " nolearning 2>/dev/null || true")
    ∷ codes "ip link set vxlan10 master br10"
    ∷ codes "ip link set vxlan10 up"
    ∷ join_lines (map enslave_line o.enslaved)
    ∷ codes "# EVPN already carries the MAC-IP bindings, so flooding ARP across the"
    ∷ codes "# overlay is pure waste where the kernel supports suppressing it."
    ∷ codes "bridge link set dev vxlan10 neigh_suppress on 2>/dev/null || true"
    ∷ [])

-- the address of a host of the overlay
unfoldable pub fattree_host_setup : ℕ → ℕ → ℕ → ℕ → Text
fattree_host_setup pod edge h k = dot (with "10.100." pod) ((edge - 1) * (k / 2) + h)

-- the setup of a host with an address
unfoldable pub host_text : Text → Text
unfolding unlines
host_text addr = unlines (
    codes "#!/bin/sh"
    ∷ codes "# Generated by `labtris lab generate --with-bgp-evpn`."
    ∷ codes "set -e"
    ∷ codes "# 1450 + VXLAN's 50 = 1500, exactly the fabric MTU, so nothing on the"
    ∷ codes "# path has to be widened. Raise this and every uplink needs raising"
    ∷ codes "# too, on both ends of every link."
    ∷ codes "ip link set eth0 mtu 1450 2>/dev/null || true"
    ∷ (codes "ip addr replace " ++ addr ++ codes "/16 dev eth0")
    ∷ codes "ip link set eth0 up"
    ∷ (codes "echo \"host " ++ addr ++ codes "/16 on VNI 10\"")
    ∷ [])
