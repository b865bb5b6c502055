-- ===== src/Topology/Tests.antt =====
-- Labs of small requests.

use mathlib.Core.Logic.{◌↔◌}
use labtris.Topology.FatTree.Layout.{core, in_pod, place_of, place_of-distinct}
use labtris.Topology.Frr.{
  spine_frr_conf, leaf_frr_conf, frr_installer, frr_seed_files, seed_files_from_installer,
}
use labtris.Topology.Frr.Seeds.RoundTrip.{seed_files-frr_installer}
use labtris.Topology.Clos.Sessions.{remote_at, spine_leaf-sessions}
use labtris.Prelude.{some, ◌<◌}
use labtris.Topology.Rows.{kind_of}
use labtris.Topology.Builder.Draw.{IsKind}
use labtris.Topology.Builder.Egress.{IsServed}
use labtris.Topology.Generate.{generate}
use labtris.Topology.Generate.Drawn.{Drawn}
use labtris.Topology.Generate.Fabrics.{generate-spine_leaf, generate-fat_tree}
use labtris.Topology.Generate.Sites.{
  generate-scale_across, generate-scale_above, generate-front_end, generate-scale_edge,
}
use labtris.Topology.Request.{
  Pattern, GenerateIn, spine_leaf, fat_tree, scale_across, scale_above, front_end, scale_edge,
  accepted,
}
use labtris.Topology.Clos.Shape.{clos_cables}
use labtris.Topology.FatTree.Shape.{fat_cables}
use labtris.Topology.Scale.Across.{across_cables}
use labtris.Topology.Scale.Above.{above_cables}
use labtris.Topology.Scale.Edge.{front_cables, core_cables}
use labtris.Ip.{Net}
use labtris.Nat.{pool_for}
use labtris.Prelude.{◌≢◌, arith, ◌≡◌, [], codes, true, refl}
use labtris.Prelude.Result.{Result, ok}

abbrev request : Pattern → GenerateIn
request p = record {
  pattern = p;
  spines = 2;
  leaves = 4;
  hosts_per_leaf = 2;
  rails = 4;
  hosts_per_rail = 4;
  k = 4;
  sites = 3;
  dci_delay_ms = 20;
  dci_return_delay_ms = 20;
  services = 3;
  regions = 3;
  transits = 2;
  above_delay_ms = 30;
  above_delay_step_ms = 10;
  edges = 3;
  hosts_per_edge = 1;
  edge_preset = codes "auto";
  with_egress = true;
  spine_kind = codes "bmv2";
  leaf_kind = codes "frr";
  host_kind = codes "alpine";
  p4_program = [];
  with_bgp_evpn = true;
}

abbrev picked : Result Net
picked = ok (record { base = 174063616; prefix = 24 })

request-accepted : accepted (request fat_tree) ≡ true
unfolding accepted
request-accepted = refl

bmv2-IsKind : IsKind (codes "bmv2")
unfolding kind_of
bmv2-IsKind = (_, refl)

frr-IsKind : IsKind (codes "frr")
unfolding kind_of
frr-IsKind = (_, refl)

alpine-IsKind : IsKind (codes "alpine")
unfolding kind_of
alpine-IsKind = (_, refl)

picked-IsServed : true ≡ true → IsServed picked
unfolding pool_for
picked-IsServed _ = (_, _, refl, refl)

generate-spine_leaf_example :
    Drawn spine_leaf 14 16 0
      (clos_cables (request spine_leaf))
      (generate picked (request spine_leaf))
generate-spine_leaf_example =
    generate-spine_leaf picked (request spine_leaf) refl bmv2-IsKind frr-IsKind alpine-IsKind

generate-fat_tree_example :
    Drawn fat_tree 36 48 0 (fat_cables (request fat_tree) 2) (generate picked (request fat_tree))
generate-fat_tree_example =
    generate-fat_tree picked (request fat_tree) 2 refl refl bmv2-IsKind frr-IsKind alpine-IsKind

generate-scale_across_example :
    Drawn scale_across 39 39 0
      (across_cables (request scale_across))
      (generate picked (request scale_across))
generate-scale_across_example =
    generate-scale_across picked (request scale_across) refl (omega arith) frr-IsKind alpine-IsKind

generate-scale_above_example :
    Drawn scale_above 41 43 0
      (above_cables (request scale_above))
      (generate picked (request scale_above))
generate-scale_above_example =
    generate-scale_above picked (request scale_above) refl frr-IsKind alpine-IsKind

generate-front_end_example :
    Drawn front_end 6 6 1 (front_cables (request front_end)) (generate picked (request front_end))
generate-front_end_example =
    generate-front_end picked (request front_end) refl frr-IsKind alpine-IsKind picked-IsServed

generate-scale_edge_example :
    Drawn scale_edge 11 10 1
      (core_cables (request scale_edge))
      (generate picked (request scale_edge))
generate-scale_edge_example =
    generate-scale_edge picked (request scale_edge) refl refl frr-IsKind alpine-IsKind
      picked-IsServed

core-ne-in_pod : core 1 ≢ in_pod 1 0 2
core-ne-in_pod e = cc e

place_of-distinct_example : place_of 4 (core 1) ≢ place_of 4 (in_pod 1 0 2)
place_of-distinct_example =
    place_of-distinct 4 (core 1) (in_pod 1 0 2) (omega arith) (omega arith) core-ne-in_pod

spine_leaf-sessions_example :
    (remote_at 1 (leaf_frr_conf 10 2).neighbors ≡ some (spine_frr_conf 2 12).asn)
    × ((remote_at 9 (spine_frr_conf 2 12).neighbors ≡ some (leaf_frr_conf 10 2).asn) ↔ (9 < 9))
spine_leaf-sessions_example = spine_leaf-sessions 1 9 2 12 (omega arith) (omega arith) (omega arith)

seed_files-frr_installer_example :
    seed_files_from_installer (frr_installer (codes "bgpd=yes\n") (codes "frr version 8.4\n!\n") [])
    ≡ frr_seed_files (codes "bgpd=yes\n") (codes "frr version 8.4\n!\n")
seed_files-frr_installer_example =
    seed_files-frr_installer [] (codes "bgpd=yes\n") (codes "frr version 8.4\n!\n") tt (omega arith)
      (omega arith) (omega arith)
