-- ===== src/Topology/Clos/Shape.antt =====
-- The cables of a spine-leaf fabric and of rails.
use labtris.Topology.Builder.Loops.{
  Makes-uplinks, Makes-uplink, Makes-wires, Makes-nodes, Makes-for_range, Makes-for_each,
}
use labtris.Topology.Clos.{
  [], List, GenerateIn, add_spine, add_leaf, add_leaf_host, spine_leaf, add_rail_host, add_rail,
  rail_optimised,
}
use labtris.Topology.Builder.Draw.{
  Makes-connect, Makes-then, Makes, Makes-cast, Makes-add_node, IsKind, cable, spread, tabulate,
}
use labtris.Topology.Request.{GenerateIn}
use labtris.Prelude.{suc, none, refl, ◌<◌, arith, ℕ, ◌*◌, ◌++◌, ◌∷◌, ◌+◌, [], List}
use labtris.Topology.Builder.Sound.{Cable}
use labtris.Topology.Builder.{for_range}

module _ (body : GenerateIn) where
  -- Nodes 0 to S - 1 are the spines, S to S + L - 1 the leaves, and the hosts of leaf j follow those of
  -- the leaves before it.
  abbrev pub clos_cables : List Cable
  clos_cables =
      spread 0 body.spines (λ i. spread 0 body.leaves (λ j. cable i (body.spines + j) ∷ []))
      ++ spread 0 body.leaves (λ j. spread 0 body.hosts_per_leaf (λ h.
        cable (body.spines + j) (body.spines + body.leaves + j * body.hosts_per_leaf + h) ∷ []))

  module _ (spine : IsKind body.spine_kind) (leaf : IsKind body.leaf_kind)
      (host : IsKind body.host_kind) where
    hosts-Makes :
        (j : ℕ)
        → j < body.leaves
        → Makes
            (body.spines + body.leaves + j * body.hosts_per_leaf)
            body.hosts_per_leaf
            (spread 0 body.hosts_per_leaf (λ h.
              cable (body.spines + j) (body.spines + body.leaves + j * body.hosts_per_leaf + h)
              ∷ []))
            tt
            (for_range body.hosts_per_leaf (add_leaf_host body j (body.spines + j)))
    unfolding add_leaf_host
    hosts-Makes j l =
        let m = body.spines + body.leaves + j * body.hosts_per_leaf in
        Makes-uplinks m body.hosts_per_leaf _ _ (λ h _.
          Makes-uplink (m + h) (body.spines + j) _ (omega arith)
            (Makes-add_node (m + h) _ body.host_kind _ none none host))

    -- From an empty lab whose kinds are known, `_spine_leaf` ends with S + L + L * H nodes, and with
    -- exactly the cables of the fabric: each spine to each leaf, then each leaf to its own hosts.
    pub spine_leaf-Makes :
        Makes 0
          (body.spines + body.leaves + body.leaves * body.hosts_per_leaf)
          clos_cables
          tt
          (spine_leaf body)
    unfolding spine_leaf add_spine add_leaf
    spine_leaf-Makes =
        let s = body.spines in
        let l = body.leaves in
        Makes-then 0 s s _ _ [] clos_cables _ (tabulate 0 s (λ j. j)) tt _ _ (omega arith)
          (omega arith) refl
          (Makes-nodes 0 s (λ j. j) (add_spine body) (λ j. omega arith)
            (λ j p. Makes-add_node p _ body.spine_kind _ _ _ spine))
          (Makes-then s l (s + l) (l * body.hosts_per_leaf) _ [] clos_cables _
            (tabulate 0 l (λ j. s + j)) tt _ _ refl refl refl
            (Makes-nodes s l (λ j. s + j) (add_leaf body) (λ j. refl)
              (λ j p. Makes-add_node p _ body.leaf_kind _ _ _ leaf))
            (Makes-then (s + l) 0 (s + l) _ _ _ _ _ tt tt _ _ (omega arith) (omega arith) refl
              (Makes-wires (s + l) s _ (λ j. j) _
                (λ i li.
                  Makes-wires (s + l) l _ (λ j. s + j) _
                    (λ j lj. Makes-connect (s + l) i (s + j) (omega arith) (omega arith))))
              (Makes-for_each (s + l) body.hosts_per_leaf l _ (λ j. s + j) _ hosts-Makes)))

  -- rail r is node r * (H + 1), and its hosts follow it
  abbrev pub rail_cables : List Cable
  rail_cables = spread 0 body.rails (λ r.
      spread 0 body.hosts_per_rail
        (λ h. cable (r * suc body.hosts_per_rail) (r * suc body.hosts_per_rail + 1 + h) ∷ []))

  -- From an empty lab whose kinds are known, `_rail_optimised` ends with R * (H + 1) nodes, and with
  -- exactly the cables from the spine of each rail to its own hosts.
  pub rail_optimised-Makes :
      IsKind body.spine_kind
      → IsKind body.host_kind
      → Makes 0 (body.rails * suc body.hosts_per_rail) rail_cables tt (rail_optimised body)
  unfolding rail_optimised add_rail_host
  rail_optimised-Makes spine host =
      let n = body.hosts_per_rail in
      Makes-for_range 0 (suc n) body.rails _ (add_rail body) (λ r _.
        let m = r * suc n in
        Makes-cast m (0 + m) (suc n) (suc n) _ _ tt tt _ (omega arith) refl refl refl (
          Makes-then m 1 (m + 1) n _ [] _ _ m tt _ _ refl (omega arith) refl
            (Makes-add_node m _ body.spine_kind _ _ _ spine)
            (Makes-uplinks (m + 1) n _ _ (λ h _.
              Makes-uplink (m + 1 + h) m _ (omega arith)
                (Makes-add_node (m + 1 + h) _ body.host_kind _ none _ host)))))
