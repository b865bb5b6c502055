-- ===== src/Topology/Scale/Edge.antt =====
-- The cables of a front end, and of edge sites around a core.
use labtris.Topology.Builder.Loops.{
  Makes-for_range, Makes-nodes, Makes-uplinks, Makes-wires, Makes-downlink, pick-tabulate,
}
use labtris.Topology.Roles.{front_roles, edge_roles, edge_preset_of}
use labtris.Topology.Rows.{preset}
use labtris.Topology.Scale.{
  Net, Result, add_border, add_service, front_end_with, add_edge_host, add_edge_site,
  scale_edge_with,
}
use labtris.Topology.Builder.{for_range}
use labtris.Topology.Builder.Draw.{
  Makes, Makes-then, Makes-add_node, Makes-connect, Makes-connect_with, IsKind, cable, spread,
  tabulate,
}
use labtris.Topology.Builder.Egress.{Serves, Serves-then, asked-Serves, IsServed}
use labtris.Topology.Builder.Sound.{Cable}
use labtris.Topology.Request.{GenerateIn}
use labtris.Prelude.{
  true, ◌≡◌, Text, suc, if◌then◌else◌, ℕ, List, [], ◌∷◌, ◌++◌, ◌+◌, ◌*◌, ◌<◌, refl, arith, some,
  none,
}
use labtris.Prelude.Result.{Result}
use labtris.Ip.{Net}
use mathlib.Core.List.{append-nil}

module _ (body : GenerateIn) where
  -- hosts from node m on, behind the access switch
  abbrev pub service_cables : ℕ → ℕ → List Cable
  service_cables m access = spread 0 body.services (λ h. cable (m + h) access ∷ [])

  abbrev pub front_cables : List Cable
  front_cables = cable 0 1 ∷ cable 0 2 ∷ cable 1 2 ∷ service_cables 3 2

  abbrev pub egresses : ℕ
  egresses = if body.with_egress then 1 else 0

  -- an edge site of node m, slow both ways, with its hosts
  abbrev pub edge_cables : ℕ → ℕ → List Cable
  edge_cables e m =
      record {
        a = m;
        b = 0;
        ab = some (preset (edge_preset_of body.edge_preset e));
        ba = some (preset (edge_preset_of body.edge_preset e));
      }
      ∷ spread 0 body.hosts_per_edge (λ h. cable (m + 1 + h) m ∷ [])

  abbrev pub core_cables : List Cable
  core_cables =
      cable 0 1
      ∷ (service_cables 2 1
          ++ spread 0 body.edges
              (λ e. edge_cables e (2 + body.services + e * suc body.hosts_per_edge)))

  module _ (leaf : IsKind body.leaf_kind) (host : IsKind body.host_kind) where
    services-Makes :
        (roles : List Text) (row m access : ℕ)
        → access < m
        → Makes m body.services
            (service_cables m access)
            tt
            (for_range body.services (add_service body roles row access))
    unfolding add_service
    services-Makes roles row m access la = Makes-uplinks m body.services _ _ (λ h _.
        Makes-downlink (m + h) access _ (omega arith)
          (Makes-add_node (m + h) _ body.host_kind _ none none host))

    edge-Makes :
        (e m : ℕ)
        → 0 < m
        → Makes m (suc body.hosts_per_edge) (edge_cables e m) tt (add_edge_site body 0 e)
    unfolding add_edge_site add_edge_host
    edge-Makes e m l =
        let n = body.hosts_per_edge in
        Makes-then m 1 (m + 1) n (suc n) [] (edge_cables e m) _ m tt _ _ refl (omega arith) refl
          (Makes-add_node m _ body.leaf_kind _ none _ leaf)
          (Makes-then (m + 1) 0 (m + 1) n n _ _ _ tt tt _ _ (omega arith) (omega arith) refl
            (Makes-connect_with (m + 1) m 0 _ _ (omega arith) (omega arith))
            (Makes-uplinks (m + 1) n _ _ (λ h _.
              Makes-downlink (m + 1 + h) m _ (omega arith)
                (Makes-add_node (m + 1 + h) _ body.host_kind _ none none host))))

    module _ (picked : Result Net) (served : body.with_egress ≡ true → IsServed picked) where
      pub front_end-Serves :
          Serves egresses 0 (3 + body.services) front_cables (front_end_with body picked)
      unfolding front_end_with add_border spread
      front_end-Serves =
          let s = body.services in
          Serves-then egresses 0 2 2 (1 + s) _ [] front_cables _ (tabulate 0 2 (λ i. i)) _ _
            (omega arith) (omega arith) refl
            (Makes-nodes 0 2 (λ i. i) (add_border body) (λ j. omega arith)
              (λ j q. Makes-add_node q _ body.leaf_kind _ none _ leaf))
            (Serves-then egresses 2 1 3 s _ [] front_cables _ 2 _ _ (omega arith) (omega arith) refl
              (Makes-add_node 2 _ body.leaf_kind _ none none leaf)
              (Serves-then egresses 3 0 3 s s [] front_cables _ 0 _ _ (omega arith) (omega arith)
                refl (pick-tabulate 0 2 0 (λ i. i) 3 (omega arith))
                (Serves-then egresses 3 0 3 s s [] front_cables _ 1 _ _ (omega arith) (omega arith)
                  refl (pick-tabulate 0 2 1 (λ i. i) 3 (omega arith))
                  (Serves-then egresses 3 0 3 s s _ _ front_cables tt _ _ (omega arith)
                    (omega arith) refl (Makes-connect 3 0 1 (omega arith) (omega arith))
                    (Serves-then egresses 3 0 3 s s _ _ _ tt _ _ (omega arith) (omega arith) refl
                      (Makes-wires 3 2 (λ i. cable i 2 ∷ []) (λ i. i) _
                        (λ j lj. Makes-connect 3 j 2 (omega arith) (omega arith)))
                      (Serves-then egresses 3 s (3 + s) 0 s _ [] _ tt _ _ refl (omega arith)
                        (append-nil _) (services-Makes front_roles 2 3 2 (omega arith))
                        (asked-Serves body.with_egress picked (3 + s) 2 (λ i. i) served
                          (λ j lj. omega arith))))))))

      pub scale_edge-Serves :
          Serves egresses 0
            (2 + body.services + body.edges * suc body.hosts_per_edge)
            core_cables
            (scale_edge_with body picked)
      unfolding scale_edge_with
      scale_edge-Serves =
          let s = body.services in
          let n = body.edges * suc body.hosts_per_edge in
          Serves-then egresses 0 1 1 (1 + s + n) _ [] core_cables _ 0 _ _ (omega arith)
            (omega arith) refl (Makes-add_node 0 _ body.leaf_kind _ none _ leaf)
            (Serves-then egresses 1 1 2 (s + n) _ [] core_cables _ 1 _ _ (omega arith) (omega arith)
              refl (Makes-add_node 1 _ body.leaf_kind _ none _ leaf)
              (Serves-then egresses 2 0 2 (s + n) (s + n) _ _ core_cables tt _ _ (omega arith)
                (omega arith) refl (Makes-connect 2 0 1 (omega arith) (omega arith))
                (Serves-then egresses 2 s (2 + s) n (s + n) _ _ _ tt _ _ refl refl refl
                  (services-Makes edge_roles 1 2 1 (omega arith))
                  (Serves-then egresses (2 + s) n (2 + s + n) 0 n _ [] _ tt _ _ refl (omega arith)
                    (append-nil _)
                    (Makes-for_range (2 + s) (suc body.hosts_per_edge) body.edges _ _
                      (λ e _. edge-Makes e (2 + s + e * suc body.hosts_per_edge) (omega arith)))
                    (asked-Serves body.with_egress picked (2 + s + n) 1 (λ _. 0) served
                      (λ j lj. omega arith))))))
