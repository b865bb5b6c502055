-- ===== src/Topology/Scale/Above.antt =====
-- The cables of regions over transit routers.
use labtris.Topology.Builder.Loops.{
  Makes-for_from, Makes-for_range, Makes-nodes, Makes-range, Makes-wires, Makes-downlink,
  pick-tabulate,
}
use labtris.Topology.Rows.{delay}
use labtris.Topology.Scale.{
  add_transit, mesh_transit, add_region_leaf, add_region_host, above_delay, add_region, scale_above,
}
use labtris.Topology.Scale.Fabric.{leaf_of, up_cables, up-Makes, hosts-Makes}
use labtris.Topology.Scale.Across.{site_size, site_cables}
use labtris.Topology.Builder.Draw.{
  Makes, Makes-then, Makes-cast, Makes-add_node, Makes-connect, Makes-connect_with, IsKind, cable,
  spread, tabulate,
}
use labtris.Topology.Builder.Sound.{Cable}
use labtris.Topology.Request.{GenerateIn}
use labtris.Prelude.{ℕ, List, [], ◌∷◌, ◌++◌, ◌+◌, ◌*◌, ◌-◌, ◌<◌, ◌≤◌, refl, arith, some, none}

module _ (body : GenerateIn) where
  -- the cables from transit i to the later ones
  abbrev pub mesh_of : ℕ → List Cable
  mesh_of i = spread (i + 1) (body.transits - (i + 1)) (λ j. cable i j ∷ [])

  -- the border at node m to transit t, slower one way than the other
  abbrev pub climb : ℕ → ℕ → Cable
  climb m t = record {
    a = m;
    b = t;
    ab = some (delay (above_delay body t));
    ba = some (delay (above_delay body t + body.above_delay_step_ms));
  }

  abbrev pub region_cables : ℕ → List Cable
  region_cables m = spread 0 body.transits (λ t. climb m t ∷ []) ++ site_cables body m

  abbrev pub above_cables : List Cable
  above_cables =
      spread 0 body.transits mesh_of
      ++ spread 0 body.regions (λ r. region_cables (body.transits + r * site_size body))

  module _ (leaf : IsKind body.leaf_kind) (host : IsKind body.host_kind) where
    mesh-Makes :
        (i : ℕ)
        → i < body.transits
        → Makes body.transits 0
            (mesh_of i)
            tt
            (mesh_transit body (tabulate 0 body.transits (λ t. t)) i)
    unfolding mesh_transit
    mesh-Makes i li =
        let n = body.transits in
        Makes-cast (n + (i + 1) * 0) n ((n - (i + 1)) * 0) 0 _ _ tt tt _ (omega arith) (omega arith)
          refl refl
          (Makes-for_from n 0 n (λ j. cable i j ∷ []) (n - (i + 1)) (i + 1) _ (omega arith)
            (λ j lj. Makes-cast n (n + j * 0) 0 0 _ _ tt tt _ (omega arith) refl refl refl (
              Makes-then n 0 n 0 0 [] _ _ i tt _ _ (omega arith) (omega arith) refl
                (Makes-cast n n 0 0 [] [] (0 + i) i _ refl refl refl (omega arith)
                  (pick-tabulate 0 n i (λ t. t) n li))
                (Makes-then n 0 n 0 0 [] _ _ j tt _ _ (omega arith) (omega arith) refl
                  (Makes-cast n n 0 0 [] [] (0 + j) j _ refl refl refl (omega arith)
                    (pick-tabulate 0 n j (λ t. t) n lj))
                  (Makes-connect n i j li lj)))))

    region-Makes :
        (r m : ℕ)
        → body.transits ≤ m
        → Makes m
            (site_size body)
            (region_cables m)
            tt
            (add_region body (tabulate 0 body.transits (λ t. t)) r)
    unfolding add_region add_region_leaf add_region_host
    region-Makes r m le =
        let l = body.leaves in
        let h = body.hosts_per_leaf in
        let n = m + 1 + l in
        Makes-then m 1 (m + 1) (l + l * h) (site_size body) [] (region_cables m) _ m tt _ _ refl
          (omega arith) refl (Makes-add_node m _ body.leaf_kind _ none _ leaf)
          (Makes-then (m + 1) l n (l * h) _ [] (region_cables m) _ (tabulate 0 l (leaf_of m l h)) tt
            _ _ refl refl refl
            (Makes-nodes (m + 1) l (leaf_of m l h) (add_region_leaf body r) (λ j. refl)
              (λ j q. Makes-add_node q _ body.leaf_kind _ none _ leaf))
            (Makes-then n 0 n (l * h) (l * h) _ (site_cables body m) _ tt tt _ _ (omega arith)
              (omega arith) refl
              (Makes-wires n body.transits _ (λ t. t) _
                (λ t lt. Makes-connect_with n m t _ _ (omega arith) (omega arith)))
              (Makes-then n 0 n (l * h) (l * h) (up_cables m l h) _ _ tt tt _ _ (omega arith)
                (omega arith) refl (up-Makes m l h)
                (hosts-Makes m l h (add_region_host body r) (λ j a i q la.
                  Makes-downlink q a _ la (Makes-add_node q _ body.host_kind _ none none host))))))

    transit-Makes : (t q : ℕ) → Makes q 1 [] q (add_transit body t)
    unfolding add_transit
    transit-Makes t q = Makes-add_node q _ body.leaf_kind _ none _ leaf

    pub scale_above-Makes :
        Makes 0 (body.transits + body.regions * site_size body) above_cables tt (scale_above body)
    unfolding scale_above
    scale_above-Makes =
        let n = body.transits in
        Makes-then 0 n n (body.regions * site_size body) _ [] above_cables _ (tabulate 0 n (λ t. t))
          tt _ _ (omega arith) refl refl
          (Makes-nodes 0 n (λ t. t) (add_transit body) (λ j. omega arith) transit-Makes)
          (Makes-then n 0 n (body.regions * site_size body) (body.regions * site_size body) _ _ _ tt
            tt _ _ (omega arith) (omega arith) refl (Makes-range n n _ _ mesh-Makes)
            (Makes-for_range n (site_size body) body.regions _ _
              (λ r _. region-Makes r (n + r * site_size body) (omega arith))))
