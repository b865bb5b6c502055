-- ===== src/Topology/Scale/Across.antt =====
-- The cables of sites that a ring joins.
use labtris.Topology.Builder.Loops.{
  pick-tabulate, Makes-range, Makes-collect, Makes-nodes, Makes-downlink,
}
use labtris.Topology.Rows.{delay}
use labtris.Topology.Scale.{scale_across, add_hop, add_site_leaf, add_site_host, add_site, hops}
use labtris.Topology.Scale.Fabric.{leaf_of, up_cables, host_cables, up-Makes, hosts-Makes}
use labtris.Topology.Builder.Draw.{
  Makes-connect_with, Makes-cast, Makes, Makes-then, Makes-return, Makes-add_node, IsKind, spread,
  tabulate,
}
use labtris.Topology.Builder.Sound.{Cable}
use labtris.Topology.Request.{GenerateIn}
use labtris.Prelude.{◌≤◌, ◌<◌, ℕ, List, [], ◌∷◌, ◌++◌, ◌+◌, ◌*◌, ◌%◌, refl, arith, some, none}
use mathlib.Core.List.{append-nil}
use native.Mathlib.Nat.{mod-lt}

module _ (body : GenerateIn) where
  -- the nodes of a site
  abbrev pub site_size : ℕ
  site_size = 1 + body.leaves + body.leaves * body.hosts_per_leaf

  abbrev pub site_cables : ℕ → List Cable
  site_cables m =
      up_cables m body.leaves body.hosts_per_leaf ++ host_cables m body.leaves body.hosts_per_leaf

  -- border i to the next one around the ring
  abbrev pub hop : ℕ → Cable
  hop i = record {
    a = i * site_size;
    b = (i + 1) % body.sites * site_size;
    ab = some (delay body.dci_delay_ms);
    ba = some (delay body.dci_return_delay_ms);
  }

  abbrev pub across_cables : List Cable
  across_cables =
      spread 0 body.sites (λ s. site_cables (s * site_size))
      ++ spread 0 (hops body) (λ i. hop i ∷ [])

  module _ (leaf : IsKind body.leaf_kind) (host : IsKind body.host_kind) where
    site-Makes : (site m : ℕ) → Makes m site_size (site_cables m) m (add_site body site)
    unfolding add_site add_site_leaf add_site_host
    site-Makes site m =
        let l = body.leaves in
        let h = body.hosts_per_leaf in
        Makes-then m 1 (m + 1) (l + l * h) site_size [] (site_cables m) _ m m _ _ refl (omega arith)
          refl (Makes-add_node m _ body.leaf_kind _ none _ leaf)
          (Makes-then (m + 1) l (m + 1 + l) (l * h) _ [] _ _ (tabulate 0 l (leaf_of m l h)) m _ _
            refl refl refl
            (Makes-nodes (m + 1) l (leaf_of m l h) (add_site_leaf body site) (λ j. refl)
              (λ j q. Makes-add_node q _ body.leaf_kind _ none _ leaf))
            (Makes-then (m + 1 + l) 0 (m + 1 + l) (l * h) (l * h) (up_cables m l h) _ _ tt m _ _
              (omega arith) (omega arith) refl (up-Makes m l h)
              (Makes-then (m + 1 + l) (l * h) _ 0 (l * h) (host_cables m l h) [] _ tt m _ _ refl
                (omega arith) (append-nil _)
                (hosts-Makes m l h (add_site_host body site) (λ j a i q la.
                  Makes-downlink q a _ la (Makes-add_node q _ body.host_kind _ none none host)))
                (Makes-return (m + 1 + l + l * h) m))))

    hop-Makes :
        (i : ℕ)
        → i < hops body
        → hops body ≤ body.sites
        → Makes
            (body.sites * site_size)
            0
            (hop i ∷ [])
            tt
            (add_hop body (tabulate 0 body.sites (λ s. s * site_size)) i)
    unfolding add_hop
    hop-Makes i li le =
        let m = body.sites * site_size in
        let j = (i + 1) % body.sites in
        let lj : j < body.sites = mod-lt (i + 1) (omega arith) in
        Makes-then m 0 m 0 0 [] _ _ (i * site_size) tt _ _ (omega arith) (omega arith) refl
          (Makes-cast m m 0 0 [] [] ((0 + i) * site_size) (i * site_size) _ refl refl refl
            (omega arith) (pick-tabulate 0 body.sites i (λ s. s * site_size) m (omega arith)))
          (Makes-then m 0 m 0 0 [] _ _ (j * site_size) tt _ _ (omega arith) (omega arith) refl
            (Makes-cast m m 0 0 [] [] ((0 + j) * site_size) (j * site_size) _ refl refl refl
              (omega arith) (pick-tabulate 0 body.sites j (λ s. s * site_size) m lj))
            (Makes-connect_with m (i * site_size) (j * site_size) _ _ (grind arith) (grind arith)))

    pub scale_across-Makes :
        1 ≤ body.sites → Makes 0 (body.sites * site_size) across_cables tt (scale_across body)
    unfolding scale_across
    scale_across-Makes some_site =
        let m = body.sites * site_size in
        Makes-then 0 m m 0 m _ _ _ (tabulate 0 body.sites (λ s. s * site_size)) tt _ _ (omega arith)
          (omega arith) refl
          (Makes-collect 0 site_size body.sites _ (λ s. s * site_size) (add_site body)
            (λ s _.
              Makes-cast (s * site_size) (0 + s * site_size) site_size site_size _ _ _ _ _
                (omega arith) refl refl refl (site-Makes s (s * site_size))))
          (Makes-range m (hops body) _ _ (λ i li. hop-Makes i li (ground arith)))
