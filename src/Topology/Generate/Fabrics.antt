-- ===== src/Topology/Generate/Fabrics.antt =====
-- The labs of the fabric patterns.
use labtris.Topology.Generate.{generate, generator, generate_as}
use labtris.Topology.Generate.Drawn.{Drawn, Makes-Drawn, length-spread, length-spread_two}
use labtris.Topology.Builder.Draw.{Makes, IsKind, cable, spread}
use labtris.Topology.Clos.Shape.{clos_cables, rail_cables, spine_leaf-Makes, rail_optimised-Makes}
use labtris.Topology.FatTree.Shape.{
  agg, edge, host_of, switches, mesh_cables, core_cables, host_cables, fat_cables, fat_tree-Makes,
}
use labtris.Topology.Request.{GenerateIn, spine_leaf, rail_optimised, fat_tree}
use labtris.Ip.{Net}
use labtris.Topology.FatTree
use labtris.Prelude.{[], subst, suc, ◌∷◌, ℕ, ◌++◌, ◌+◌, ◌*◌, ◌≡◌, arith, length, length-append}
use labtris.Prelude.Result.{Result}
use labtris.Topology.Builder.Sound.{Cable}

-- Where the three kinds are known, a spine-leaf request is answered with S + L + L * H nodes and
-- S * L + L * H links, each with a network. The rows are sound, and the links draw exactly the
-- fabric: each spine to each leaf, then each leaf to its own hosts.
pub generate-spine_leaf :
    (picked : Result Net) (body : GenerateIn)
    → body.pattern ≡ spine_leaf
    → IsKind body.spine_kind
    → IsKind body.leaf_kind
    → IsKind body.host_kind
    → Drawn spine_leaf
        (body.spines + body.leaves + body.leaves * body.hosts_per_leaf)
        (body.spines * body.leaves + body.leaves * body.hosts_per_leaf)
        0
        (clos_cables body)
        (generate picked body)
unfolding generator
generate-spine_leaf picked body is spine leaf host = rw (generate_as picked body spine_leaf is) (
    Makes-Drawn spine_leaf _ _ (clos_cables body) _
      (omega (
        arith,
        length-append
            (spread 0 body.spines (λ i. spread 0 body.leaves (λ j. cable i (body.spines + j) ∷ [])))
            _,
        length-spread_two body.spines body.leaves (λ i j. cable i (body.spines + j)),
        length-spread_two body.leaves body.hosts_per_leaf (λ j h.
            cable (body.spines + j) (body.spines + body.leaves + j * body.hosts_per_leaf + h)),
      ))
      (spine_leaf-Makes body spine leaf host))

-- Where both kinds are known, a rail-optimised request is answered with R * (H + 1) nodes and R * H
-- links, each with a network. The rows are sound, and the links draw exactly the rails: each rail's
-- spine to its own hosts.
pub generate-rail_optimised :
    (picked : Result Net) (body : GenerateIn)
    → body.pattern ≡ rail_optimised
    → IsKind body.spine_kind
    → IsKind body.host_kind
    → Drawn rail_optimised
        (body.rails * suc body.hosts_per_rail)
        (body.rails * body.hosts_per_rail)
        0
        (rail_cables body)
        (generate picked body)
unfolding generator
generate-rail_optimised picked body is spine host = rw (generate_as picked body rail_optimised is) (
    Makes-Drawn rail_optimised _ _ (rail_cables body) _
      (length-spread_two body.rails body.hosts_per_rail _) (rail_optimised-Makes body spine host))

length-spread_three :
    (n m o : ℕ) (f : ℕ → ℕ → ℕ → Cable)
    → length (spread 0 n (λ i. spread 0 m (λ j. spread 0 o (λ k. f i j k ∷ [])))) ≡ n * (m * o)
length-spread_three n m o f = length-spread 0 n (m * o) _ (λ i. length-spread_two m o (f i))

length-fat_cables :
    (body : GenerateIn) (g : ℕ) → length (fat_cables body g) ≡ 3 * (body.k * (g * g))
length-fat_cables body g = omega (
  arith,
  length-append (mesh_cables body g) (core_cables body g ++ host_cables body g),
  length-append (core_cables body g) (host_cables body g),
  length-spread_three body.k g g (λ p a e. cable (agg body g p a) (edge body g p e)),
  length-spread_three body.k g g (λ p i j. cable (agg body g p i) (i * g + j)),
  length-spread_three body.k g g (λ p e h. cable (edge body g p e) (host_of body g p e h)),
)

nodes_lem :
    (body : GenerateIn) (g : ℕ)
    → body.k ≡ g + g
    → switches body g + body.k * (g * g) ≡ 5 * (g * g) + body.k * (g * g)
nodes_lem body g even = rw even (omega arith)

-- Where the three kinds are known, a fat-tree request with k = 2g is answered with 5 * g * g switches
-- and k * g * g hosts, and with 3 * k * g * g links, each with a network. The rows are sound, and the
-- links draw exactly the tree: within a pod all aggregation to all edge switches, aggregation switch
-- i to cores i * g to i * g + g - 1, and each edge switch to its own g hosts.
pub generate-fat_tree :
    (picked : Result Net) (body : GenerateIn) (g : ℕ)
    → body.pattern ≡ fat_tree
    → body.k ≡ g + g
    → IsKind body.spine_kind
    → IsKind body.leaf_kind
    → IsKind body.host_kind
    → Drawn fat_tree
        (5 * (g * g) + body.k * (g * g))
        (3 * (body.k * (g * g)))
        0
        (fat_cables body g)
        (generate picked body)
unfolding generator
generate-fat_tree picked body g is even spine leaf host = rw (generate_as picked body fat_tree is) (
    Makes-Drawn fat_tree _ _ (fat_cables body g) _ (length-fat_cables body g) (
      subst (λ w. Makes 0 w (fat_cables body g) tt (FatTree.fat_tree body)) (nodes_lem body g even)
        (fat_tree-Makes body g even spine leaf host)))
