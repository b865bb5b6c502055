-- ===== src/Topology/FatTree/Shape.antt =====
-- The cables of a fat tree.
use labtris.Topology.Builder.Loops.{
  pick-tabulate, Makes-range, Makes-collect, Makes-for_each, Makes-nodes, Makes-uplinks,
  Makes-uplink, Makes-wires, spread_nil,
}
use labtris.Topology.FatTree.{
  fat_tree, pick, add_core, add_agg, add_edge, add_pod, mesh_pod, wire_core, wire_cores,
  add_pod_host, add_pod_hosts, fat_tree_even,
}
use labtris.Topology.Builder.Draw.{
  Makes, Makes-then, Makes-cast, Makes-return, Makes-add_node, Makes-connect, IsKind, cable, spread,
  tabulate,
}
use labtris.Prelude.{◌/◌, ◌%◌, ◌≡◌, none, refl, ◌++◌, ◌∷◌, List, ◌*◌, arith, ◌+◌, [], ◌<◌, ℕ}
use labtris.Topology.Request.{GenerateIn}
use labtris.Topology.Builder.Sound.{Cable}
use labtris.Topology.Builder.{for_each}

-- g is half of k
module _ (body : GenerateIn) (g : ℕ) where
  -- Nodes 0 to g * g - 1 are the cores. Pod p has its aggregation switches from g * g + p * 2g on, then its
  -- edge switches. The hosts follow all the pods.
  abbrev pub agg : ℕ → ℕ → ℕ
  agg p a = g * g + p * (g + g) + a

  abbrev pub edge : ℕ → ℕ → ℕ
  edge p e = g * g + p * (g + g) + g + e

  abbrev pub switches : ℕ
  switches = g * g + body.k * (g + g)

  abbrev pub host_of : ℕ → ℕ → ℕ → ℕ
  host_of p e h = switches + p * (g * g) + e * g + h

  abbrev pub mesh_cables : List Cable
  mesh_cables =
      spread 0 body.k (λ p. spread 0 g (λ a. spread 0 g (λ e. cable (agg p a) (edge p e) ∷ [])))

  abbrev pub core_cables : List Cable
  core_cables =
      spread 0 body.k (λ p. spread 0 g (λ i. spread 0 g (λ j. cable (agg p i) (i * g + j) ∷ [])))

  abbrev pub host_cables : List Cable
  host_cables =
      spread 0 body.k
        (λ p. spread 0 g (λ e. spread 0 g (λ h. cable (edge p e) (host_of p e h) ∷ [])))

  abbrev pub fat_cables : List Cable
  fat_cables = mesh_cables ++ (core_cables ++ host_cables)

  -- what `pods` holds
  abbrev pod : ℕ → List ℕ × List ℕ
  pod p = (tabulate 0 g (agg p), tabulate 0 g (edge p))

  -- the switches of a pod are there
  agg-lt : (p a : ℕ) → p < body.k → a < g → agg p a < switches
  agg-lt p a h l = grind arith

  edge-lt : (p e : ℕ) → p < body.k → e < g → edge p e < switches
  edge-lt p e h l = grind arith

  core-lt : (i j : ℕ) → i < g → j < g → i * g + j < g * g
  core-lt i j h l = grind arith

  pod-Makes :
      IsKind body.leaf_kind
      → (p : ℕ) → Makes (g * g + p * (g + g)) (g + g) [] (pod p) (add_pod body g p)
  unfolding add_pod add_agg add_edge
  pod-Makes leaf p =
      let m = g * g + p * (g + g) in
      Makes-then m g (m + g) g (g + g) [] [] [] (tabulate 0 g (agg p)) (pod p) _ _ refl refl refl
        (Makes-nodes m g (agg p) (add_agg body g p) (λ j. refl)
          (λ j q. Makes-add_node q _ body.leaf_kind _ none _ leaf))
        (Makes-then (m + g) g (m + g + g) 0 g [] [] [] (tabulate 0 g (edge p)) (pod p) _ _ refl
          (omega arith) refl
          (Makes-nodes (m + g) g (edge p) (add_edge body g p) (λ j. refl)
            (λ j q. Makes-add_node q _ body.leaf_kind _ none _ leaf))
          (Makes-return (m + g + g) (pod p)))

  mesh-Makes : Makes switches 0 mesh_cables tt (for_each (tabulate 0 body.k pod) (mesh_pod body g))
  mesh-Makes = Makes-wires switches body.k _ pod (mesh_pod body g) (λ p lp.
      Makes-wires switches g _ (agg p) _ (λ a la. Makes-wires switches g _ (edge p) _ (λ e le.
        Makes-connect switches (agg p a) (edge p e) (agg-lt p a lp la) (edge-lt p e lp le))))

  cores-Makes :
      Makes switches 0 core_cables tt
        (for_each (tabulate 0 body.k pod) (wire_cores body g (tabulate 0 (g * g) (λ i. i))))
  unfolding wire_core
  cores-Makes = Makes-wires switches body.k _ pod _ (λ p lp.
      Makes-wires switches g _ (agg p) _ (λ i li. Makes-range switches g _ _ (λ j lj.
        Makes-then switches 0 switches 0 0 [] _ _ (i * g + j) tt _ _ (omega arith) refl refl
          (Makes-cast switches switches 0 0 [] [] (0 + (i * g + j)) (i * g + j)
            (pick (tabulate 0 (g * g) (λ c. c)) (i * g + j)) refl refl refl (omega arith)
            (pick-tabulate 0 (g * g) (i * g + j) (λ c. c) switches (core-lt i j li lj)))
          (Makes-connect switches (agg p i) (i * g + j) (agg-lt p i lp li)
            (omega (arith, core-lt i j li lj))))))

  hosts-Makes :
      IsKind body.host_kind
      → Makes switches
          (body.k * (g * g))
          host_cables
          tt
          (for_each (tabulate 0 body.k pod) (add_pod_hosts body g))
  unfolding add_pod_host
  hosts-Makes kind = Makes-for_each switches (g * g) body.k _ pod (add_pod_hosts body g) (λ p lp.
      let m = switches + p * (g * g) in
      Makes-for_each m g g _ (edge p) _ (λ e le. Makes-uplinks (m + e * g) g _ _ (λ h lh.
        Makes-uplink (m + e * g + h) (edge p e) _ (omega (arith, edge-lt p e lp le))
          (Makes-add_node (m + e * g + h) _ body.host_kind _ none _ kind))))

  fat_tree_even-Makes :
      IsKind body.spine_kind
      → IsKind body.leaf_kind
      → IsKind body.host_kind
      → Makes 0 (switches + body.k * (g * g)) fat_cables tt (fat_tree_even body g)
  unfolding fat_tree_even add_core
  fat_tree_even-Makes spine leaf kind =
      Makes-then 0 (g * g) (g * g) (body.k * (g + g) + body.k * (g * g)) _ [] fat_cables _
        (tabulate 0 (g * g) (λ i. i)) tt _ _ (omega arith) (omega arith) refl
        (Makes-nodes 0 (g * g) (λ i. i) (add_core body g) (λ j. omega arith)
          (λ j p. Makes-add_node p _ body.spine_kind _ _ _ spine))
        (Makes-then (g * g) (body.k * (g + g)) switches (body.k * (g * g)) _ [] fat_cables _
          (tabulate 0 body.k pod) tt _ _ refl refl refl
          (Makes-cast (g * g) (g * g) _ _ _ _ _ _ _ refl refl (spread_nil 0 body.k) refl (
            Makes-collect (g * g) (g + g) body.k (λ _. []) pod (add_pod body g)
              (λ p _. pod-Makes leaf p)))
          (Makes-then switches 0 switches (body.k * (g * g)) (body.k * (g * g)) mesh_cables _ _ tt
            tt _ _ (omega arith) (omega arith) refl mesh-Makes
            (Makes-then switches 0 switches (body.k * (g * g)) (body.k * (g * g)) core_cables _ _ tt
              tt _ _ (omega arith) (omega arith) refl cores-Makes (hosts-Makes kind))))

-- From an empty lab whose kinds are known, `_fat_tree` with k = 2g ends with g * g cores, 2g switches in
-- each of 2g pods and g * g hosts under each pod, and with exactly the cables of the tree: within a
-- pod all aggregation to all edge switches, aggregation switch i to cores i * g to i * g + g - 1, and
-- each edge switch to its own g hosts.
pub fat_tree-Makes :
    (body : GenerateIn) (g : ℕ)
    → body.k ≡ g + g
    → IsKind body.spine_kind
    → IsKind body.leaf_kind
    → IsKind body.host_kind
    → Makes 0 (switches body g + body.k * (g * g)) (fat_cables body g) tt (fat_tree body)
unfolding fat_tree
fat_tree-Makes body g even spine leaf kind e ds s at =
    let is_even : body.k % 2 ≡ 0 = omega arith in
    let halved : body.k / 2 ≡ g = omega arith in
    rw (is_even, halved) (fat_tree_even-Makes body g spine leaf kind e ds s at)
