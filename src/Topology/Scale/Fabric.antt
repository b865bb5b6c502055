-- ===== src/Topology/Scale/Fabric.antt =====
-- The cables of a small fabric: a border, its leaves and their hosts.
use labtris.Topology.Builder.Loops.{Makes-for_each, Makes-uplinks, Makes-wires}
use labtris.Topology.Builder.{M, connect, for_range, for_each}
use labtris.Topology.Builder.Draw.{Makes, Makes-connect, cable, spread, tabulate}
use labtris.Topology.Builder.Sound.{Cable}
use labtris.Prelude.{ℕ, List, [], ◌∷◌, ◌+◌, ◌*◌, ◌<◌, arith}

-- The border is node m, with `leaves` leaves behind it and `hosts` hosts under each.
module _ (m leaves hosts : ℕ) where
  abbrev pub leaf_of : ℕ → ℕ
  leaf_of j = m + 1 + j

  abbrev pub under : ℕ → ℕ → ℕ
  under j h = m + 1 + leaves + j * hosts + h

  abbrev pub up_cables : List Cable
  up_cables = spread 0 leaves (λ j. cable m (leaf_of j) ∷ [])

  abbrev pub host_cables : List Cable
  host_cables = spread 0 leaves (λ j. spread 0 hosts (λ h. cable (under j h) (leaf_of j) ∷ []))

  pub up-Makes :
      Makes
        (m + 1 + leaves)
        0
        up_cables
        tt
        (for_each (tabulate 0 leaves leaf_of) (λ _ leaf. connect m leaf))
  up-Makes =
      Makes-wires (m + 1 + leaves) leaves _ leaf_of _
        (λ j lj. Makes-connect (m + 1 + leaves) m (leaf_of j) (omega arith) (omega arith))

  pub hosts-Makes :
      (add : ℕ → ℕ → ℕ → M (Unit {0}))
      → ((j a h q : ℕ) → a < q → Makes q 1 (cable q a ∷ []) tt (add j a h))
      → Makes
          (m + 1 + leaves)
          (leaves * hosts)
          host_cables
          tt
          (for_each (tabulate 0 leaves leaf_of) (λ j leaf. for_range hosts (add j leaf)))
  hosts-Makes add made = Makes-for_each (m + 1 + leaves) hosts leaves _ leaf_of _ (λ j lj.
      Makes-uplinks (m + 1 + leaves + j * hosts) hosts _ _
        (λ h lh. made j (leaf_of j) h (under j h) (omega arith)))
