-- ===== src/Import/Tests.antt =====
-- Replies of labtris_api/clab_watch.py's netns.links, and the theorems at them.
use labtris.Import.Pair.{Row, NodeLinks, End, ends_of, pair_links}
use labtris.Import.Pair.Cable.{IsCable, InLinks, Separate}
use labtris.Import.Pair.Loop.{pair_links-cables, pair_links-Separate}
use labtris.Prelude.{ℕ, false, Text, codes, List, [], ◌∷◌, some, ◌≡◌, ◌⊎◌, refl}
use mathlib.Core.Logic.{◌↔◌}

abbrev row : Text → ℕ → ℕ → Row
row name index peer = record {
  name = name;
  index = index;
  peer_index = peer;
  kind = some (codes "veth");
}

abbrev live : List Row → NodeLinks
live rows = record { error = false; interfaces = rows }

-- one cable; a loopback; a management interface
abbrev two_nodes : List (Text × NodeLinks)
two_nodes =
    (
      codes "r1",
      live (row (codes "eth1") 10 20 ∷ row (codes "eth0") 5 99 ∷ row (codes "lo") 1 0 ∷ []),
    )
    ∷ (codes "r2", live (row (codes "eth1") 20 10 ∷ []))
    ∷ []

-- `r1` fits `r2` and `r3`
abbrev three_nodes : List (Text × NodeLinks)
three_nodes =
    (codes "r1", live (row (codes "eth1") 10 20 ∷ []))
    ∷ (codes "r2", live (row (codes "eth1") 20 10 ∷ []))
    ∷ (codes "r3", live (row (codes "eth2") 20 10 ∷ []))
    ∷ []

abbrev left : End
left = record { node = codes "r1"; idx = 10; name = codes "eth1"; peer = 20 }

abbrev right : End
right = record { node = codes "r2"; idx = 20; name = codes "eth1"; peer = 10 }

one_link : (pair_links two_nodes).links ≡ (left, right) ∷ []
unfolding pair_links
one_link = refl

no_link : (pair_links three_nodes).links ≡ []
unfolding pair_links
no_link = refl

three_ambiguous :
    (pair_links three_nodes).ambiguous ≡ codes "r1:eth1" ∷ codes "r2:eth1" ∷ codes "r3:eth2" ∷ []
unfolding pair_links
three_ambiguous = refl

pair_links-cables_example :
    (InLinks left right (pair_links two_nodes).links
      ⊎ InLinks right left (pair_links two_nodes).links)
    ↔ IsCable (ends_of two_nodes []) left right
pair_links-cables_example = pair_links-cables two_nodes left right

pair_links-Separate_example : Separate (pair_links two_nodes).links
pair_links-Separate_example = pair_links-Separate two_nodes
