-- ===== src/Topology/Generate.antt =====
-- labtris_api/topology_gen.py: `generate`, for a lab that is there and has no rows. The geometry row and
-- the commit are not modelled.
pub mod Drawn
pub mod Fabrics
pub mod Sites
use labtris.Topology.Rows.{Builder, empty}
use labtris.Prelude.{ap, ◌≡◌, ℕ, length}
use labtris.Prelude.Result.{Result, ok, err}
use labtris.Ip.{Net}
use labtris.Topology.Builder.{M}
use labtris.Topology.Request.{
  Pattern, GenerateIn, spine_leaf, rail_optimised, fat_tree, front_end, scale_across, scale_above,
  scale_edge,
}
use labtris.Topology.Clos
use labtris.Topology.FatTree
use labtris.Topology.Scale

pub record GenerateOut : Type 0 where
  pub pattern : Pattern
  pub node_count : ℕ
  pub link_count : ℕ
  pub network_count : ℕ

-- the generator of a pattern
unfoldable pub generator : Pattern → Result Net → GenerateIn → M (Unit {0})
generator spine_leaf picked body = Clos.spine_leaf body
generator rail_optimised picked body = Clos.rail_optimised body
generator fat_tree picked body = FatTree.fat_tree body
generator front_end picked body = Scale.front_end_with body picked
generator scale_across picked body = Scale.scale_across body
generator scale_above picked body = Scale.scale_above body
generator scale_edge picked body = Scale.scale_edge body picked

abbrev pub counted : Pattern → Result (Unit {0} × Builder) → Result (GenerateOut × Builder)
counted p (ok (_, t)) = ok (
  record {
    pattern = p;
    node_count = length t.nodes;
    link_count = length t.links;
    network_count = length t.networks;
  },
  t,
)
counted p (err e) = err e

unfoldable pub generate : Result Net → GenerateIn → Result (GenerateOut × Builder)
unfolding generator
generate picked body = counted body.pattern (generator body.pattern picked body empty)

pub generate_as :
    (picked : Result Net) (body : GenerateIn) (p : Pattern)
    → body.pattern ≡ p
    → generate picked body ≡ counted p (generator p picked body empty)
unfolding generate
generate_as picked body p is = ap (λ q. counted q (generator q picked body empty)) is
