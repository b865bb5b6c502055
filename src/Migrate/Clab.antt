-- ===== src/Migrate/Clab.antt =====
-- labtris_api/migrate.py: `parse_clab`. `load` is `yaml.safe_load`, which may raise YAMLError; `repr` gives
-- the `str` of a list or a dict, and `split` is `str.split`.
pub mod Nodes
pub mod Links
pub mod Owner
pub mod Unlinked
pub mod Linked
use labtris.Prelude.{
  ℕ, Text, codes, List, [], ◌∷◌, ◌++◌, Bool, true, false, not, if◌then◌else◌, Option, none, some,
  text_eq, ◌&&◌,
}
use labtris.Prelude.Result.{◌>>=◌, guard, ◌>>◌, Result, ok, err, value_error}
use labtris.Migrate.Yaml.{
  Yaml, str, Entries, empty, entry, null, get, has, truthy, or_else, entries_of,
}
use labtris.Migrate.Plan.{PlannedNode, Plan, safe}
use labtris.Migrate.Clab.Nodes.{Draft, shown, add_nodes}
use labtris.Migrate.Clab.Links.{add_links, attach_links, fill}

abbrev pub empty_plan : Text → Plan
empty_plan name = record {
  name = name;
  nodes = [];
  links = [];
  networks = [];
  network_kinds = [];
  warnings = [];
}

abbrev pub with_nodes : Yaml → Result Entries
with_nodes (Yaml.dict topo) = guard (has (codes "nodes") topo) value_error >> ok topo
with_nodes _ = err value_error

-- `doc.get("topology") or {}`, with its entries
abbrev pub topology_of : Entries → Result Entries
topology_of doc = with_nodes (or_else (get (codes "topology") doc) (Yaml.dict empty))

-- the entries at the top level
abbrev pub document : Option Yaml → Result Entries
document (some (Yaml.dict doc)) = ok doc
document _ = err value_error

module _ (repr : Yaml → Text) (split : Text → List Text) where
  unfoldable pub plan_nodes : Entries → Entries → Result Draft
  unfolding add_nodes
  plan_nodes doc topo = do
    let name = shown repr (or_else (get (codes "name") doc) (str (codes "clab-import")))
    nodes ← entries_of (or_else (get (codes "nodes") topo) (Yaml.dict empty))
    add_nodes repr split (or_else (get (codes "defaults") topo) (Yaml.dict empty))
        (or_else (get (codes "kinds") topo) (Yaml.dict empty)) nodes
        (record { plan = empty_plan (safe name); segments = [] })

  unfoldable pub parse_clab : (Text → Option Yaml) → Text → Result Plan
  unfolding plan_nodes add_links attach_links has get
  parse_clab load text = do
    doc ← document (load text)
    topo ← topology_of doc
    draft ← plan_nodes doc topo
    plan ← add_links repr draft.segments (get (codes "links") topo) draft.plan
    nodes ← attach_links plan.links plan.nodes
    ok (record plan { nodes = fill nodes })
