-- ===== src/Migrate/Tests.antt =====
-- Files for labtris_api/migrate.py, the rows that labtris_api/routers/labs.py makes of them, and the
-- theorems at them.
use labtris.Prelude.{
  Bool, true, ℕ, ◌⊎◌, length, Text, codes, List, [], ◌∷◌, Option, none, some, ◌≡◌, ◌≢◌, refl, false,
}
use labtris.Prelude.Result.{
  overflow_error, Result, integrity_error, ok, err, attribute_error, value_error, stop_iteration,
}
use labtris.Naming.Device.{decimal}
use labtris.Migrate.Yaml.{Yaml, str, nil, cons, Entries, empty, entry}
use labtris.Migrate.Plan.{PlannedNode, Plan, Warning, words, given}
use labtris.Migrate.Clab.{parse_clab}
use labtris.Migrate.Unl.{Element, Document, Coordinate, at, infinite, parse_unl}
use labtris.Prelude.Int.{pos}
use labtris.Migrate.Realize.{realize_plan}
use labtris.Migrate.Realize.State.{Rows}
use labtris.Migrate.Realize.Imported.{IsRealized, realize_plan-parse_clab, realize_plan-parse_unl}
use labtris.Migrate.Clab.Linked.{IsLinked, parse_clab-IsLinked, parse_clab-finds}

abbrev key : Text → Yaml → Entries → Entries
key k v es = entry (str k) v es

abbrev two_ends : Text → Text → Yaml
two_ends a b =
    Yaml.dict (key (codes "endpoints") (Yaml.seq (cons (str a) (cons (str b) nil))) empty)

abbrev linux : Entries
linux = key (codes "kind") (str (codes "linux")) (key (codes "image") (str (codes "alpine")) empty)

-- two nodes and a segment; a link of the nodes, one with the segment, one with a node that is not there
abbrev topology : Entries
topology =
    key (codes "nodes")
      (Yaml.dict (
        key (codes "r.1") (Yaml.dict linux) (
          key (codes "r2") (Yaml.dict empty) (
            key (codes "br") (Yaml.dict (key (codes "kind") (str (codes "ovs-bridge")) empty))
              empty))))
      (key (codes "links")
        (Yaml.seq (
          cons (two_ends (codes "r.1:eth1") (codes "r2")) (
            cons (two_ends (codes "r2:eth3") (codes "br:p1"))
              (cons (two_ends (codes "r2:eth4") (codes "r9:eth1")) nil))))
        empty)

abbrev load : Text → Option Yaml
load text = some (
    Yaml.dict (
      key (codes "name") (str (codes "my lab"))
        (key (codes "topology") (Yaml.dict topology) empty)))

-- `nodes` is a list
abbrev load_list : Text → Option Yaml
load_list text = some (
    Yaml.dict (
      key (codes "topology")
        (Yaml.dict (key (codes "nodes") (Yaml.seq (cons (str (codes "r1")) nil)) empty)) empty))

abbrev repr : Yaml → Text
repr v = []

abbrev split : Text → List Text
split s = s ∷ []

abbrev first_node : PlannedNode
first_node = record {
  name = codes "r-1";
  runtime = codes "docker";
  image = codes "alpine";
  cmd = given (Yaml.scalar false (codes "None"));
  env = [];
  ifaces = codes "eth1" ∷ [];
  position = none;
}

abbrev second_node : PlannedNode
second_node = record {
  name = codes "r2";
  runtime = codes "docker";
  image = codes "alpine:3.20";
  cmd = words (codes "sleep" ∷ codes "infinity" ∷ []);
  env = (codes "LABTRIS_ORIGINAL_KIND", codes "linux") ∷ (codes "LABTRIS_ORIGINAL_IMAGE", []) ∷ [];
  ifaces = codes "eth1" ∷ [];
  position = none;
}

abbrev plan : Plan
plan = record {
  name = codes "my-lab";
  nodes = first_node ∷ second_node ∷ [];
  links =
      record {
        a_node = codes "r-1";
        a_iface = some (codes "eth1");
        b_node = codes "r2";
        b_iface = none;
      }
      ∷ [];
  networks = codes "br" ∷ [];
  network_kinds = (codes "br", codes "ovs") ∷ [];
  warnings =
      Warning.placeholder (codes "r2") (codes "linux")
      ∷ Warning.joins_segment (codes "r2") (codes "br")
      ∷ Warning.unknown_nodes (codes "r9" ∷ [])
      ∷ [];
}

planned : parse_clab repr split load [] ≡ ok plan
unfolding parse_clab
planned = refl

listed : parse_clab repr split load_list [] ≡ err attribute_error
unfolding parse_clab
listed = refl

malformed : parse_clab repr split (λ text. none) [] ≡ err value_error
unfolding parse_clab
malformed = refl

parse_clab-IsLinked_example : IsLinked plan
parse_clab-IsLinked_example = parse_clab-IsLinked repr split load [] plan planned

parse_clab-finds_example : parse_clab repr split load [] ≢ err stop_iteration
parse_clab-finds_example = parse_clab-finds repr split load []

-- the scheme of an image without a catalog entry
abbrev scheme : Text → Text → Text
scheme runtime image = codes "eth"

abbrev mac : ℕ → Text
mac id = id ∷ []

abbrev link_name : ℕ → Text
link_name id = b'l' ∷ id ∷ []

-- the link names no interface of r2; `eth1`, which r2 has, is also the name of its second interface
refused : realize_plan mac scheme link_name [] plan ≡ err integrity_error
unfolding realize_plan decimal
refused = refl

abbrev linked_topology : Entries
linked_topology =
    key (codes "nodes")
      (Yaml.dict (key (codes "r1") (Yaml.dict linux) (key (codes "r2") (Yaml.dict linux) empty)))
      (key (codes "links") (Yaml.seq (cons (two_ends (codes "r1:eth1") (codes "r2:eth1")) nil))
        empty)

abbrev load_linked : Text → Option Yaml
load_linked text = some (Yaml.dict (key (codes "topology") (Yaml.dict linked_topology) empty))

abbrev linux_node : Text → PlannedNode
linux_node name = record first_node { name = name }

abbrev linked_plan : Plan
linked_plan = record {
  name = codes "clab-import";
  nodes = linux_node (codes "r1") ∷ linux_node (codes "r2") ∷ [];
  links =
      record {
        a_node = codes "r1";
        a_iface = some (codes "eth1");
        b_node = codes "r2";
        b_iface = some (codes "eth1");
      }
      ∷ [];
  networks = [];
  network_kinds = [];
  warnings = [];
}

linked : parse_clab repr split load_linked [] ≡ ok linked_plan
unfolding parse_clab
linked = refl

abbrev link_count : Result Rows → Option ℕ
link_count (ok rows) = some (length rows.links)
link_count (err e) = none

one_link_made :
    link_count (realize_plan mac scheme link_name (codes "clab-import" ∷ []) linked_plan) ≡ some 1
unfolding realize_plan
one_link_made = refl

realize_plan-parse_clab_example :
    ((rows : Rows) × (realize_plan mac scheme link_name [] linked_plan ≡ ok rows)
      × IsRealized linked_plan rows)
    ⊎ (realize_plan mac scheme link_name [] linked_plan ≡ err integrity_error)
realize_plan-parse_clab_example =
    realize_plan-parse_clab repr split load_linked [] mac scheme link_name [] linked_plan linked

abbrev element : Text → Text → Element
element id name = record {
  template = some (codes "docker");
  id = some id;
  name = some name;
  left = some (codes "10");
  top = none;
  interfaces = record { name = some (codes "e0"); network_id = some (codes "7") } ∷ [];
}

abbrev load_unl : Text → Option Document
load_unl xml = some (record {
  name = some (codes "lab");
  nodes = element (codes "1") (codes "a") ∷ element (codes "2") (codes "b") ∷ [];
})

abbrev lower : Text → Text
lower s = s

abbrev coordinate : Text → Coordinate
coordinate s = at (pos 10)

abbrev infinitely : Text → Coordinate
infinitely s = infinite

abbrev in_catalog : Text → Bool
in_catalog image = true

abbrev unl_node : Text → PlannedNode
unl_node name = record {
  name = name;
  runtime = codes "docker";
  image = codes "alpine:3.20";
  cmd = words (codes "sleep" ∷ codes "3600" ∷ []);
  env = [];
  ifaces = codes "e0" ∷ [];
  position = some (pos 10, pos 0);
}

abbrev unl_plan : Plan
unl_plan = record {
  name = codes "lab";
  nodes = unl_node (codes "a") ∷ unl_node (codes "b") ∷ [];
  links =
      record {
        a_node = codes "a";
        a_iface = some (codes "e0");
        b_node = codes "b";
        b_iface = some (codes "e0");
      }
      ∷ [];
  networks = [];
  network_kinds = [];
  warnings = [];
}

unl_planned : parse_unl lower coordinate in_catalog load_unl [] none ≡ ok unl_plan
unfolding parse_unl
unl_planned = refl

-- left="inf"
far_away : parse_unl lower infinitely in_catalog load_unl [] none ≡ err overflow_error
unfolding parse_unl
far_away = refl

realize_plan-parse_unl_example :
    ((rows : Rows) × (realize_plan mac scheme link_name [] unl_plan ≡ ok rows)
      × IsRealized unl_plan rows)
    ⊎ (realize_plan mac scheme link_name [] unl_plan ≡ err integrity_error)
realize_plan-parse_unl_example =
    realize_plan-parse_unl lower coordinate in_catalog load_unl [] none mac scheme link_name []
      unl_plan unl_planned
