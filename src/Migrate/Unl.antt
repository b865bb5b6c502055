-- ===== src/Migrate/Unl.antt =====
-- labtris_api/migrate.py: `parse_unl`. `load` is `ET.fromstring`, with the nodes that are found below the
-- topology; `lower` is `str.lower`, `coordinate` what `int(float(s))` gives, and `in_catalog` says which
-- images are in QEMU_CATALOG.
pub mod Joined
use labtris.Prelude.{
  ℕ, zero, suc, Text, codes, List, [], ◌∷◌, ◌++◌, ◌+◌, Bool, true, false, ◌&&◌, not, if◌then◌else◌,
  Option, none, some, text_eq, length,
}
use labtris.Prelude.Int.{ℤ, pos}
use labtris.Prelude.Result.{Result, ok, err, value_error, overflow_error, ◌>>=◌}
use labtris.Naming.Device.{decimal}
use labtris.Migrate.Plan.{
  PlannedNode, PlannedLink, Plan, words, given, Warning, placeholder, not_in_catalog, segment, safe,
  put,
}
use labtris.Migrate.Yaml.{null}
use labtris.Migrate.Clab.{empty_plan}

-- an `interface` element, and a `node` element with those below it; an attribute may be missing
pub record Port : Type 0 where
  pub name : Option Text
  pub network_id : Option Text

pub record Element : Type 0 where
  pub template : Option Text
  pub id : Option Text
  pub name : Option Text
  pub left : Option Text
  pub top : Option Text
  pub interfaces : List Port

pub record Document : Type 0 where
  pub name : Option Text
  pub nodes : List Element

-- ValueError is `unread`, OverflowError `infinite`
pub data Coordinate : Type 0 where
  at : ℤ → Coordinate
  unread : Coordinate
  infinite : Coordinate

-- the plan, and `by_id`
pub record Sketch : Type 0 where
  pub plan : Plan
  pub by_id : List (Text × Text)

-- `v or w`
abbrev pub text_or : Option Text → Text → Text
text_or none w = w
text_or (some []) w = w
text_or (some (c ∷ s)) w = c ∷ s

-- `str(el.get(key, ""))`
abbrev pub or_blank : Option Text → Text
or_blank none = []
or_blank (some s) = s

abbrev pub alpine : Text
alpine = codes "alpine:3.20"

abbrev pub unl_templates : List (Text × (Text × Text))
unl_templates =
    (codes "docker", (codes "docker", alpine))
    ∷ (codes "linux", (codes "qemu", codes "ubuntu-24.04"))
    ∷ (codes "alpine", (codes "docker", alpine))
    ∷ (codes "ubuntu", (codes "qemu", codes "ubuntu-24.04"))
    ∷ (codes "debian", (codes "qemu", codes "debian-12"))
    ∷ (codes "fedora", (codes "qemu", codes "fedora-42"))
    ∷ (codes "centos", (codes "qemu", codes "centos-9-server"))
    ∷ (codes "opensuse", (codes "qemu", codes "opensuse-leap-15.6"))
    ∷ (codes "kali", (codes "qemu", codes "kali-2025.2"))
    ∷ (codes "mint", (codes "qemu", codes "linuxmint-22.1"))
    ∷ (codes "arch", (codes "qemu", codes "arch-cli"))
    ∷ (codes "cirros", (codes "qemu", codes "cirros"))
    ∷ (codes "frr", (codes "docker", codes "frrouting/frr:v8.4.0"))
    ∷ (codes "nginx", (codes "docker", codes "nginx:alpine"))
    ∷ []

abbrev pub find_template : Text → List (Text × (Text × Text)) → Option (Text × Text)
find_template t [] = none
find_template t ((key, value) ∷ table) = if text_eq key t then some value else find_template t table

-- what a node runs as
pub record Choice : Type 0 where
  pub runtime : Text
  pub image : Text
  pub env : List (Text × Text)
  pub warnings : List Warning

-- the name of the n-th interface
abbrev pub port_name : Port → ℕ → Text
port_name port n = text_or port.name (codes "eth" ++ decimal n)

unfoldable pub port_names : List Port → ℕ → List Text
unfolding decimal
port_names [] n = []
port_names (port ∷ ports) n = port_name port n ∷ port_names ports (suc n)

abbrev pub or_eth1 : List Text → List Text
or_eth1 [] = codes "eth1" ∷ []
or_eth1 (i ∷ is) = i ∷ is

-- `by_id.get(id, "")`
abbrev pub name_of : Text → List (Text × Text) → Text
name_of id [] = []
name_of id ((key, name) ∷ by_id) = if text_eq key id then name else name_of id by_id

-- a network and its members, a node and an interface each
abbrev pub Nets : Type 0
Nets = List (Text × List (Text × Text))

-- `on_net.setdefault(net_id, []).append(member)`
unfoldable pub add_member : Text → Text × Text → Nets → Nets
add_member net m [] = (net, m ∷ []) ∷ []
add_member net m ((key, ms) ∷ nets) =
    if text_eq key net then (key, ms ++ m ∷ []) ∷ nets else (key, ms) ∷ add_member net m nets

-- `if net_id:`
unfoldable pub add_port : Option Text → Text × Text → Nets → Nets
unfolding add_member
add_port none m nets = nets
add_port (some []) m nets = nets
add_port (some (c ∷ s)) m nets = add_member (c ∷ s) m nets

unfoldable pub add_ports : Text → List Port → ℕ → Nets → Nets
unfolding add_port decimal
add_ports node [] n nets = nets
add_ports node (port ∷ ports) n nets =
    add_ports node ports (suc n) (add_port port.network_id (node, port_name port n) nets)

unfoldable pub collect : List (Text × Text) → List Element → Nets → Nets
unfolding add_ports
collect by_id [] nets = nets
collect by_id (el ∷ els) nets =
    collect by_id els (add_ports (name_of (or_blank el.id) by_id) el.interfaces 0 nets)

-- a network of two is a link, a larger one a segment
abbrev pub draw_net : Text → List (Text × Text) → Plan → Plan
draw_net net (a ∷ b ∷ []) plan = record plan {
  links =
      plan.links
      ++ record { a_node = a.0; a_iface = some a.1; b_node = b.0; b_iface = some b.1 } ∷ [];
}
draw_net net (a ∷ b ∷ c ∷ ms) plan = record plan {
  networks = plan.networks ++ safe (codes "net" ++ net) ∷ [];
  warnings = plan.warnings ++ segment net (3 + length ms) ∷ [];
}
draw_net net ms plan = plan

unfoldable pub draw_nets : Nets → Plan → Plan
unfolding safe
draw_nets [] plan = plan
draw_nets ((net, members) ∷ nets) plan = draw_nets nets (draw_net net members plan)

module _ (lower : Text → Text) (coordinate : Text → Coordinate) (in_catalog : Text → Bool) where
  abbrev pub choose : Text → Text → Option (Text × Text) → Choice
  choose name template none = record {
    runtime = codes "docker";
    image = alpine;
    env = (codes "LABTRIS_ORIGINAL_TEMPLATE", text_or (some template) (codes "unknown")) ∷ [];
    warnings = placeholder name template ∷ [];
  }
  choose name template (some (runtime, image)) =
      if text_eq runtime (codes "qemu") && not (in_catalog image)
      then record {
        runtime = codes "docker";
        image = alpine;
        env = [];
        warnings = not_in_catalog name image ∷ [];
      }
      else record { runtime = runtime; image = image; env = []; warnings = [] }

  -- `int(float(el.get(key, 0)))`
  abbrev pub coordinate_of : Option Text → Coordinate
  coordinate_of none = at (pos 0)
  coordinate_of (some s) = coordinate s

  abbrev pub position : Coordinate → Coordinate → Result (Option (ℤ × ℤ))
  position infinite y = err overflow_error
  position unread y = ok none
  position (at x) infinite = err overflow_error
  position (at x) unread = ok none
  position (at x) (at y) = ok (some (x, y))

  unfoldable pub add_element : Element → Sketch → Result Sketch
  unfolding safe put port_names
  add_element el s = do
    let template = lower (or_blank el.template)
    let id = or_blank el.id
    let name = safe (text_or el.name (b'n' ∷ id))
    let choice = choose name template (find_template template unl_templates)
    place ← position (coordinate_of el.left) (coordinate_of el.top)
    ok (record {
      plan = record s.plan {
        nodes =
            s.plan.nodes
            ++ record {
              name = name;
              runtime = choice.runtime;
              image = choice.image;
              cmd =
                  if text_eq choice.runtime (codes "docker")
                  then words (codes "sleep" ∷ codes "3600" ∷ [])
                  else given null;
              env = choice.env;
              ifaces = or_eth1 (port_names el.interfaces 0);
              position = place;
            }
              ∷ [];
        warnings = s.plan.warnings ++ choice.warnings;
      };
      by_id = put id name s.by_id;
    })

  unfoldable pub add_elements : List Element → Sketch → Result Sketch
  unfolding add_element
  add_elements [] s = ok s
  add_elements (el ∷ els) s = add_element el s >>= λ t. add_elements els t

  unfoldable pub plan_document : Document → Option Text → Result Plan
  unfolding add_elements collect draw_nets
  plan_document doc fallback = do
    let name = safe (text_or fallback (text_or doc.name (codes "unl-import")))
    s ← add_elements doc.nodes (record { plan = empty_plan name; by_id = [] })
    ok (draw_nets (collect s.by_id doc.nodes []) s.plan)

  abbrev pub parsed : Option Document → Result Document
  parsed none = err value_error
  parsed (some doc) = ok doc

  unfoldable pub parse_unl : (Text → Option Document) → Text → Option Text → Result Plan
  unfolding plan_document
  parse_unl load xml fallback = parsed (load xml) >>= λ doc. plan_document doc fallback
