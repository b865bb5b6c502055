-- ===== src/Migrate/Realize.antt =====
-- labtris_api/routers/labs.py: `realize_plan`, which makes the rows of a planned lab. The n-th call of
-- `new_id` is written n. `mac` gives what `allocate_mac` answers for an interface, `scheme` is
-- `iface_scheme_for`, and `link_name` the name of the network with that id.
pub mod State
pub mod Ends
pub mod Sound
pub mod Refs
pub mod Wired
pub mod Joined
pub mod Named
pub mod Imported
use labtris.Prelude.{
  ℕ, zero, suc, ◌+◌, ◌*◌, ◌/◌, ◌%◌, Text, codes, List, [], ◌∷◌, ◌++◌, Bool, true, false, ◌&&◌, ◌||◌,
  ◌==◌, if◌then◌else◌, Option, none, some, text_eq,
}
use labtris.Prelude.Int.{ℤ, pos}
use labtris.Prelude.Result.{Result, ok, err, integrity_error, ◌>>=◌}
use labtris.Naming.Device.{decimal}
use labtris.Naming.Iface.{guest_iface_name}
use labtris.Migrate.Plan.{Command, PlannedNode, PlannedLink, Plan, Warning, unwired, holds}
use labtris.Lifecycle.{guest_name}
use labtris.Migrate.Realize.State.{
  NodeRow, IfaceRow, NetworkRow, LinkRow, Ref, Rows, no_rows, node_named, network_named,
  iface_clash, is_ref, find_ref, put_ref, count_refs, find_node, put_node, place, connect, kind_in,
}

-- the name of the lab, `rounds` of the loop before its end
unfoldable pub free_name : List Text → Text → Text → ℕ → ℕ → Text
free_name taken plan_name name suffix zero = name
free_name taken plan_name name suffix (suc rounds) =
    let rest = free_name taken plan_name (plan_name ++ b'-' ∷ decimal suffix) (suc suffix) rounds in
    if holds name taken then rest else name

unfoldable pub lab_name : List Text → Text → Text
unfolding free_name
lab_name taken plan_name = free_name taken plan_name plan_name 1 49

unfoldable pub add_network : Text → Text → Rows → Result Rows
add_network name kind s =
    if network_named name s.networks
    then err integrity_error
    else ok (record s {
      next_id = suc s.next_id;
      networks = s.networks ++ record { id = s.next_id; name = name; kind = kind } ∷ [];
    })

unfoldable pub add_networks : List Text → List (Text × Text) → Rows → Result Rows
unfolding add_network
add_networks [] kinds s = ok s
add_networks (name ∷ names) kinds s =
    add_network name (kind_in name kinds) s >>= λ t. add_networks names kinds t

abbrev pub node_row : PlannedNode → ℕ → NodeRow
node_row planned id = record {
  id = id;
  name = planned.name;
  runtime = planned.runtime;
  image = planned.image;
  cmd = planned.cmd;
  env = planned.env;
}

abbrev pub add_row : PlannedNode → ℕ → Rows → Rows
add_row planned index s = record s {
  next_id = suc s.next_id;
  nodes = s.nodes ++ node_row planned s.next_id ∷ [];
  geometry = s.geometry ++ (s.next_id, place index planned.position) ∷ [];
  by_name = put_node planned.name (node_row planned s.next_id) s.by_name;
}

-- the interfaces `a` and `b` are linked by a new network
unfoldable pub link_ifaces : (ℕ → Text) → ℕ → ℕ → Rows → Result Rows
link_ifaces link_name a b s =
    let name = link_name (suc s.next_id) in
    if network_named name s.networks
    then err integrity_error
    else ok (record s {
      next_id = 3 + s.next_id;
      networks = s.networks ++ record { id = s.next_id; name = name; kind = codes "bridge" } ∷ [];
      ifaces = connect b s.next_id (connect a s.next_id s.ifaces);
      links =
          s.links
          ++ record { id = 2 + s.next_id; a_iface_id = a; b_iface_id = b; network_id = s.next_id }
            ∷ [];
    })

abbrev pub or_empty : Option Text → Text
or_empty none = []
or_empty (some iface) = iface

abbrev pub is_found : {A : Type 0} → Option A → Bool
is_found (some a) = true
is_found none = false

module _ (mac : ℕ → Text) (scheme : Text → Text → Text) (link_name : ℕ → Text) where
  -- an interface of the node, under its key in `iface_of`
  unfoldable pub add_iface : NodeRow → ℕ → Text → Text → Rows → Result Rows
  unfolding put_ref guest_name guest_iface_name
  add_iface node idx target wanted s =
      let name = guest_name idx (some wanted) (some (scheme node.runtime node.image)) in
      if iface_clash node.id idx name s.ifaces
      then err integrity_error
      else ok (record s {
        next_id = suc s.next_id;
        ifaces =
            s.ifaces
            ++ record {
              id = s.next_id;
              node_id = node.id;
              idx = idx;
              name = name;
              mac = mac s.next_id;
              network_id = none;
            }
              ∷ [];
        iface_of = put_ref (record { node = target; iface = wanted; id = s.next_id }) s.iface_of;
      })

  unfoldable pub add_ifaces : NodeRow → ℕ → List Text → Rows → Result Rows
  unfolding add_iface
  add_ifaces node idx [] s = ok s
  add_ifaces node idx (name ∷ names) s =
      add_iface node idx node.name name s >>= λ t. add_ifaces node (suc idx) names t

  unfoldable pub realize_node : PlannedNode → ℕ → Rows → Result Rows
  unfolding add_ifaces put_node
  realize_node planned index s =
      if node_named planned.name s.nodes
      then err integrity_error
      else add_ifaces (node_row planned s.next_id) 0 planned.ifaces (add_row planned index s)

  unfoldable pub realize_nodes : List PlannedNode → ℕ → Rows → Result Rows
  unfolding realize_node
  realize_nodes [] index s = ok s
  realize_nodes (planned ∷ nodes) index s =
      realize_node planned index s >>= λ t. realize_nodes nodes (suc index) t

  -- a new interface at the node of that name, if there is one
  unfoldable pub add_end : Option NodeRow → Text → Text → Rows → Result Rows
  unfolding count_refs add_iface
  add_end none target wanted s = ok s
  add_end (some owner) target wanted s =
      add_iface owner (count_refs target s.iface_of) target wanted s

  unfoldable pub ensure : Text → Text → Rows → Result Rows
  unfolding find_ref find_node add_end
  ensure target wanted s =
      if is_found (find_ref target wanted s.iface_of)
      then ok s
      else add_end (find_node target s.by_name) target wanted s

  -- the interfaces of both ends, made if one is missing
  unfoldable pub ensure_both : Text → Text → Text → Text → Rows → Result Rows
  unfolding ensure
  ensure_both a a_key b b_key s =
      if is_found (find_ref a a_key s.iface_of) && is_found (find_ref b b_key s.iface_of)
      then ok s
      else (ensure a a_key s >>= λ t. ensure b b_key t)

  abbrev pub link_found : PlannedLink → Option ℕ → Option ℕ → Rows → Result Rows
  link_found l (some a) (some b) s = link_ifaces link_name a b s
  link_found l _ _ s = ok (record s { warnings = s.warnings ++ unwired l.a_node l.b_node ∷ [] })

  unfoldable pub wire : PlannedLink → Rows → Result Rows
  unfolding ensure_both link_ifaces
  wire l s = do
    let a_key = or_empty l.a_iface
    let b_key = or_empty l.b_iface
    t ← ensure_both l.a_node a_key l.b_node b_key s
    link_found l (find_ref l.a_node a_key t.iface_of) (find_ref l.b_node b_key t.iface_of) t

  unfoldable pub wire_all : List PlannedLink → Rows → Result Rows
  unfolding wire
  wire_all [] s = ok s
  wire_all (l ∷ links) s = wire l s >>= λ t. wire_all links t

  -- beside labs of the names `taken`
  unfoldable pub realize_plan : List Text → Plan → Result Rows
  unfolding lab_name realize_nodes add_networks wire_all
  realize_plan taken plan = do
    let name = lab_name taken plan.name
    lab ← (if holds name taken then err integrity_error else ok (no_rows name plan.warnings))
    s ← realize_nodes plan.nodes 0 lab
    t ← add_networks plan.networks plan.network_kinds s
    wire_all plan.links t
