-- ===== src/Migrate/Clab/Links.antt =====
-- labtris_api/migrate.py: the links of a containerlab file, in `parse_clab`, and the interfaces they use.
use labtris.Prelude.{
  ℕ, suc, Text, codes, List, [], ◌∷◌, ◌++◌, Bool, false, if◌then◌else◌, Option, none, some, text_eq,
  ◌||◌, ◌&&◌, ◌==◌,
}
use labtris.Prelude.Result.{◌>>=◌, Result, ok, err, stop_iteration}
use labtris.Migrate.Yaml.{Yaml, Items, nil, cons, empty, get, or_else, entries_of, iterate}
use labtris.Migrate.Plan.{
  PlannedNode, PlannedLink, Plan, Warning, endpoints, joins_segment, no_equivalent, unknown_nodes,
  safe, holds, is_known,
}
use labtris.Migrate.Clab.Nodes.{shown}

-- `str.partition(":")`, the first part and the last
abbrev pub partition : Text → Text × Text
partition [] = ([], [])
partition (c ∷ s) = if c == b':' then ([], s) else (c ∷ (partition s).0, (partition s).1)

-- `ep_iface or None`
abbrev pub or_none : Text → Option Text
or_none [] = none
or_none (c ∷ s) = some (c ∷ s)

abbrev pub is_segment_name : Text → List (Text × Text) → Bool
is_segment_name name [] = false
is_segment_name name ((raw, n) ∷ segments) = text_eq raw name || is_segment_name name segments

abbrev pub is_outside : Text → Bool
is_outside name = holds name (codes "host" ∷ codes "mgmt-net" ∷ codes "macvlan" ∷ [])

abbrev pub append_warning : Warning → Plan → Plan
append_warning w plan = record plan { warnings = plan.warnings ++ w ∷ [] }

abbrev pub append_link : PlannedLink → Plan → Plan
append_link l plan = record plan { links = plan.links ++ l ∷ [] }

abbrev pub count : Items → ℕ
count nil = 0
count (cons v vs) = suc (count vs)

abbrev pub missing : List Text → List PlannedNode → List Text
missing [] nodes = []
missing (n ∷ names) nodes =
    if is_known (safe n) nodes then missing names nodes else n ∷ missing names nodes

-- the first of two warnings, or a link between the ends `a` and `b`
unfoldable pub link_or_warn :
    Option Warning → Option Warning → Text × Text → Text × Text → Plan → Plan
unfolding safe
link_or_warn (some w) v a b plan = append_warning w plan
link_or_warn none (some w) a b plan = append_warning w plan
link_or_warn none none a b plan =
    if is_known (safe a.0) plan.nodes && is_known (safe b.0) plan.nodes
    then append_link
        (record {
          a_node = safe a.0;
          a_iface = or_none a.1;
          b_node = safe b.0;
          b_iface = or_none b.1;
        })
        plan
    else append_warning (unknown_nodes (missing (a.0 ∷ b.0 ∷ []) plan.nodes)) plan

module _ (repr : Yaml → Text) (segments : List (Text × Text)) where
  -- the warning for an end that is no node, if it is none
  abbrev pub membership : Text → Option Text → Text → Option Warning
  membership name iface other =
      if is_segment_name name segments
      then some (joins_segment other name)
      else if is_outside name
      then some (no_equivalent other iface name)
      else none

  unfoldable pub join : Text × Text → Text × Text → Plan → Plan
  unfolding link_or_warn
  join a b plan =
      link_or_warn (membership a.0 (or_none a.1) b.0)
        (membership b.0 (or_none b.1) (if text_eq b.0 a.0 then b.0 else a.0)) a b plan

  abbrev pub join_items : Items → Plan → Plan
  join_items (cons a (cons b nil)) plan =
      join (partition (shown repr a)) (partition (shown repr b)) plan
  join_items vs plan = append_warning (endpoints (count vs)) plan

  unfoldable pub add_link : Yaml → Plan → Result Plan
  unfolding join get
  add_link raw plan = do
    link ← entries_of (or_else raw (Yaml.dict empty))
    ends ← iterate (or_else (get (codes "endpoints") link) (Yaml.seq nil))
    ok (join_items ends plan)

  unfoldable pub add_each : Items → Plan → Result Plan
  unfolding add_link
  add_each nil plan = ok plan
  add_each (cons raw links) plan = add_link raw plan >>= λ next. add_each links next

  unfoldable pub add_links : Yaml → Plan → Result Plan
  unfolding add_each
  add_links links plan = iterate (or_else links (Yaml.seq nil)) >>= λ vs. add_each vs plan

-- `if end_iface and end_iface not in owner.ifaces: owner.ifaces.append(end_iface)`
abbrev pub attach : Option Text → PlannedNode → PlannedNode
attach none n = n
attach (some iface) n =
    if holds iface n.ifaces then n else record n { ifaces = n.ifaces ++ iface ∷ [] }

-- an end, at its owner: the first node of that name
unfoldable pub attach_end : Text → Option Text → List PlannedNode → Result (List PlannedNode)
attach_end name iface [] = err stop_iteration
attach_end name iface (n ∷ nodes) = do
  let rest = attach_end name iface nodes
  if text_eq n.name name then ok (attach iface n ∷ nodes) else (rest >>= λ ns. ok (n ∷ ns))

unfoldable pub attach_links : List PlannedLink → List PlannedNode → Result (List PlannedNode)
unfolding attach_end
attach_links [] nodes = ok nodes
attach_links (l ∷ links) nodes = do
  with_a ← attach_end l.a_node l.a_iface nodes
  with_b ← attach_end l.b_node l.b_iface with_a
  attach_links links with_b

-- a node with no interface gets "eth1"
abbrev pub filled : List Text → List Text
filled [] = codes "eth1" ∷ []
filled (i ∷ is) = i ∷ is

abbrev pub fill_node : PlannedNode → PlannedNode
fill_node n = record n { ifaces = filled n.ifaces }

abbrev pub fill : List PlannedNode → List PlannedNode
fill [] = []
fill (n ∷ nodes) = fill_node n ∷ fill nodes
