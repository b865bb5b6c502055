-- ===== src/Migrate/Clab/Linked.antt =====
-- labtris_api/migrate.py: a plan that `parse_clab` returns hangs together.
use labtris.Prelude.{
  Text, codes, List, ◌&&◌, Option, none, some, ◌≡◌, ◌≢◌, inl, inr, refl, subst, sym, Bool-cases,
  arith, All, All-append,
}
use labtris.Prelude.Result.{ok, err, ◌>>=◌, stop_iteration}
use labtris.Migrate.Yaml.{
  Yaml, str, Items, nil, cons, Entries, empty, get, has, or_else, entries_of, iterate,
}
use labtris.Migrate.Plan.{Plan, Warning, safe, is_known}
use labtris.Migrate.Clab.{with_nodes, topology_of, document, plan_nodes, parse_clab}
use labtris.Migrate.Clab.Nodes.{shown}
use labtris.Migrate.Clab.Links.{
  link_or_warn, join, join_items, add_link, add_each, add_links, attach_links, fill, partition,
}
use labtris.Migrate.Clab.Owner.{
  Gives, Gives-bind, Known, Joins, HasIface, All-Joins, attach_links-Known, fill-Keeps,
  fill-HasIface,
}
use labtris.Migrate.Clab.Unlinked.{
  Any, NoLinks, entries_of-Gives, iterate-Gives, plan_nodes-NoLinks,
}

-- the links name planned nodes
abbrev AllKnown : Plan → Type 0
AllKnown plan = All (Known plan.nodes) plan.links

-- Each end of each link is at a planned node that has its interface, and each node has an interface.
abbrev pub IsLinked : Plan → Type 0
IsLinked plan = All (Joins plan.nodes) plan.links × All HasIface plan.nodes

link_or_warn-AllKnown :
    (v w : Option Warning) (a b : Text × Text) (plan : Plan)
    → AllKnown plan
    → AllKnown (link_or_warn v w a b plan)
unfolding link_or_warn
link_or_warn-AllKnown (some v) w a b plan h = h
link_or_warn-AllKnown none (some w) a b plan h = h
link_or_warn-AllKnown none none a b plan h =
    elim (Bool-cases (is_known (safe a.0) plan.nodes && is_known (safe b.0) plan.nodes)) [
      | inl c ↦ rw c (
          All-append (Known plan.nodes) plan.links _ h ((ground (arith, c), ground (arith, c)), tt))
      | inr c ↦ rw c h
    ]

module _ (repr : Yaml → Text) (segments : List (Text × Text)) where
  join-AllKnown :
      (a b : Text × Text) (plan : Plan) → AllKnown plan → AllKnown (join repr segments a b plan)
  unfolding join
  join-AllKnown a b plan h = link_or_warn-AllKnown _ _ a b plan h

  join_items-AllKnown :
      (vs : Items) (plan : Plan) → AllKnown plan → AllKnown (join_items repr segments vs plan)
  join_items-AllKnown nil plan h = h
  join_items-AllKnown (cons a nil) plan h = h
  join_items-AllKnown (cons a (cons b nil)) plan h =
      join-AllKnown (partition (shown repr a)) (partition (shown repr b)) plan h
  join_items-AllKnown (cons a (cons b (cons c vs))) plan h = h

  add_link-AllKnown :
      (raw : Yaml) (plan : Plan) → AllKnown plan → Gives AllKnown (add_link repr segments raw plan)
  unfolding add_link
  add_link-AllKnown raw plan h =
      Gives-bind Any AllKnown (entries_of (or_else raw (Yaml.dict empty))) _ (entries_of-Gives _)
        (λ link _.
          Gives-bind Any AllKnown (iterate (or_else (get (codes "endpoints") link) (Yaml.seq nil)))
            _ (iterate-Gives _) (λ ends _. join_items-AllKnown ends plan h))

  add_each-AllKnown :
      (links : Items) (plan : Plan)
      → AllKnown plan
      → Gives AllKnown (add_each repr segments links plan)
  unfolding add_each
  add_each-AllKnown nil plan h = h
  add_each-AllKnown (cons raw links) plan h =
      Gives-bind AllKnown AllKnown (add_link repr segments raw plan) _
        (add_link-AllKnown raw plan h) (λ next k. add_each-AllKnown links next k)

  add_links-AllKnown :
      (links : Yaml) (plan : Plan)
      → AllKnown plan
      → Gives AllKnown (add_links repr segments links plan)
  unfolding add_links
  add_links-AllKnown links plan h =
      Gives-bind Any AllKnown (iterate (or_else links (Yaml.seq nil))) _ (iterate-Gives _)
        (λ vs _. add_each-AllKnown vs plan h)

document-Gives : (v : Option Yaml) → Gives Any (document v)
document-Gives none = λ p. cc p
document-Gives (some (Yaml.scalar b s)) = λ p. cc p
document-Gives (some (str s)) = λ p. cc p
document-Gives (some (Yaml.seq vs)) = λ p. cc p
document-Gives (some (Yaml.dict es)) = tt

with_nodes-Gives : (v : Yaml) → Gives Any (with_nodes v)
with_nodes-Gives (Yaml.scalar b s) = λ p. cc p
with_nodes-Gives (str s) = λ p. cc p
with_nodes-Gives (Yaml.seq vs) = λ p. cc p
with_nodes-Gives (Yaml.dict topo) = elim (Bool-cases (has (codes "nodes") topo)) [
  | inl b ↦ rw b tt
  | inr b ↦ rw b (λ p. cc p)
]

topology_of-Gives : (doc : Entries) → Gives Any (topology_of doc)
topology_of-Gives doc = with_nodes-Gives (or_else (get (codes "topology") doc) (Yaml.dict empty))

finish-IsLinked :
    (plan : Plan)
    → AllKnown plan
    → Gives IsLinked
        (attach_links plan.links plan.nodes >>= λ nodes. ok (record plan { nodes = fill nodes }))
finish-IsLinked plan h =
    Gives-bind _ IsLinked (attach_links plan.links plan.nodes) _
      (attach_links-Known plan.links plan.nodes h)
      (λ ns (k, joined).
        (All-Joins plan.links ns (fill ns) (fill-Keeps ns) joined, fill-HasIface ns))

parse_clab-Gives :
    (repr : Yaml → Text) (split : Text → List Text) (load : Text → Option Yaml) (text : Text)
    → Gives IsLinked (parse_clab repr split load text)
unfolding parse_clab
parse_clab-Gives repr split load text =
    Gives-bind Any IsLinked (document (load text)) _ (document-Gives (load text)) (λ doc _.
      Gives-bind Any IsLinked (topology_of doc) _ (topology_of-Gives doc) (λ topo _.
        Gives-bind NoLinks IsLinked (plan_nodes repr split doc topo) _
          (plan_nodes-NoLinks repr split doc topo)
          (λ draft none_yet.
            Gives-bind AllKnown IsLinked
              (add_links repr draft.segments (get (codes "links") topo) draft.plan) _
              (add_links-AllKnown repr draft.segments (get (codes "links") topo) draft.plan
                (subst (All (Known draft.plan.nodes)) (sym none_yet) tt))
              (λ plan known. finish-IsLinked plan known))))

-- A plan that parse_clab returns hangs together, whatever the file: each end of each link is at a planned
-- node, the first of its name has the end's interface if the file gives one, and each node has an interface.
pub parse_clab-IsLinked :
    (repr : Yaml → Text) (split : Text → List Text) (load : Text → Option Yaml) (text : Text)
    (plan : Plan)
    → parse_clab repr split load text ≡ ok plan
    → IsLinked plan
parse_clab-IsLinked repr split load text plan h =
    subst (Gives IsLinked) h (parse_clab-Gives repr split load text)

-- The search of parse_clab for the owner of a link's end always finds it: no file makes it raise
-- StopIteration.
pub parse_clab-finds :
    (repr : Yaml → Text) (split : Text → List Text) (load : Text → Option Yaml) (text : Text)
    → parse_clab repr split load text ≢ err stop_iteration
parse_clab-finds repr split load text =
    λ h. subst (Gives IsLinked) h (parse_clab-Gives repr split load text) refl
