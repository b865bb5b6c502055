-- ===== src/Migrate/Realize/Imported.antt =====
-- labtris_api/routers/labs.py: `realize_plan` at the plans of `parse_clab`.
use labtris.Prelude.{
  Bool, ℕ, ℕ, Text, List, [], ◌∷◌, true, Option, ◌≡◌, ◌⊎◌, inl, inr, refl, ap, sym, ◌∙◌, subst,
  arith, Bool-cases, All, length,
}
use labtris.Prelude.Result.{Result, ok, err, ◌>>=◌, integrity_error, Outcome-weaken}
use labtris.Migrate.Yaml.{Yaml}
use labtris.Migrate.Plan.{PlannedNode, PlannedLink, Plan, holds, is_known}
use labtris.Migrate.Realize.{lab_name, add_networks, realize_nodes, wire_all, realize_plan}
use labtris.Migrate.Realize.State.{NodeRow, Rows, no_rows}
use labtris.Migrate.Realize.Wired.{Makes, Makes-bind, NamedIn, Wired, wire_all-Wired}
use labtris.Migrate.Clab.{parse_clab}
use labtris.Migrate.Clab.Owner.{Known, Joins, offers}
use labtris.Migrate.Unl.{Coordinate, Document, parse_unl}
use labtris.Migrate.Unl.Joined.{parse_unl-Known}
use labtris.Migrate.Clab.Linked.{parse_clab-IsLinked}
use labtris.Migrate.Realize.Ends.{Joining, OnNetwork, Apart}
use labtris.Migrate.Realize.Sound.{IsSound}
use labtris.Migrate.Realize.Joined.{
  Makes-both, add_networks-IsSound, realize_nodes-IsSound, IsDone, wire_all-IsDone,
}
use labtris.Migrate.Realize.Named.{Has, Grown, Unmoved, add_networks-Unmoved, realize_nodes-Grown}

offers-is_known :
    (m : Text) (j : Option Text) (ns : List PlannedNode)
    → offers m j ns ≡ true
    → is_known m ns ≡ true
offers-is_known m j [] h = cc h
offers-is_known m j (n ∷ ns) h = ground (arith, offers-is_known m j ns)

Joins-Known :
    (links : List PlannedLink) (ns : List PlannedNode) → All (Joins ns) links → All (Known ns) links
Joins-Known [] ns h = tt
Joins-Known (l ∷ links) ns ((a, b), h) = (
  (offers-is_known l.a_node l.a_iface ns a, offers-is_known l.b_node l.b_iface ns b),
  Joins-Known links ns h,
)

Known-NamedIn :
    (links : List PlannedLink) (ns : List PlannedNode) (rows : List (Text × NodeRow))
    → ((m : Text) → is_known m ns ≡ true → Has m rows)
    → All (Known ns) links
    → All (NamedIn rows) links
Known-NamedIn [] ns rows named h = tt
Known-NamedIn (l ∷ links) ns rows named ((a, b), h) =
    ((named l.a_node a, named l.b_node b), Known-NamedIn links ns rows named h)

-- The link rows are the planned links, in order, each joining an interface of either node, with the name
-- that the plan gives it; each has a network row of its own; each interface is on the network of the
-- last link that joins it, and on none if no link does; and the warnings are the plan's.
abbrev pub IsRealized : Plan → Rows → Type 0
IsRealized plan rows =
    Joining rows plan.links rows.links
    × All (OnNetwork rows.links) rows.ifaces
    × Apart rows.links
    × (rows.warnings ≡ plan.warnings)

module _ (mac : ℕ → Text) (scheme : Text → Text → Text) (link_name : ℕ → Text) (taken : List Text)
    (plan : Plan) where
  rows-IsRealized :
      (lab : Rows)
      → IsSound lab
      → lab.links ≡ []
      → lab.warnings ≡ plan.warnings
      → All (Known plan.nodes) plan.links
      → Makes (IsRealized plan) (do
        s ← realize_nodes mac scheme link_name plan.nodes 0 lab
        t ← add_networks plan.networks plan.network_kinds s
        wire_all mac scheme link_name plan.links t)
  rows-IsRealized lab sound none_yet warned known =
      Makes-bind (λ s. Grown plan.nodes lab s × IsSound s) _
        (realize_nodes mac scheme link_name plan.nodes 0 lab) _
        (Makes-both (Grown plan.nodes lab) IsSound
          (realize_nodes mac scheme link_name plan.nodes 0 lab)
          (realize_nodes-Grown mac scheme link_name plan.nodes 0 lab)
          (realize_nodes-IsSound mac scheme link_name plan.nodes 0 lab sound))
        (λ s (g, h).
          Makes-bind (λ t. Unmoved s t × IsSound t) _
            (add_networks plan.networks plan.network_kinds s) _
            (Makes-both (Unmoved s) IsSound (add_networks plan.networks plan.network_kinds s)
              (add_networks-Unmoved plan.networks plan.network_kinds s)
              (add_networks-IsSound plan.networks plan.network_kinds s h))
            (λ t (u, k). last s t g u k))
    where
      last :
          (s t : Rows)
          → Grown plan.nodes lab s
          → Unmoved s t
          → IsSound t
          → Makes (IsRealized plan) (wire_all mac scheme link_name plan.links t)
      last s t g u k =
          let named : All (NamedIn t.by_name) plan.links =
            subst (λ d. All (NamedIn d) plan.links) (sym u.by_name)
              (Known-NamedIn plan.links plan.nodes s.by_name g.named known) in
          Outcome-weaken (λ e. e ≡ integrity_error)
            (λ v. Wired mac scheme link_name (length plan.links) t v × IsDone plan.links v) _
            (wire_all mac scheme link_name plan.links t)
            (Makes-both (Wired mac scheme link_name (length plan.links) t) (IsDone plan.links)
              (wire_all mac scheme link_name plan.links t)
              (wire_all-Wired mac scheme link_name plan.links t named)
              (wire_all-IsDone mac scheme link_name [] plan.links t
                (k, subst (Joining t []) (sym (u.links ∙ g.links ∙ none_yet)) tt) named))
            (λ v (w, (d, joined)).
              (joined, d.attached, d.apart, w.warnings ∙ u.warnings ∙ g.warnings ∙ warned))

  realize_plan-IsRealized :
      All (Known plan.nodes) plan.links
      → Makes (IsRealized plan) (realize_plan mac scheme link_name taken plan)
  unfolding realize_plan
  realize_plan-IsRealized known = elim (Bool-cases (holds (lab_name taken plan.name) taken)) [
    | inl b ↦ rw b refl
    | inr b ↦ rw b (
        rows-IsRealized (no_rows (lab_name taken plan.name) plan.warnings)
          (record { named = tt; owned = tt; below = tt; attached = tt; apart = tt }) refl refl
          known)
  ]

Makes-cases :
    {A : Type 0} (P : A → Type 0) (m : Result A)
    → Makes P m
    → ((a : A) × (m ≡ ok a) × P a) ⊎ (m ≡ err integrity_error)
Makes-cases P (ok a) p = inl (a, refl, p)
Makes-cases P (err e) p = inr (ap err p)

-- realize_plan makes the links of a plan that parse_clab returns, or the database refuses a row of
-- it. The link rows are the planned links, in order, each joining an interface of either node, with
-- the name that the plan gives it; each has a network row of its own; each interface is on the
-- network of the last link that joins it, and on none if no link does; and there is no new warning.
pub realize_plan-parse_clab :
    (repr : Yaml → Text) (split : Text → List Text) (load : Text → Option Yaml) (text : Text)
    (mac : ℕ → Text) (scheme : Text → Text → Text) (link_name : ℕ → Text) (taken : List Text)
    (plan : Plan)
    → parse_clab repr split load text ≡ ok plan
    → ((rows : Rows) × (realize_plan mac scheme link_name taken plan ≡ ok rows)
        × IsRealized plan rows)
      ⊎ (realize_plan mac scheme link_name taken plan ≡ err integrity_error)
realize_plan-parse_clab repr split load text mac scheme link_name taken plan h =
    Makes-cases (IsRealized plan) (realize_plan mac scheme link_name taken plan) (
      realize_plan-IsRealized mac scheme link_name taken plan
        (Joins-Known plan.links plan.nodes (parse_clab-IsLinked repr split load text plan h).0))

-- realize_plan makes the links of a plan that parse_unl returns, or the database refuses a row of
-- it. The link rows are the planned links, in order, each joining an interface of either node, with
-- the name that the plan gives it; each has a network row of its own; each interface is on the
-- network of the last link that joins it, and on none if no link does; and there is no new warning.
pub realize_plan-parse_unl :
    (lower : Text → Text) (coordinate : Text → Coordinate) (in_catalog : Text → Bool)
    (load : Text → Option Document) (xml : Text) (fallback : Option Text) (mac : ℕ → Text)
    (scheme : Text → Text → Text) (link_name : ℕ → Text) (taken : List Text) (plan : Plan)
    → parse_unl lower coordinate in_catalog load xml fallback ≡ ok plan
    → ((rows : Rows) × (realize_plan mac scheme link_name taken plan ≡ ok rows)
        × IsRealized plan rows)
      ⊎ (realize_plan mac scheme link_name taken plan ≡ err integrity_error)
realize_plan-parse_unl lower coordinate in_catalog load xml fallback mac scheme link_name taken plan
      h =
    Makes-cases (IsRealized plan) (realize_plan mac scheme link_name taken plan) (
      realize_plan-IsRealized mac scheme link_name taken plan
        (parse_unl-Known lower coordinate in_catalog load xml fallback plan h))
