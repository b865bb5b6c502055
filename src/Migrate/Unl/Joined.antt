-- ===== src/Migrate/Unl/Joined.antt =====
-- labtris_api/migrate.py: the links that `parse_unl` plans, and their rows.
use labtris.Prelude.{
  ℕ, suc, Text, codes, List, [], ◌∷◌, ◌++◌, Bool, true, Option, none, some, ◌≡◌, ◌⊎◌, inl, inr,
  refl, sym, ◌∙◌, subst, arith, text_eq, text_eq_refl, Bool-cases, All, All-append,
}
use labtris.Prelude.Result.{Result, ok, err, Outcome, Outcome-bind, Outcome-weaken}
use labtris.Migrate.Plan.{PlannedNode, Plan, safe, put, is_known}
use labtris.Migrate.Clab.{empty_plan}
use labtris.Migrate.Clab.Owner.{Known}
use labtris.Migrate.Unl.{
  Port, Element, Document, Coordinate, Sketch, or_blank, text_or, port_name, name_of, Nets,
  add_member, add_port, add_ports, collect, draw_net, draw_nets, add_element, add_elements,
  plan_document, parsed, parse_unl, position, coordinate_of,
}

-- a value with a property, or any exception
abbrev Ends {ℓ} : {A : Type ℓ} → (A → Type 0) → Result A → Type 0
Ends P m = Outcome (λ e. Unit) P m

Ends-all {ℓ} : {A : Type ℓ} (P : A → Type 0) (m : Result A) → ((a : A) → P a) → Ends P m
Ends-all P (ok a) h = h a
Ends-all P (err e) h = tt

abbrev Names : List PlannedNode → List (Text × Text) → Text → Type 0
Names ns by_id id = is_known (name_of id by_id) ns ≡ true

is_known-append :
    (m : Text) (ns ks : List PlannedNode) → is_known m ns ≡ true → is_known m (ns ++ ks) ≡ true
is_known-append m [] ks h = cc h
is_known-append m (n ∷ ns) ks h = ground (arith, is_known-append m ns ks)

is_known-last : (n : PlannedNode) (ns : List PlannedNode) → is_known n.name (ns ++ n ∷ []) ≡ true
is_known-last n [] = ground (arith, text_eq_refl n.name)
is_known-last n (k ∷ ns) = ground (arith, is_known-last n ns)

name_of-put : (id name : Text) (d : List (Text × Text)) → name_of id (put id name d) ≡ name
unfolding put
name_of-put id name [] = rw (text_eq_refl id) refl
name_of-put id name ((key, v) ∷ d) = elim (Bool-cases (text_eq key id)) [
  | inl b ↦ rw b (rw b refl)
  | inr b ↦ rw b (rw b (name_of-put id name d))
]

-- a put gives the name to its key and keeps the others
name_of-put-cases :
    (j id name : Text) (d : List (Text × Text))
    → (name_of j (put id name d) ≡ name) ⊎ (name_of j (put id name d) ≡ name_of j d)
unfolding put
name_of-put-cases j id name [] = elim (Bool-cases (text_eq id j)) [
  | inl b ↦ inl (rw b refl)
  | inr b ↦ inr (rw b refl)
]
name_of-put-cases j id name ((key, v) ∷ d) = elim (Bool-cases (text_eq key id)) [
  | inl b ↦
      rw b (elim (Bool-cases (text_eq key j)) [ inl c ↦ inl (rw c refl) | inr c ↦ inr (rw c refl) ])
  | inr b ↦ rw b (elim (Bool-cases (text_eq key j)) [
    | inl c ↦ inr (rw c refl)
    | inr c ↦ rw c (name_of-put-cases j id name d)
  ])
]

-- what the loop over the elements keeps
record Named (els : List Element) (s t : Sketch) : Type 0 where
  pub here : All (λ el. Names t.plan.nodes t.by_id (or_blank el.id)) els
  pub kept : (id : Text) → Names s.plan.nodes s.by_id id → Names t.plan.nodes t.by_id id
  pub links : t.plan.links ≡ s.plan.links

Names-put :
    (ns : List PlannedNode) (n : PlannedNode) (d : List (Text × Text)) (id j : Text)
    → Names ns d j
    → Names (ns ++ n ∷ []) (put id n.name d) j
Names-put ns n d id j h = elim (name_of-put-cases j id n.name d) [
  | inl p ↦ rw p (is_known-last n ns)
  | inr p ↦ rw p (is_known-append (name_of j d) ns (n ∷ []) h)
]

Names-new :
    (ns : List PlannedNode) (n : PlannedNode) (d : List (Text × Text)) (id : Text)
    → Names (ns ++ n ∷ []) (put id n.name d) id
Names-new ns n d id = rw (name_of-put id n.name d) (is_known-last n ns)

module _ (lower : Text → Text) (coordinate : Text → Coordinate) (in_catalog : Text → Bool) where
  record Added (el : Element) (s t : Sketch) : Type 0 where
    pub new : Names t.plan.nodes t.by_id (or_blank el.id)
    pub kept : (id : Text) → Names s.plan.nodes s.by_id id → Names t.plan.nodes t.by_id id
    pub links : t.plan.links ≡ s.plan.links

  add_element-Added :
      (el : Element) (s : Sketch) → Ends (Added el s) (add_element lower coordinate in_catalog el s)
  unfolding add_element
  add_element-Added el s =
      Outcome-bind (λ e. Unit) (λ _. Unit) (Added el s)
        (position lower coordinate in_catalog (coordinate_of lower coordinate in_catalog el.left)
          (coordinate_of lower coordinate in_catalog el.top))
        _ (Ends-all (λ _. Unit) _ (λ _. tt))
        (λ place _. record {
          new = Names-new s.plan.nodes _ s.by_id (or_blank el.id);
          kept = λ id h. Names-put s.plan.nodes _ s.by_id (or_blank el.id) id h;
          links = refl;
        })

  add_elements-Named :
      (els : List Element) (s : Sketch)
      → Ends (Named els s) (add_elements lower coordinate in_catalog els s)
  unfolding add_elements
  add_elements-Named [] s = record { here = tt; kept = λ id h. h; links = refl }
  add_elements-Named (el ∷ els) s =
      Outcome-bind (λ e. Unit) (Added el s) _ (add_element lower coordinate in_catalog el s) _
        (add_element-Added el s)
        (λ t a.
          Outcome-weaken (λ e. Unit) (Named els t) _ _ (add_elements-Named els t)
            (λ u n. record {
              here = (n.kept (or_blank el.id) a.new, n.here);
              kept = λ id h. n.kept id (a.kept id h);
              links = n.links ∙ a.links;
            }))

-- every member of every network is a planned node's
module _ (ns : List PlannedNode) where
  abbrev IsMember : Text × Text → Type 0
  IsMember m = is_known m.0 ns ≡ true

  abbrev Members : Nets → Type 0
  Members nets = All (λ net. All IsMember net.1) nets

  Members-add_member :
      (net : Text) (m : Text × Text) (nets : Nets)
      → IsMember m
      → Members nets
      → Members (add_member net m nets)
  unfolding add_member
  Members-add_member net m [] h k = ((h, tt), tt)
  Members-add_member net m ((key, ms) ∷ nets) h (p, k) = elim (Bool-cases (text_eq key net)) [
    | inl b ↦ rw b (All-append IsMember ms (m ∷ []) p (h, tt), k)
    | inr b ↦ rw b (p, Members-add_member net m nets h k)
  ]

  Members-add_port :
      (net : Option Text) (m : Text × Text) (nets : Nets)
      → IsMember m
      → Members nets
      → Members (add_port net m nets)
  unfolding add_port
  Members-add_port none m nets h k = k
  Members-add_port (some []) m nets h k = k
  Members-add_port (some (c ∷ s)) m nets h k = Members-add_member (c ∷ s) m nets h k

  Members-add_ports :
      (node : Text) (ports : List Port) (n : ℕ) (nets : Nets)
      → is_known node ns ≡ true
      → Members nets
      → Members (add_ports node ports n nets)
  unfolding add_ports
  Members-add_ports node [] n nets h k = k
  Members-add_ports node (port ∷ ports) n nets h k =
      Members-add_ports node ports (suc n) _ h
        (Members-add_port port.network_id (node, port_name port n) nets h k)

  Members-collect :
      (by_id : List (Text × Text)) (els : List Element) (nets : Nets)
      → All (λ el. Names ns by_id (or_blank el.id)) els
      → Members nets
      → Members (collect by_id els nets)
  unfolding collect
  Members-collect by_id [] nets h k = k
  Members-collect by_id (el ∷ els) nets (named, h) k =
      Members-collect by_id els _ h
        (Members-add_ports (name_of (or_blank el.id) by_id) el.interfaces 0 nets named k)

  record Drawn (plan : Plan) : Type 0 where
    pub nodes : plan.nodes ≡ ns
    pub links : All (Known ns) plan.links

  Drawn-draw_net :
      (net : Text) (ms : List (Text × Text)) (plan : Plan)
      → All IsMember ms
      → Drawn plan
      → Drawn (draw_net net ms plan)
  Drawn-draw_net net [] plan h d = d
  Drawn-draw_net net (a ∷ []) plan h d = d
  Drawn-draw_net net (a ∷ b ∷ []) plan (p, (q, h)) d = record {
    nodes = d.nodes;
    links = All-append (Known ns) plan.links _ d.links ((p, q), tt);
  }
  Drawn-draw_net net (a ∷ b ∷ c ∷ ms) plan h d = record { nodes = d.nodes; links = d.links }

  Drawn-draw_nets :
      (nets : Nets) (plan : Plan) → Members nets → Drawn plan → Drawn (draw_nets nets plan)
  unfolding draw_nets
  Drawn-draw_nets [] plan h d = d
  Drawn-draw_nets ((net, ms) ∷ nets) plan (p, h) d =
      Drawn-draw_nets nets (draw_net net ms plan) h (Drawn-draw_net net ms plan p d)

abbrev AllKnown : Plan → Type 0
AllKnown plan = All (Known plan.nodes) plan.links

AllKnown-Drawn : (ns : List PlannedNode) (plan : Plan) → Drawn ns plan → AllKnown plan
AllKnown-Drawn ns plan d = subst (λ k. All (Known k) plan.links) (sym d.nodes) d.links

-- every link of a plan is between planned nodes
pub parse_unl-Known :
    (lower : Text → Text) (coordinate : Text → Coordinate) (in_catalog : Text → Bool)
    (load : Text → Option Document) (xml : Text) (fallback : Option Text) (plan : Plan)
    → parse_unl lower coordinate in_catalog load xml fallback ≡ ok plan
    → All (Known plan.nodes) plan.links
unfolding parse_unl plan_document
parse_unl-Known lower coordinate in_catalog load xml fallback plan h = subst (Ends AllKnown) h (
    Outcome-bind (λ e. Unit) (λ _. Unit) AllKnown (parsed lower coordinate in_catalog (load xml)) _
      (Ends-all (λ _. Unit) _ (λ _. tt))
      (λ doc _.
        Outcome-bind (λ e. Unit) (Named doc.nodes (start doc)) AllKnown
          (add_elements lower coordinate in_catalog doc.nodes (start doc)) _
          (add_elements-Named lower coordinate in_catalog doc.nodes (start doc))
          (λ s n. drawn doc s n)))
  where
    start : Document → Sketch
    start doc = record {
      plan = empty_plan (safe (text_or fallback (text_or doc.name (codes "unl-import"))));
      by_id = [];
    }

    drawn :
        (doc : Document) (s : Sketch)
        → Named doc.nodes (start doc) s
        → AllKnown (draw_nets (collect s.by_id doc.nodes []) s.plan)
    drawn doc s n = AllKnown-Drawn s.plan.nodes (draw_nets (collect s.by_id doc.nodes []) s.plan) (
        Drawn-draw_nets s.plan.nodes (collect s.by_id doc.nodes []) s.plan
          (Members-collect s.plan.nodes s.by_id doc.nodes [] n.here tt)
          (record { nodes = refl; links = subst (All (Known s.plan.nodes)) (sym n.links) tt }))
