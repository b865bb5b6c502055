-- ===== src/Migrate/Realize/Named.antt =====
-- labtris_api/routers/labs.py: `realize_plan` makes a row for each planned node.
use labtris.Prelude.{
  ℕ, suc, Text, List, [], ◌∷◌, true, ◌≡◌, inl, inr, refl, ap, ◌∙◌, subst, text_eq, text_eq_refl,
  text_eq-eq, Bool-cases,
}
use labtris.Prelude.Result.{integrity_error, Outcome-weaken}
use labtris.Migrate.Plan.{PlannedNode, is_known}
use labtris.Migrate.Realize.{
  add_network, add_networks, node_row, add_row, is_found, add_iface, add_ifaces, realize_node,
  realize_nodes,
}
use labtris.Migrate.Realize.State.{NodeRow, Rows, node_named, network_named, find_node, put_node}
use labtris.Migrate.Realize.Wired.{
  Makes, Makes-bind, Kept, Kept-refl, Kept-trans, Made, add_iface-Made,
}

abbrev pub Has : Text → List (Text × NodeRow) → Type 0
Has name rows = is_found (find_node name rows) ≡ true

put_node-Has :
    (name : Text) (new : NodeRow) (rows : List (Text × NodeRow)) → Has name (put_node name new rows)
unfolding find_node put_node
put_node-Has name new [] = rw (text_eq_refl name) refl
put_node-Has name new ((key, row) ∷ rows) = elim (Bool-cases (text_eq key name)) [
  | inl b ↦ rw b (rw b refl)
  | inr b ↦ rw b (rw b (put_node-Has name new rows))
]

Has-put_node :
    (m name : Text) (new : NodeRow) (rows : List (Text × NodeRow))
    → Has m rows
    → Has m (put_node name new rows)
unfolding find_node put_node
Has-put_node m name new [] h = cc h
Has-put_node m name new ((key, row) ∷ rows) h = elim (Bool-cases (text_eq key name)) [
  | inl b ↦
      rw b (elim (Bool-cases (text_eq key m)) [ inl c ↦ rw c refl | inr c ↦ rw c (rw c at h) ])
  | inr b ↦ rw b (elim (Bool-cases (text_eq key m)) [
    | inl c ↦ rw c refl
    | inr c ↦ rw c (Has-put_node m name new rows (rw c at h))
  ])
]

-- every one of the nodes has a row, and rows, warnings and links stay
pub record Grown (nodes : List PlannedNode) (s t : Rows) : Type 0 where
  pub named : (m : Text) → is_known m nodes ≡ true → Has m t.by_name
  pub kept : (m : Text) → Has m s.by_name → Has m t.by_name
  pub warnings : t.warnings ≡ s.warnings
  pub links : t.links ≡ s.links

Grown-cons :
    (n : PlannedNode) (nodes : List PlannedNode) (index : ℕ) (s t u : Rows)
    → Kept (add_row n index s) t
    → Grown nodes t u
    → Grown (n ∷ nodes) s u
Grown-cons n nodes index s t u k g = record {
  named = λ m h. first m h;
  kept = λ m h. g.kept m (row m (Has-put_node m n.name (node_row n s.next_id) s.by_name h));
  warnings = g.warnings ∙ k.warnings;
  links = g.links ∙ k.links;
}
  where
    row : (m : Text) → Has m (add_row n index s).by_name → Has m t.by_name
    row m h = ap (λ d. is_found (find_node m d)) k.by_name ∙ h

    first : (m : Text) → is_known m (n ∷ nodes) ≡ true → Has m u.by_name
    first m h = elim (Bool-cases (text_eq n.name m)) [
      | inl b ↦ g.kept m (
          row m (
            subst (λ x. Has x (add_row n index s).by_name) (text_eq-eq n.name m b)
              (put_node-Has n.name (node_row n s.next_id) s.by_name)))
      | inr b ↦ g.named m (rw b at h)
    ]

-- the same, with no nodes
pub record Unmoved (s t : Rows) : Type 0 where
  pub by_name : t.by_name ≡ s.by_name
  pub warnings : t.warnings ≡ s.warnings
  pub links : t.links ≡ s.links

pub add_networks-Unmoved :
    (names : List Text) (kinds : List (Text × Text)) (s : Rows)
    → Makes (Unmoved s) (add_networks names kinds s)
unfolding add_networks add_network
add_networks-Unmoved [] kinds s = record { by_name = refl; warnings = refl; links = refl }
add_networks-Unmoved (name ∷ names) kinds s = elim (Bool-cases (network_named name s.networks)) [
  | inl b ↦ rw b refl
  | inr b ↦ rw b (
      Outcome-weaken (λ e. e ≡ integrity_error) (Unmoved _) _ _ (add_networks-Unmoved names kinds _)
        (λ t u. record { by_name = u.by_name; warnings = u.warnings; links = u.links }))
]

module _ (mac : ℕ → Text) (scheme : Text → Text → Text) (link_name : ℕ → Text) where
  add_ifaces-Kept :
      (node : NodeRow) (idx : ℕ) (names : List Text) (s : Rows)
      → Makes (Kept s) (add_ifaces mac scheme link_name node idx names s)
  unfolding add_ifaces
  add_ifaces-Kept node idx [] s = Kept-refl s
  add_ifaces-Kept node idx (name ∷ names) s =
      Makes-bind (Made mac scheme link_name node.name name s) _
        (add_iface mac scheme link_name node idx node.name name s) _
        (add_iface-Made mac scheme link_name node idx node.name name s)
        (λ t (k, _).
          Outcome-weaken (λ e. e ≡ integrity_error) (Kept t) _ _
            (add_ifaces-Kept node (suc idx) names t) (λ u l. Kept-trans s t u k l))

  realize_node-Kept :
      (n : PlannedNode) (index : ℕ) (s : Rows)
      → Makes (Kept (add_row n index s)) (realize_node mac scheme link_name n index s)
  unfolding realize_node
  realize_node-Kept n index s = elim (Bool-cases (node_named n.name s.nodes)) [
    | inl b ↦ rw b refl
    | inr b ↦ rw b (add_ifaces-Kept (node_row n s.next_id) 0 n.ifaces (add_row n index s))
  ]

  pub realize_nodes-Grown :
      (nodes : List PlannedNode) (index : ℕ) (s : Rows)
      → Makes (Grown nodes s) (realize_nodes mac scheme link_name nodes index s)
  unfolding realize_nodes
  realize_nodes-Grown [] index s = record {
    named = λ m h. cc h;
    kept = λ m h. h;
    warnings = refl;
    links = refl;
  }
  realize_nodes-Grown (n ∷ nodes) index s =
      Makes-bind (Kept (add_row n index s)) _ (realize_node mac scheme link_name n index s) _
        (realize_node-Kept n index s)
        (λ t k.
          Outcome-weaken (λ e. e ≡ integrity_error) (Grown nodes t) _ _
            (realize_nodes-Grown nodes (suc index) t) (λ u g. Grown-cons n nodes index s t u k g))
