-- ===== src/Migrate/Realize/Joined.antt =====
-- labtris_api/routers/labs.py: the steps of `realize_plan` keep its rows sound, and each link that is
-- wired joins the interfaces that are planned.
use labtris.Prelude.{
  codes, ℕ, suc, ◌+◌, ◌<◌, Text, List, [], ◌∷◌, ◌++◌, true, ◌&&◌, Option, none, some, ◌≡◌, ◌⊎◌, inl,
  inr, refl, sym, subst, Bool-cases, Option-cases, All,
}
use labtris.Prelude.Result.{Result, ok, err, integrity_error, Outcome-weaken}
use labtris.Lifecycle.{guest_name}
use labtris.Migrate.Plan.{PlannedNode, PlannedLink}
use labtris.Migrate.Realize.{
  add_network, add_networks, node_row, add_row, link_ifaces, or_empty, is_found, add_iface,
  add_ifaces, realize_node, realize_nodes, add_end, ensure, ensure_both, link_found, wire, wire_all,
}
use labtris.Migrate.Realize.State.{
  NodeRow, NetworkRow, LinkRow, Rows, node_named, network_named, iface_clash, find_ref, count_refs,
  find_node, connect,
}
use labtris.Migrate.Realize.Ends.{HasEnd, HasNetwork, Joining, Any-last}
use labtris.Migrate.Realize.Sound.{
  IsSound, Extends, Extends-refl, Extends-trans, IsNode, find_node-IsNode, find_ref-IsOwned,
  IsSound-add_iface, IsSound-add_row, IsSound-add_network, IsSound-link_ifaces,
}
use labtris.Migrate.Realize.Wired.{
  Makes, Makes-bind, Named, BothMade, ensure_both-BothMade, NamedIn, Wired, wire-Wired,
}
use mathlib.Core.List.{append_assoc, append-nil}

-- two properties of one result
pub Makes-both :
    {A : Type 0} (P Q : A → Type 0) (m : Result A)
    → Makes P m
    → Makes Q m
    → Makes (λ a. P a × Q a) m
Makes-both P Q (ok a) p q = (p, q)
Makes-both P Q (err e) p q = p

given_name :
    (idx : ℕ) (wanted : Text) (scheme : Option Text)
    → (wanted ≡ []) ⊎ (guest_name idx (some wanted) scheme ≡ wanted)
unfolding guest_name
given_name idx [] scheme = inl refl
given_name idx (c ∷ s) scheme = inr refl

pub add_networks-IsSound :
    (names : List Text) (kinds : List (Text × Text)) (s : Rows)
    → IsSound s
    → Makes IsSound (add_networks names kinds s)
unfolding add_networks add_network
add_networks-IsSound [] kinds s h = h
add_networks-IsSound (name ∷ names) kinds s h = elim (Bool-cases (network_named name s.networks)) [
  | inl b ↦ rw b refl
  | inr b ↦ rw b (add_networks-IsSound names kinds _ (IsSound-add_network _ s h))
]

-- links that are joined stay so
Joining-Extends :
    (s t : Rows) (links : List PlannedLink) (rows : List LinkRow)
    → Extends s t
    → Joining s links rows
    → Joining t links rows
Joining-Extends s t [] [] e h = tt
Joining-Extends s t [] (r ∷ rows) e h = absurd h
Joining-Extends s t (l ∷ links) [] e h = absurd h
Joining-Extends s t (l ∷ links) (r ∷ rows) e (a, b, n, h) = (
  e.ends l.a_node (or_empty l.a_iface) r.a_iface_id a,
  e.ends l.b_node (or_empty l.b_iface) r.b_iface_id b,
  e.networks r.network_id n,
  Joining-Extends s t links rows e h,
)

Joining-snoc :
    (s : Rows) (links : List PlannedLink) (rows : List LinkRow) (l : PlannedLink) (r : LinkRow)
    → Joining s links rows
    → HasEnd s.nodes s.ifaces l.a_node (or_empty l.a_iface) r.a_iface_id
    → HasEnd s.nodes s.ifaces l.b_node (or_empty l.b_iface) r.b_iface_id
    → HasNetwork r.network_id s.networks
    → Joining s (links ++ l ∷ []) (rows ++ r ∷ [])
Joining-snoc s [] [] l r h a b n = (a, b, n, tt)
Joining-snoc s [] (q ∷ rows) l r h a b n = absurd h
Joining-snoc s (k ∷ links) [] l r h a b n = absurd h
Joining-snoc s (k ∷ links) (q ∷ rows) l r (x, y, z, h) a b n =
    (x, y, z, Joining-snoc s links rows l r h a b n)

-- the links that are done
abbrev pub IsDone : List PlannedLink → Rows → Type 0
IsDone links s = IsSound s × Joining s links s.links

module _ (mac : ℕ → Text) (scheme : Text → Text → Text) (link_name : ℕ → Text) where
  add_iface-Extends :
      (node : NodeRow) (idx : ℕ) (target wanted : Text) (s : Rows)
      → IsSound s
      → IsNode s.nodes target node.id
      → Makes (Extends s) (add_iface mac scheme link_name node idx target wanted s)
  unfolding add_iface
  add_iface-Extends node idx target wanted s h owner =
      elim (Bool-cases (
        iface_clash node.id idx
          (guest_name idx (some wanted) (some (scheme node.runtime node.image))) s.ifaces)) [
            | inl b ↦ rw b refl
            | inr b ↦ rw b (
                IsSound-add_iface s node target wanted _ h owner
                  (refl, refl, refl, given_name idx wanted (some (scheme node.runtime node.image))))
          ]

  add_ifaces-IsSound :
      (node : NodeRow) (idx : ℕ) (names : List Text) (s : Rows)
      → IsSound s
      → IsNode s.nodes node.name node.id
      → Makes IsSound (add_ifaces mac scheme link_name node idx names s)
  unfolding add_ifaces
  add_ifaces-IsSound node idx [] s h owner = h
  add_ifaces-IsSound node idx (name ∷ names) s h owner =
      Makes-bind (Extends s) _ (add_iface mac scheme link_name node idx node.name name s) _
        (add_iface-Extends node idx node.name name s h owner)
        (λ t e. add_ifaces-IsSound node (suc idx) names t e.sound (e.nodes node.name node.id owner))

  realize_node-IsSound :
      (n : PlannedNode) (index : ℕ) (s : Rows)
      → IsSound s
      → Makes IsSound (realize_node mac scheme link_name n index s)
  unfolding realize_node
  realize_node-IsSound n index s h = elim (Bool-cases (node_named n.name s.nodes)) [
    | inl b ↦ rw b refl
    | inr b ↦ rw b (
        add_ifaces-IsSound (node_row n s.next_id) 0 n.ifaces (add_row n index s)
          (IsSound-add_row n index s h) (Any-last _ s.nodes (node_row n s.next_id) (refl, refl)))
  ]

  pub realize_nodes-IsSound :
      (nodes : List PlannedNode) (index : ℕ) (s : Rows)
      → IsSound s
      → Makes IsSound (realize_nodes mac scheme link_name nodes index s)
  unfolding realize_nodes
  realize_nodes-IsSound [] index s h = h
  realize_nodes-IsSound (n ∷ nodes) index s h =
      Makes-bind IsSound _ (realize_node mac scheme link_name n index s) _
        (realize_node-IsSound n index s h) (λ t k. realize_nodes-IsSound nodes (suc index) t k)

  ensure-Extends :
      (target wanted : Text) (s : Rows)
      → IsSound s
      → Makes (Extends s) (ensure mac scheme link_name target wanted s)
  unfolding ensure add_end
  ensure-Extends target wanted s h =
      elim (Bool-cases (is_found (find_ref target wanted s.iface_of))) [
        | inl b ↦ rw b (Extends-refl s h)
        | inr b ↦ rw b (elim (Option-cases (find_node target s.by_name)) [
          | inr e ↦ rw e (Extends-refl s h)
          | inl (owner, e) ↦ rw e (
              add_iface-Extends owner (count_refs target s.iface_of) target wanted s h
                (find_node-IsNode s.nodes target s.by_name owner h.named e))
        ])
      ]

  ensure_both-Extends :
      (a a_key b b_key : Text) (s : Rows)
      → IsSound s
      → Makes (Extends s) (ensure_both mac scheme link_name a a_key b b_key s)
  unfolding ensure_both
  ensure_both-Extends a a_key b b_key s h =
      elim (Bool-cases
        (is_found (find_ref a a_key s.iface_of) && is_found (find_ref b b_key s.iface_of))) [
          | inl c ↦ rw c (Extends-refl s h)
          | inr c ↦ rw c (
              Makes-bind (Extends s) _ (ensure mac scheme link_name a a_key s) _
                (ensure-Extends a a_key s h)
                (λ t e.
                  Outcome-weaken (λ x. x ≡ integrity_error) (Extends t) _
                    (ensure mac scheme link_name b b_key t) (ensure-Extends b b_key t e.sound)
                    (λ u f. Extends-trans s t u e f)))
        ]

  link_found-IsDone :
      (done : List PlannedLink) (l : PlannedLink) (s : Rows) (a b : Option ℕ)
      → IsDone done s
      → find_ref l.a_node (or_empty l.a_iface) s.iface_of ≡ a
      → find_ref l.b_node (or_empty l.b_iface) s.iface_of ≡ b
      → is_found a ≡ true
      → is_found b ≡ true
      → Makes (IsDone (done ++ l ∷ [])) (link_found mac scheme link_name l a b s)
  unfolding link_ifaces
  link_found-IsDone done l s none b d p q h k = cc h
  link_found-IsDone done l s (some a) none d p q h k = cc k
  link_found-IsDone done l s (some a) (some b) (h, joined) p q _ _ =
      elim (Bool-cases (network_named (link_name (suc s.next_id)) s.networks)) [
        | inl c ↦ rw c refl
        | inr c ↦ rw c (
            let (here, low) =
              find_ref-IsOwned s l.a_node (or_empty l.a_iface) s.iface_of a h.owned p in
            let (there, low2) =
              find_ref-IsOwned s l.b_node (or_empty l.b_iface) s.iface_of b h.owned q in
            linked here low there low2)
      ]
    where
      row : LinkRow
      row = record { id = 2 + s.next_id; a_iface_id = a; b_iface_id = b; network_id = s.next_id }

      net : NetworkRow
      net = record { id = s.next_id; name = link_name (suc s.next_id); kind = codes "bridge" }

      after : Rows
      after = record s {
        next_id = 3 + s.next_id;
        networks = s.networks ++ net ∷ [];
        ifaces = connect b s.next_id (connect a s.next_id s.ifaces);
        links = s.links ++ row ∷ [];
      }

      linked :
          HasEnd s.nodes s.ifaces l.a_node (or_empty l.a_iface) a
          → a < s.next_id
          → HasEnd s.nodes s.ifaces l.b_node (or_empty l.b_iface) b
          → b < s.next_id
          → IsDone (done ++ l ∷ []) after
      linked here low there low2 =
          let e : Extends s after = IsSound-link_ifaces s row net h (low, low2, refl) in
          (
            e.sound,
            Joining-snoc after done s.links l row (Joining-Extends s after done s.links e joined)
                (e.ends l.a_node (or_empty l.a_iface) a here)
                (e.ends l.b_node (or_empty l.b_iface) b there) (Any-last _ s.networks net refl),
          )

  wire-IsDone :
      (done : List PlannedLink) (l : PlannedLink) (s : Rows)
      → IsDone done s
      → Named mac scheme link_name s l
      → Makes (IsDone (done ++ l ∷ [])) (wire mac scheme link_name l s)
  unfolding wire
  wire-IsDone done l s (h, joined) (a, b) =
      let a_key = or_empty l.a_iface in
      let b_key = or_empty l.b_iface in
      Makes-bind
        (λ t. Extends s t × BothMade mac scheme link_name l.a_node a_key l.b_node b_key s t) _
        (ensure_both mac scheme link_name l.a_node a_key l.b_node b_key s) _
        (Makes-both (Extends s) _ (ensure_both mac scheme link_name l.a_node a_key l.b_node b_key s)
          (ensure_both-Extends l.a_node a_key l.b_node b_key s h)
          (ensure_both-BothMade mac scheme link_name l.a_node a_key l.b_node b_key s a b))
        (λ t (e, (k, here, there)).
          link_found-IsDone done l t _ _
            (
              e.sound,
              subst (Joining t done) (sym k.links) (Joining-Extends s t done s.links e joined),
            )
            refl refl here there)

  pub wire_all-IsDone :
      (done links : List PlannedLink) (s : Rows)
      → IsDone done s
      → All (Named mac scheme link_name s) links
      → Makes (IsDone (done ++ links)) (wire_all mac scheme link_name links s)
  unfolding wire_all
  wire_all-IsDone done [] s h named = subst (λ ls. IsDone ls s) (sym (append-nil done)) h
  wire_all-IsDone done (l ∷ links) s h (named, rest) =
      Makes-bind (λ t. IsDone (done ++ l ∷ []) t × Wired mac scheme link_name 1 s t) _
        (wire mac scheme link_name l s) _
        (Makes-both (IsDone (done ++ l ∷ [])) (Wired mac scheme link_name 1 s)
          (wire mac scheme link_name l s) (wire-IsDone done l s h named)
          (wire-Wired mac scheme link_name l s named))
        (λ t (d, w).
          Outcome-weaken (λ x. x ≡ integrity_error) (IsDone ((done ++ l ∷ []) ++ links)) _
            (wire_all mac scheme link_name links t)
            (wire_all-IsDone (done ++ l ∷ []) links t d
              (subst (λ r. All (NamedIn r) links) (sym w.by_name) rest))
            (λ u k. subst (λ ls. IsDone ls u) (append_assoc done (l ∷ []) links) k))
