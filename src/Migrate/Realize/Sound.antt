-- ===== src/Migrate/Realize/Sound.antt =====
-- labtris_api/routers/labs.py: what `realize_plan` keeps of its rows and its dicts.
use labtris.Prelude.{
  ℕ, suc, ◌+◌, ◌<◌, Text, List, [], ◌∷◌, ◌++◌, Option, none, some, ◌≡◌, ◌⊎◌, inl, inr, refl, sym,
  ◌∙◌, ap, subst, arith, Bool-cases, All, All-append, text_eq, text_eq-eq,
}
use labtris.Migrate.Plan.{PlannedNode}
use labtris.Migrate.Realize.{node_row, add_row}
use labtris.Migrate.Realize.State.{
  NodeRow, IfaceRow, NetworkRow, LinkRow, Ref, Rows, is_ref, find_ref, put_ref, find_node, put_node,
  connect,
}
use labtris.Migrate.Realize.Ends.{
  Any, Any-left, Any-last, Any-map, All-map, IsPort, HasEnd, HasNetwork, last_network, OnNetwork,
  Apart, Apart-snoc, last_network-fresh, OnNetwork-connect, Any-connect,
}

-- there is a row of that node
abbrev pub IsNode : List NodeRow → Text → ℕ → Type 0
IsNode nodes name id = Any (λ n. (n.name ≡ name) × (n.id ≡ id)) nodes

abbrev NamesNode : List NodeRow → Text × NodeRow → Type 0
NamesNode nodes (name, row) = IsNode nodes name row.id

abbrev IsOwned : Rows → Ref → Type 0
IsOwned s r = HasEnd s.nodes s.ifaces r.node r.iface r.id × (r.id < s.next_id)

abbrev IsBelow : ℕ → LinkRow → Type 0
IsBelow n l = (l.a_iface_id < n) × (l.b_iface_id < n) × (l.network_id < n)

pub record IsSound (s : Rows) : Type 0 where
  pub named : All (NamesNode s.nodes) s.by_name
  pub owned : All (IsOwned s) s.iface_of
  pub below : All (IsBelow s.next_id) s.links
  pub attached : All (OnNetwork s.links) s.ifaces
  pub apart : Apart s.links

-- what stays of `s`
pub record Extends (s t : Rows) : Type 0 where
  pub sound : IsSound t
  pub ends :
      (node iface : Text) (id : ℕ)
      → HasEnd s.nodes s.ifaces node iface id
      → HasEnd t.nodes t.ifaces node iface id
  pub networks : (id : ℕ) → HasNetwork id s.networks → HasNetwork id t.networks
  pub nodes : (name : Text) (id : ℕ) → IsNode s.nodes name id → IsNode t.nodes name id

pub Extends-refl : (s : Rows) → IsSound s → Extends s s
Extends-refl s h = record {
  sound = h;
  ends = λ n i x p. p;
  networks = λ x p. p;
  nodes = λ n x p. p;
}

pub Extends-trans : (s t u : Rows) → Extends s t → Extends t u → Extends s u
Extends-trans s t u a b = record {
  sound = b.sound;
  ends = λ n i x p. b.ends n i x (a.ends n i x p);
  networks = λ x p. b.networks x (a.networks x p);
  nodes = λ n x p. b.nodes n x (a.nodes n x p);
}

All-put_node :
    (P : Text × NodeRow → Type 0) (name : Text) (new : NodeRow) (rows : List (Text × NodeRow))
    → All P rows
    → P (name, new)
    → All P (put_node name new rows)
unfolding put_node
All-put_node P name new [] h p = (p, tt)
All-put_node P name new ((key, row) ∷ rows) (q, h) p = elim (Bool-cases (text_eq key name)) [
  | inl b ↦ rw b (subst (λ k. P (k, new)) (sym (text_eq-eq key name b)) p, h)
  | inr b ↦ rw b (q, All-put_node P name new rows h p)
]

All-put_ref :
    (P : Ref → Type 0) (new : Ref) (refs : List Ref) → All P refs → P new → All P (put_ref new refs)
unfolding put_ref
All-put_ref P new [] h p = (p, tt)
All-put_ref P new (ref ∷ refs) (q, h) p = elim (Bool-cases (is_ref new.node new.iface ref)) [
  | inl b ↦ rw b (p, h)
  | inr b ↦ rw b (q, All-put_ref P new refs h p)
]

pub find_node-IsNode :
    (nodes : List NodeRow) (name : Text) (rows : List (Text × NodeRow)) (row : NodeRow)
    → All (NamesNode nodes) rows
    → find_node name rows ≡ some row
    → IsNode nodes name row.id
unfolding find_node
find_node-IsNode nodes name [] row h e = cc e
find_node-IsNode nodes name ((key, r) ∷ rows) row (p, h) e = elim (Bool-cases (text_eq key name)) [
  | inl b ↦
      subst (λ x. IsNode nodes x row.id) (text_eq-eq key name b)
        (subst (λ x. IsNode nodes key x) (ap id_of (rw b at e)) p)
  | inr b ↦ find_node-IsNode nodes name rows row h (rw b at e)
]
  where
    id_of : Option NodeRow → ℕ
    id_of none = 0
    id_of (some x) = x.id

pub find_ref-IsOwned :
    (s : Rows) (node iface : Text) (refs : List Ref) (id : ℕ)
    → All (IsOwned s) refs
    → find_ref node iface refs ≡ some id
    → HasEnd s.nodes s.ifaces node iface id × (id < s.next_id)
unfolding find_ref
find_ref-IsOwned s node iface [] id h e = cc e
find_ref-IsOwned s node iface (ref ∷ refs) id (p, h) e = elim (Bool-cases (is_ref node iface ref)) [
  | inl b ↦
      let n = text_eq-eq ref.node node (ground (arith, b)) in
      let i = text_eq-eq ref.iface iface (ground (arith, b)) in
      subst (λ x. HasEnd s.nodes s.ifaces node iface x × (x < s.next_id)) (number_of (rw b at e))
        (subst (λ y. HasEnd s.nodes s.ifaces node y ref.id × (ref.id < s.next_id)) i
          (subst (λ y. HasEnd s.nodes s.ifaces y ref.iface ref.id × (ref.id < s.next_id)) n p))
  | inr b ↦ find_ref-IsOwned s node iface refs id h (rw b at e)
]
  where
    number_of : {x y : ℕ} → some x ≡ some y → x ≡ y
    number_of q = cc q

-- an interface at a new id, which no link has yet
pub IsSound-add_iface :
    (s : Rows) (node : NodeRow) (target wanted : Text) (x : IfaceRow)
    → IsSound s
    → IsNode s.nodes target node.id
    → (x.id ≡ s.next_id)
      × (x.node_id ≡ node.id)
      × (x.network_id ≡ none)
      × ((wanted ≡ []) ⊎ (x.name ≡ wanted))
    → Extends s (record s {
      next_id = suc s.next_id;
      ifaces = s.ifaces ++ x ∷ [];
      iface_of = put_ref (record { node = target; iface = wanted; id = s.next_id }) s.iface_of;
    })
IsSound-add_iface s node target wanted x h owner (i, o, free, called) = record {
  sound = record {
    named = h.named;
    owned =
        All-put_ref _ _ s.iface_of
          (All-map _ _ (λ r p. (kept r.node r.iface r.id p.0, omega (arith, p.1))) s.iface_of
            h.owned)
          (new, omega arith);
    below =
        All-map _ _ (λ l (a, b, n). (omega (arith, a), omega (arith, b), omega (arith, n))) s.links
          h.below;
    attached =
        All-append (OnNetwork s.links) s.ifaces (x ∷ []) h.attached (free ∙ sym unlinked, tt);
    apart = h.apart;
  };
  ends = kept;
  networks = λ n p. p;
  nodes = λ n k p. p;
}
  where
    kept :
        (n f : Text) (k : ℕ)
        → HasEnd s.nodes s.ifaces n f k
        → HasEnd s.nodes (s.ifaces ++ x ∷ []) n f k
    kept n f k p =
        Any-map _ _ (λ m q. (q.0, Any-left (IsPort m.id f k) s.ifaces (x ∷ []) q.1)) s.nodes p

    new : HasEnd s.nodes (s.ifaces ++ x ∷ []) target wanted s.next_id
    new =
        Any-map _ _
          (λ m q.
            (q.0, Any-last (IsPort m.id wanted s.next_id) s.ifaces x (i, o ∙ sym q.1, called)))
          s.nodes owner

    unlinked : last_network x.id s.links ≡ none
    unlinked =
        rw i (
          last_network-fresh s.next_id s.links
            (All-map _ _ (λ l (a, b, _). (a, b)) s.links h.below))

-- a node, its interfaces still to come
pub IsSound-add_row :
    (planned : PlannedNode) (index : ℕ) (s : Rows) → IsSound s → IsSound (add_row planned index s)
IsSound-add_row planned index s h = record {
  named =
      All-put_node (NamesNode (s.nodes ++ row ∷ [])) planned.name row s.by_name
        (All-map _ _ (λ (k, r) p. Any-left _ s.nodes (row ∷ []) p) s.by_name h.named)
        (Any-last _ s.nodes row (refl, refl));
  owned =
      All-map _ _ (λ r (p, q). (Any-left _ s.nodes (row ∷ []) p, omega (arith, q))) s.iface_of
        h.owned;
  below =
      All-map _ _ (λ l (a, b, n). (omega (arith, a), omega (arith, b), omega (arith, n))) s.links
        h.below;
  attached = h.attached;
  apart = h.apart;
}
  where
    row : NodeRow
    row = node_row planned s.next_id

pub IsSound-add_network :
    (n : NetworkRow) (s : Rows)
    → IsSound s
    → IsSound (record s { next_id = suc s.next_id; networks = s.networks ++ n ∷ [] })
IsSound-add_network n s h = record {
  named = h.named;
  owned = All-map _ _ (λ r (p, q). (p, omega (arith, q))) s.iface_of h.owned;
  below =
      All-map _ _ (λ l (a, b, k). (omega (arith, a), omega (arith, b), omega (arith, k))) s.links
        h.below;
  attached = h.attached;
  apart = h.apart;
}

-- a link of two interfaces, with a network of its own
pub IsSound-link_ifaces :
    (s : Rows) (l : LinkRow) (n : NetworkRow)
    → IsSound s
    → (l.a_iface_id < s.next_id) × (l.b_iface_id < s.next_id) × (l.network_id ≡ s.next_id)
    → Extends s (record s {
      next_id = 3 + s.next_id;
      networks = s.networks ++ n ∷ [];
      ifaces = connect l.b_iface_id l.network_id (connect l.a_iface_id l.network_id s.ifaces);
      links = s.links ++ l ∷ [];
    })
IsSound-link_ifaces s l n h (a, b, e) = record {
  sound = record {
    named = h.named;
    owned =
        All-map _ _ (λ r (p, q). (kept r.node r.iface r.id p, omega (arith, q))) s.iface_of h.owned;
    below =
        All-append (IsBelow (3 + s.next_id)) s.links (l ∷ [])
          (All-map _ _ (λ k (x, y, z). (omega (arith, x), omega (arith, y), omega (arith, z)))
            s.links h.below)
          ((omega (arith, a), omega (arith, b), omega (arith, e)), tt);
    attached = OnNetwork-connect s.links l s.ifaces h.attached;
    apart =
        Apart-snoc s.links l h.apart
          (All-map _ _ (λ k (x, y, z). omega (arith, z, e)) s.links h.below);
  };
  ends = kept;
  networks = λ k p. Any-left _ s.networks (n ∷ []) p;
  nodes = λ m k p. p;
}
  where
    kept :
        (m f : Text) (k : ℕ)
        → HasEnd s.nodes s.ifaces m f k
        → HasEnd s.nodes
            (connect l.b_iface_id l.network_id (connect l.a_iface_id l.network_id s.ifaces))
            m
            f
            k
    kept m f k p =
        Any-map _ _
          (λ x (q, r). (
            q,
            Any-connect x.id k l.network_id l.b_iface_id f
                (connect l.a_iface_id l.network_id s.ifaces)
                (Any-connect x.id k l.network_id l.a_iface_id f s.ifaces r),
          ))
          s.nodes p
