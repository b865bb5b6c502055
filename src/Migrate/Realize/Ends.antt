-- ===== src/Migrate/Realize/Ends.antt =====
-- labtris_api/routers/labs.py: what the rows of `realize_plan` say of the links: which interfaces they
-- join, and which network an interface is on.
use labtris.Prelude.{
  ℕ, ◌<◌, Text, List, [], ◌∷◌, ◌++◌, Bool, ◌||◌, ◌==◌, if◌then◌else◌, Option, none, some, ◌≡◌, ◌≢◌,
  ◌⊎◌, inl, inr, refl, sym, ◌∙◌, arith, Bool-cases, All, All-append,
}
use labtris.Migrate.Plan.{PlannedLink}
use labtris.Migrate.Realize.{or_empty}
use labtris.Migrate.Realize.State.{NodeRow, IfaceRow, NetworkRow, LinkRow, Rows, connect}

-- some element has the property
module _ {A : Type 0} (P : A → Type 0) where
  abbrev pub Any : List A → Type 0
  Any [] = ⊥
  Any (x ∷ xs) = P x ⊎ Any xs

  pub Any-left : (xs ys : List A) → Any xs → Any (xs ++ ys)
  Any-left [] ys h = absurd h
  Any-left (x ∷ xs) ys (inl p) = inl p
  Any-left (x ∷ xs) ys (inr h) = inr (Any-left xs ys h)

  pub Any-last : (xs : List A) (y : A) → P y → Any (xs ++ y ∷ [])
  Any-last [] y p = inl p
  Any-last (x ∷ xs) y p = inr (Any-last xs y p)

pub Any-map :
    {A : Type 0} (P Q : A → Type 0) → ((x : A) → P x → Q x) → (xs : List A) → Any P xs → Any Q xs
Any-map P Q f [] h = absurd h
Any-map P Q f (x ∷ xs) (inl p) = inl (f x p)
Any-map P Q f (x ∷ xs) (inr h) = inr (Any-map P Q f xs h)

pub All-map :
    {A : Type 0} (P Q : A → Type 0) → ((x : A) → P x → Q x) → (xs : List A) → All P xs → All Q xs
All-map P Q f [] h = tt
All-map P Q f (x ∷ xs) (p, h) = (f x p, All-map P Q f xs h)

-- an interface with that id, of the node with that id, and of that name if one is given
abbrev pub IsPort : ℕ → Text → ℕ → IfaceRow → Type 0
IsPort node_id iface id x = (x.id ≡ id) × (x.node_id ≡ node_id) × ((iface ≡ []) ⊎ (x.name ≡ iface))

-- there is such an interface at a node of that name
abbrev pub HasEnd : List NodeRow → List IfaceRow → Text → Text → ℕ → Type 0
HasEnd nodes ifaces node iface id =
    Any (λ n. (n.name ≡ node) × Any (IsPort n.id iface id) ifaces) nodes

abbrev pub HasNetwork : ℕ → List NetworkRow → Type 0
HasNetwork id networks = Any (λ n. n.id ≡ id) networks

-- the rows are the planned links, in their order: each joins an interface of either node, on a network
abbrev pub Joining : Rows → List PlannedLink → List LinkRow → Type 0
Joining s [] [] = Unit
Joining s (l ∷ links) (row ∷ rows) =
    HasEnd s.nodes s.ifaces l.a_node (or_empty l.a_iface) row.a_iface_id
    × HasEnd s.nodes s.ifaces l.b_node (or_empty l.b_iface) row.b_iface_id
    × HasNetwork row.network_id s.networks
    × Joining s links rows
Joining s _ _ = ⊥

abbrev pub touches : ℕ → LinkRow → Bool
touches id l = id == l.a_iface_id || id == l.b_iface_id

-- the network of the last link with that interface
abbrev pub last_network : ℕ → List LinkRow → Option ℕ
last_network id [] = none
last_network id (l ∷ links) = elim (last_network id links) [
  | some network ↦ some network
  | none ↦ if touches id l then some l.network_id else none
]

-- each interface is on the network of the last link that joins it, and on none if no link does
abbrev pub OnNetwork : List LinkRow → IfaceRow → Type 0
OnNetwork links x = x.network_id ≡ last_network x.id links

-- no two links share a network
abbrev pub Apart : List LinkRow → Type 0
Apart [] = Unit
Apart (l ∷ links) = All (λ k. k.network_id ≢ l.network_id) links × Apart links

pub last_network-snoc :
    (id : ℕ) (links : List LinkRow) (l : LinkRow)
    → last_network id (links ++ l ∷ [])
      ≡ (if touches id l then some l.network_id else last_network id links)
last_network-snoc id [] l = refl
last_network-snoc id (k ∷ links) l = elim (Bool-cases (touches id l)) [
  | inl b ↦ rw (last_network-snoc id links l) (rw b refl)
  | inr b ↦ rw (last_network-snoc id links l) (rw b refl)
]

pub Apart-snoc :
    (links : List LinkRow) (l : LinkRow)
    → Apart links
    → All (λ k. k.network_id < l.network_id) links
    → Apart (links ++ l ∷ [])
Apart-snoc [] l h b = (tt, tt)
Apart-snoc (k ∷ links) l (p, h) (b, bs) = (
  All-append (λ j. j.network_id ≢ k.network_id) links (l ∷ []) p (λ e. omega (arith, e, b), tt),
  Apart-snoc links l h bs,
)

pub last_network-fresh :
    (id : ℕ) (links : List LinkRow)
    → All (λ l. (l.a_iface_id < id) × (l.b_iface_id < id)) links
    → last_network id links ≡ none
last_network-fresh id [] h = refl
last_network-fresh id (l ∷ links) ((a, b), h) =
    rw (last_network-fresh id links h) (ground (arith, a, b))

abbrev connected : LinkRow → IfaceRow → IfaceRow
connected l x =
    let y : IfaceRow =
      if x.id == l.a_iface_id then record x { network_id = some l.network_id } else x in
    if y.id == l.b_iface_id then record y { network_id = some l.network_id } else y

OnNetwork-connected :
    (links : List LinkRow) (l : LinkRow) (x : IfaceRow)
    → OnNetwork links x
    → OnNetwork (links ++ l ∷ []) (connected l x)
OnNetwork-connected links l x o = elim (Bool-cases (x.id == l.a_iface_id)) [
  | inl b ↦ rw b (elim (Bool-cases (x.id == l.b_iface_id)) [
    | inl c ↦ rw c (sym (last_network-snoc x.id links l ∙ rw b refl))
    | inr c ↦ rw c (sym (last_network-snoc x.id links l ∙ rw b refl))
  ])
  | inr b ↦ rw b (elim (Bool-cases (x.id == l.b_iface_id)) [
    | inl c ↦ rw c (sym (last_network-snoc x.id links l ∙ rw (b, c) refl))
    | inr c ↦ rw c (o ∙ sym (last_network-snoc x.id links l ∙ rw (b, c) refl))
  ])
]

-- a new link puts its two interfaces on its network
pub OnNetwork-connect :
    (links : List LinkRow) (l : LinkRow) (xs : List IfaceRow)
    → All (OnNetwork links) xs
    → All
        (OnNetwork (links ++ l ∷ []))
        (connect l.b_iface_id l.network_id (connect l.a_iface_id l.network_id xs))
OnNetwork-connect links l [] h = tt
OnNetwork-connect links l (x ∷ xs) (o, h) =
    (OnNetwork-connected links l x o, OnNetwork-connect links l xs h)

pub Any-connect :
    (node_id id network i : ℕ) (iface : Text) (xs : List IfaceRow)
    → Any (IsPort node_id iface id) xs
    → Any (IsPort node_id iface id) (connect i network xs)
Any-connect node_id id network i iface [] h = absurd h
Any-connect node_id id network i iface (x ∷ xs) (inl p) = elim (Bool-cases (x.id == i)) [
  | inl b ↦ inl (rw b p)
  | inr b ↦ inl (rw b p)
]
Any-connect node_id id network i iface (x ∷ xs) (inr h) =
    inr (Any-connect node_id id network i iface xs h)
