-- ===== src/Topology/Builder/Sound.antt =====
-- What holds of the rows of a generated lab.
use labtris.Topology.Rows.{Node, Interface, Link, Builder, Impair}
use labtris.Topology.Builder.{guest_iface_name, ℕ, List, count_of, scheme_of}
use labtris.Topology.Builder.Connect.{count_of_snoc, port, second_idx, connected}
use labtris.Prelude.{
  length-append, sym, zero, refl, All-append, ap, arith, some, subst, suc, none, length, ◌≡◌, ◌++◌,
  map, [], ◌≤◌, Option, ◌∷◌, ◌<◌, All, ℕ, List,
}
use labtris.Naming.Iface.{guest_iface_name}
use mathlib.Core.List.{append_assoc, append-nil}

module _ (nodes : List Node) where
  -- an interface has a node that is there, and the name that its node's scheme gives its number
  pub record IsHome (i : Interface) : Type 0 where
    pub there : i.node < length nodes
    pub named : i.name ≡ guest_iface_name (some (scheme_of i.node nodes)) i.idx

-- each interface has the next number of its node: behind `done`
abbrev pub Ranked : List Interface → List Interface → Type 0
Ranked done [] = Unit
Ranked done (i ∷ is) = (i.idx ≡ count_of i.node done) × Ranked (done ++ i ∷ []) is

abbrev pub network_of : ℕ → List Interface → Option ℕ
network_of i [] = none
network_of zero (x ∷ xs) = x.network
network_of (suc i) (x ∷ xs) = network_of i xs

abbrev pub node_of : ℕ → List Interface → ℕ
node_of i [] = 0
node_of zero (x ∷ xs) = x.node
node_of (suc i) (x ∷ xs) = node_of i xs

-- A link joins two interfaces from number `lo` on, one behind the other, which are on its network;
-- the links behind it have later ones.
abbrev pub Wired : List Interface → ℕ → List Link → Type 0
Wired is lo [] = lo ≤ length is
Wired is lo (l ∷ ls) =
    (lo ≤ l.a_iface)
    × (l.b_iface ≡ suc l.a_iface)
    × (network_of l.a_iface is ≡ some l.network)
    × (network_of l.b_iface is ≡ some l.network)
    × Wired is (suc l.b_iface) ls

pub record IsSound (s : Builder) : Type 0 where
  pub homes : All (IsHome s.nodes) s.interfaces
  pub ranked : Ranked [] s.interfaces
  pub wired : Wired s.interfaces 0 s.links

-- a cable between two nodes
pub record Cable : Type 0 where
  pub a : ℕ
  pub b : ℕ
  pub ab : Option Impair
  pub ba : Option Impair

abbrev pub cable_of : List Interface → Link → Cable
cable_of is l = record {
  a = node_of l.a_iface is;
  b = node_of l.b_iface is;
  ab = l.impair_ab;
  ba = l.impair_ba;
}

unfoldable pub cables : Builder → List Cable
cables s = map (cable_of s.interfaces) s.links

Ranked-append :
    (done xs ys : List Interface) → Ranked done xs → Ranked (done ++ xs) ys → Ranked done (xs ++ ys)
Ranked-append done [] ys h k = subst (λ d. Ranked d ys) (append-nil done) k
Ranked-append done (x ∷ xs) ys (e, h) k = (
  e,
  Ranked-append (done ++ x ∷ []) xs ys h
      (subst (λ d. Ranked d ys) (sym (append_assoc done (x ∷ []) xs)) k),
)

network_of-append :
    (i net : ℕ) (xs ys : List Interface)
    → network_of i xs ≡ some net
    → network_of i (xs ++ ys) ≡ some net
network_of-append i net [] ys h = cc
network_of-append zero net (x ∷ xs) ys h = h
network_of-append (suc i) net (x ∷ xs) ys h = network_of-append i net xs ys h

network_of_end :
    (xs : List Interface) (y z : Interface)
    → (network_of (length xs) (xs ++ y ∷ z ∷ []) ≡ y.network)
      × (network_of (suc (length xs)) (xs ++ y ∷ z ∷ []) ≡ z.network)
network_of_end [] y z = (refl, refl)
network_of_end (x ∷ xs) y z = network_of_end xs y z

node_of_end :
    (xs : List Interface) (y z : Interface)
    → (node_of (length xs) (xs ++ y ∷ z ∷ []) ≡ y.node)
      × (node_of (suc (length xs)) (xs ++ y ∷ z ∷ []) ≡ z.node)
node_of_end [] y z = (refl, refl)
node_of_end (x ∷ xs) y z = node_of_end xs y z

node_of-append :
    (i : ℕ) (xs ys : List Interface) → i < length xs → node_of i (xs ++ ys) ≡ node_of i xs
node_of-append i [] ys h = absurd (omega arith)
node_of-append zero (x ∷ xs) ys h = refl
node_of-append (suc i) (x ∷ xs) ys h = node_of-append i xs ys (omega arith)

Wired-weaken :
    (xs : List Interface) (lo hi : ℕ) (ls : List Link) → lo ≤ hi → Wired xs hi ls → Wired xs lo ls
Wired-weaken xs lo hi [] le h = omega arith
Wired-weaken xs lo hi (l ∷ ls) le (first, next, na, nb, h) = (omega arith, next, na, nb, h)

Wired-append :
    (xs ys : List Interface) (lo : ℕ) (ls ks : List Link)
    → Wired xs lo ls
    → Wired (xs ++ ys) (length xs) ks
    → Wired (xs ++ ys) lo (ls ++ ks)
Wired-append xs ys lo [] ks h k = Wired-weaken (xs ++ ys) lo (length xs) ks h k
Wired-append xs ys lo (l ∷ ls) ks (le, next, na, nb, h) k = (
  le,
  next,
  network_of-append l.a_iface l.network xs ys na,
  network_of-append l.b_iface l.network xs ys nb,
  Wired-append xs ys (suc l.b_iface) ls ks h k,
)

-- a link's ends are there
Wired-below : (xs : List Interface) (lo : ℕ) (ls : List Link) → Wired xs lo ls → lo ≤ length xs
Wired-below xs lo [] h = h
Wired-below xs lo (l ∷ ls) (le, next, na, nb, h) =
    omega (arith, Wired-below xs (suc l.b_iface) ls h)

cables-append :
    (xs ys : List Interface) (lo : ℕ) (ls : List Link)
    → Wired xs lo ls
    → map (cable_of (xs ++ ys)) ls ≡ map (cable_of xs) ls
cables-append xs ys lo [] h = refl
cables-append xs ys lo (l ∷ ls) (le, next, na, nb, h) =
    rw
      (
        node_of-append l.a_iface xs ys (omega (arith, Wired-below xs (suc l.b_iface) ls h)),
        node_of-append l.b_iface xs ys (omega (arith, Wired-below xs (suc l.b_iface) ls h)),
      )
      (ap (λ t. cable_of xs l ∷ t) (cables-append xs ys (suc l.b_iface) ls h))

map-append_one :
    {A B : Type 0} (f : A → B) (xs : List A) (y : A) → map f (xs ++ y ∷ []) ≡ map f xs ++ f y ∷ []
map-append_one f [] y = refl
map-append_one f (x ∷ xs) y = ap (λ t. f x ∷ t) (map-append_one f xs y)

module _ (a b : ℕ) (ab ba : Option Impair) (s : Builder) (sound : IsSound s) where
  pub cables-connected :
      cables (connected a b ab ba s) ≡ cables s ++ record { a = a; b = b; ab = ab; ba = ba } ∷ []
  unfolding cables
  cables-connected =
      let p = port s a (count_of a s.interfaces) (length s.networks) in
      let q = port s b (second_idx a b s.interfaces) (length s.networks) in
      let (na, nb) = node_of_end s.interfaces p q in
      rw
        (
          map-append_one (cable_of (s.interfaces ++ p ∷ q ∷ [])) s.links _,
          cables-append s.interfaces (p ∷ q ∷ []) 0 s.links sound.wired,
          na,
          nb,
        )
        refl

  pub connected-IsSound : a < length s.nodes → b < length s.nodes → IsSound (connected a b ab ba s)
  connected-IsSound la lb = record {
    homes =
        All-append (IsHome s.nodes) s.interfaces _ sound.homes
          (record { there = la; named = refl }, (record { there = lb; named = refl }, tt));
    ranked = Ranked-append [] s.interfaces _ sound.ranked (
      refl,
      (
        sym (count_of_snoc b s.interfaces (port s a (count_of a s.interfaces) (length s.networks))),
        tt,
      ),
    );
    wired = Wired-append s.interfaces _ 0 s.links _ sound.wired (
      omega arith,
      refl,
      (network_of_end s.interfaces _ _).0,
      (network_of_end s.interfaces _ _).1,
      omega (
        arith,
        length-append s.interfaces (
            port s a (count_of a s.interfaces) (length s.networks)
            ∷ port s b (second_idx a b s.interfaces) (length s.networks)
            ∷ []),
      ),
    );
  }

-- one more interface that is on no link
module _ (s : Builder) (sound : IsSound s) (i : Interface) (home : IsHome s.nodes i)
    (next : i.idx ≡ count_of i.node s.interfaces) where
  pub with_interface-IsSound : IsSound (record s { interfaces = s.interfaces ++ i ∷ [] })
  with_interface-IsSound = record {
    homes = All-append (IsHome s.nodes) s.interfaces (i ∷ []) sound.homes (home, tt);
    ranked = Ranked-append [] s.interfaces (i ∷ []) sound.ranked (next, tt);
    wired = subst (Wired (s.interfaces ++ i ∷ []) 0) (append-nil s.links) (
        Wired-append s.interfaces (i ∷ []) 0 s.links [] sound.wired
          (omega (arith, length-append s.interfaces (i ∷ []))));
  }

  pub cables-with_interface : cables (record s { interfaces = s.interfaces ++ i ∷ [] }) ≡ cables s
  unfolding cables
  cables-with_interface = cables-append s.interfaces (i ∷ []) 0 s.links sound.wired

scheme_of-append :
    (i : ℕ) (ns ms : List Node) → i < length ns → scheme_of i (ns ++ ms) ≡ scheme_of i ns
scheme_of-append i [] ms h = absurd (omega arith)
scheme_of-append zero (n ∷ ns) ms h = refl
scheme_of-append (suc i) (n ∷ ns) ms h = scheme_of-append i ns ms (omega arith)

homes-append :
    (ns ms : List Node) (is : List Interface) → All (IsHome ns) is → All (IsHome (ns ++ ms)) is
homes-append ns ms [] h = tt
homes-append ns ms (i ∷ is) (h, hs) = (
  record {
    there = omega (arith, length-append ns ms, h.there);
    named = rw (scheme_of-append i.node ns ms h.there) h.named;
  },
  homes-append ns ms is hs,
)

-- one more node
pub with_node-IsSound :
    (s : Builder) (n : Node) → IsSound s → IsSound (record s { nodes = s.nodes ++ n ∷ [] })
with_node-IsSound s n sound = record {
  homes = homes-append s.nodes (n ∷ []) s.interfaces sound.homes;
  ranked = sound.ranked;
  wired = sound.wired;
}
