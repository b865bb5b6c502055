-- ===== src/Migrate/Clab/Owner.antt =====
-- labtris_api/migrate.py: the interfaces that `parse_clab` gives to the owners of a link's ends.
use labtris.Prelude.{
  Text, List, [], ◌∷◌, ◌++◌, Bool, true, false, if◌then◌else◌, Option, none, some, ◌≡◌, ◌≢◌, ap,
  sym, ◌∙◌, inl, inr, refl, text_eq, text_eq_refl, Bool-cases, arith, All,
}
use labtris.Prelude.Result.{
  Outcome, Outcome-bind, Outcome-weaken, Result, ok, stop_iteration, ◌>>=◌,
}
use labtris.Migrate.Plan.{PlannedNode, PlannedLink, holds, is_known}
use labtris.Migrate.Clab.Links.{attach, attach_end, attach_links, fill_node, fill, filled}

-- a value with a property, or an exception other than StopIteration
abbrev pub Gives {ℓ} : {A : Type ℓ} → (A → Type 0) → Result A → Type 0
Gives P m = Outcome (λ e. e ≢ stop_iteration) P m

pub Gives-bind {ℓ κ} :
    {A : Type ℓ} {B : Type κ} (P : A → Type 0) (Q : B → Type 0) (m : Result A) (f : A → Result B)
    → Gives P m
    → ((a : A) → P a → Gives Q (f a))
    → Gives Q (m >>= f)
Gives-bind P Q m f = Outcome-bind (λ e. e ≢ stop_iteration) P Q m f

Gives-weaken {ℓ} :
    {A : Type ℓ} (P Q : A → Type 0) (m : Result A) → Gives P m → ((a : A) → P a → Q a) → Gives Q m
Gives-weaken P Q m = Outcome-weaken (λ e. e ≢ stop_iteration) P Q m

abbrev pub has_iface : Option Text → PlannedNode → Bool
has_iface none n = true
has_iface (some iface) n = holds iface n.ifaces

-- the first node of that name has the interface, if one is given
abbrev pub offers : Text → Option Text → List PlannedNode → Bool
offers name iface [] = false
offers name iface (n ∷ nodes) =
    if text_eq n.name name then has_iface iface n else offers name iface nodes

-- every end that `ns` offers is offered by `ms`
abbrev pub Keeps : List PlannedNode → List PlannedNode → Type 0
Keeps ns ms = (m : Text) (j : Option Text) → offers m j ns ≡ true → offers m j ms ≡ true

abbrev pub Joins : List PlannedNode → PlannedLink → Type 0
Joins ns l = (offers l.a_node l.a_iface ns ≡ true) × (offers l.b_node l.b_iface ns ≡ true)

abbrev pub Known : List PlannedNode → PlannedLink → Type 0
Known ns l = (is_known l.a_node ns ≡ true) × (is_known l.b_node ns ≡ true)

abbrev pub HasIface : PlannedNode → Type 0
HasIface n = n.ifaces ≢ []

offers-none : (m : Text) (ns : List PlannedNode) → offers m none ns ≡ is_known m ns
offers-none m [] = refl
offers-none m (n ∷ ns) = ground (arith, offers-none m ns)

holds-left : (i : Text) (xs ys : List Text) → holds i xs ≡ true → holds i (xs ++ ys) ≡ true
holds-left i [] ys h = cc h
holds-left i (x ∷ xs) ys h = ground (arith, holds-left i xs ys)

holds-last : (i : Text) (xs : List Text) → holds i (xs ++ i ∷ []) ≡ true
holds-last i [] = ground (arith, text_eq_refl i)
holds-last i (x ∷ xs) = ground (arith, holds-last i xs)

attach-here : (i : Option Text) (n : PlannedNode) → has_iface i (attach i n) ≡ true
attach-here none n = refl
attach-here (some i) n = elim (Bool-cases (holds i n.ifaces)) [
  | inl b ↦ rw b b
  | inr b ↦ rw b (holds-last i n.ifaces)
]

attach-has_iface :
    (i j : Option Text) (n : PlannedNode) → has_iface j n ≡ true → has_iface j (attach i n) ≡ true
attach-has_iface none j n h = h
attach-has_iface (some i) none n h = refl
attach-has_iface (some i) (some j) n h = elim (Bool-cases (holds i n.ifaces)) [
  | inl b ↦ rw b h
  | inr b ↦ rw b (holds-left j n.ifaces _ h)
]

attach-name : (i : Option Text) (n : PlannedNode) → (attach i n).name ≡ n.name
attach-name none n = refl
attach-name (some i) n = elim (Bool-cases (holds i n.ifaces)) [
  | inl b ↦ rw b refl
  | inr b ↦ rw b refl
]

-- a change of the first node
Keeps-first :
    (n k : PlannedNode) (ns : List PlannedNode)
    → k.name ≡ n.name
    → ((j : Option Text) → has_iface j n ≡ true → has_iface j k ≡ true)
    → Keeps (n ∷ ns) (k ∷ ns)
Keeps-first n k ns same more m j h = elim (Bool-cases (text_eq n.name m)) [
  | inl b ↦ rw (ap (λ t. text_eq t m) same ∙ b) (more j (rw b at h))
  | inr b ↦ rw (ap (λ t. text_eq t m) same ∙ b) (rw b at h)
]

Keeps-rest : (n : PlannedNode) (ns ms : List PlannedNode) → Keeps ns ms → Keeps (n ∷ ns) (n ∷ ms)
Keeps-rest n ns ms k m j h = elim (Bool-cases (text_eq n.name m)) [
  | inl b ↦ rw b (rw b at h)
  | inr b ↦ rw b (k m j (rw b at h))
]

abbrev Attached : Text → Option Text → List PlannedNode → List PlannedNode → Type 0
Attached name i ns ms = Keeps ns ms × (offers name i ms ≡ true)

-- an end of a known name is attached
attach_end-Attached :
    (name : Text) (i : Option Text) (ns : List PlannedNode)
    → is_known name ns ≡ true
    → Gives (Attached name i ns) (attach_end name i ns)
unfolding attach_end
attach_end-Attached name i [] h = cc h
attach_end-Attached name i (n ∷ ns) h = elim (Bool-cases (text_eq n.name name)) [
  | inl b ↦ rw b (
    Keeps-first n (attach i n) ns (attach-name i n) (λ j. attach-has_iface i j n),
    rw (attach-name i n, b) (attach-here i n),
  )
  | inr b ↦ rw b (
      Gives-bind (Attached name i ns) (Attached name i (n ∷ ns)) (attach_end name i ns)
        (λ ms. ok (n ∷ ms)) (attach_end-Attached name i ns (rw b at h))
        (λ ms p. (Keeps-rest n ns ms p.0, rw b p.1)))
]

Known-Keeps :
    (m : Text) (ns ms : List PlannedNode)
    → Keeps ns ms
    → is_known m ns ≡ true
    → is_known m ms ≡ true
Known-Keeps m ns ms k h = sym (offers-none m ms) ∙ k m none (offers-none m ns ∙ h)

All-Known :
    (ls : List PlannedLink) (ns ms : List PlannedNode)
    → Keeps ns ms
    → All (Known ns) ls
    → All (Known ms) ls
All-Known [] ns ms k h = tt
All-Known (l ∷ ls) ns ms k ((a, b), h) =
    ((Known-Keeps l.a_node ns ms k a, Known-Keeps l.b_node ns ms k b), All-Known ls ns ms k h)

pub All-Joins :
    (ls : List PlannedLink) (ns ms : List PlannedNode)
    → Keeps ns ms
    → All (Joins ns) ls
    → All (Joins ms) ls
All-Joins [] ns ms k h = tt
All-Joins (l ∷ ls) ns ms k ((a, b), h) =
    ((k l.a_node l.a_iface a, k l.b_node l.b_iface b), All-Joins ls ns ms k h)

abbrev Settled : List PlannedLink → List PlannedNode → List PlannedNode → Type 0
Settled ls ns ms = Keeps ns ms × All (Joins ms) ls

-- the first link is attached, and then the others
Settled-cons :
    (l : PlannedLink) (ls : List PlannedLink) (ns ms ps : List PlannedNode)
    → Keeps ns ms
    → offers l.a_node l.a_iface ms ≡ true
    → Keeps ms ps
    → offers l.b_node l.b_iface ps ≡ true
    → Gives (Settled ls ps) (attach_links ls ps)
    → Gives (Settled (l ∷ ls) ns) (attach_links ls ps)
Settled-cons l ls ns ms ps k here k2 there rest =
    Gives-weaken (Settled ls ps) _ (attach_links ls ps) rest (λ qs (k3, joined). (
      λ m j q. k3 m j (k2 m j (k m j q)),
      ((k3 l.a_node l.a_iface (k2 l.a_node l.a_iface here), k3 l.b_node l.b_iface there), joined),
    ))

pub attach_links-Known :
    (ls : List PlannedLink) (ns : List PlannedNode)
    → All (Known ns) ls
    → Gives (Settled ls ns) (attach_links ls ns)
unfolding attach_links
attach_links-Known [] ns h = (λ m j p. p, tt)
attach_links-Known (l ∷ ls) ns ((a, b), h) =
    Gives-bind (Attached l.a_node l.a_iface ns) _ (attach_end l.a_node l.a_iface ns) _
      (attach_end-Attached l.a_node l.a_iface ns a)
      (λ ms (k, here).
        Gives-bind (Attached l.b_node l.b_iface ms) _ (attach_end l.b_node l.b_iface ms) _
          (attach_end-Attached l.b_node l.b_iface ms (Known-Keeps l.b_node ns ms k b))
          (λ ps (k2, there).
            Settled-cons l ls ns ms ps k here k2 there
              (attach_links-Known ls ps (All-Known ls ns ps (λ m j q. k2 m j (k m j q)) h))))

filled-holds : (i : Text) (is : List Text) → holds i is ≡ true → holds i (filled is) ≡ true
filled-holds i [] h = cc h
filled-holds i (x ∷ xs) h = h

fill_node-has_iface :
    (j : Option Text) (n : PlannedNode) → has_iface j n ≡ true → has_iface j (fill_node n) ≡ true
fill_node-has_iface none n h = refl
fill_node-has_iface (some j) n h = filled-holds j n.ifaces h

pub fill-Keeps : (ns : List PlannedNode) → Keeps ns (fill ns)
fill-Keeps [] m j h = h
fill-Keeps (n ∷ ns) m j h =
    Keeps-rest (fill_node n) ns (fill ns) (fill-Keeps ns) m j
      (Keeps-first n (fill_node n) ns refl (λ i. fill_node-has_iface i n) m j h)

filled-some : (is : List Text) → filled is ≢ []
filled-some [] = λ p. cc p
filled-some (i ∷ is) = λ p. cc p

pub fill-HasIface : (ns : List PlannedNode) → All HasIface (fill ns)
fill-HasIface [] = tt
fill-HasIface (n ∷ ns) = (filled-some n.ifaces, fill-HasIface ns)
