-- ===== src/Import/Pair/Loop.antt =====
-- The loop over the sorted ends: after it, the links are the cables.
use labtris.Import.Pair.{
  NodeLinks, End, same_key, ends_of, candidates, sort, holds, is_only, Pairing, unpaired,
  add_ambiguous, pair_with, pair_end, pair_all, pair_links,
}
use labtris.Import.Pair.Order.{In, Distinct, same_end, Distinct-ends_of, In-sort, sort-In}
use labtris.Import.Pair.Cable.{IsCable, InLinks, Separate, flip, candidates-cable, cable-candidates}
use labtris.Import.Pair.Links.{holds-In, not-holds, Inv, Inv-link}
use mathlib.Core.Logic.{◌↔◌}
use labtris.Prelude.{
  Text, List, [], ◌∷◌, true, ◌≡◌, ◌⊎◌, inl, inr, refl, ap, sym, ◌∙◌, subst, Bool-cases,
}

-- what a visit of `e` leaves
module _ (ends : List End) where
  pub record Step (e : End) (s t : Pairing) : Type 0 where
    pub inv : Inv ends t.links t.seen
    pub visited : (f : End) → IsCable ends e f → In e t.seen
    pub grows : (x : End) → In x s.seen → In x t.seen

  -- an end without a cable
  Step-none :
      (e : End) (s : Pairing)
      → Inv ends s.links s.seen
      → ((f : End) → IsCable ends e f → ⊥)
      → Step e s s
  Step-none e s inv n = record { inv = inv; visited = λ f c. absurd (n f c); grows = λ x m. m }

  Step-ambiguous :
      (e : End) (s : Pairing)
      → Inv ends s.links s.seen
      → ((f : End) → IsCable ends e f → ⊥)
      → Step e s (add_ambiguous e s)
  Step-ambiguous e s inv n = record { inv = inv; visited = λ f c. absurd (n f c); grows = λ x m. m }

  head_of : List End → End → End
  head_of [] x = x
  head_of (f ∷ fs) x = f

  Step-pair_with :
      (e : End) (s : Pairing) (cs : List End)
      → Distinct ends
      → In e ends
      → Inv ends s.links s.seen
      → (In e s.seen → ⊥)
      → candidates e ends ≡ cs
      → Step e s (pair_with ends e cs s)
  Step-pair_with e s [] d m inv n h =
      Step-none e s inv (λ f c. cc (h, (cable-candidates ends e f d c).0))
  Step-pair_with e s (f ∷ []) d m inv n h = elim (Bool-cases (is_only e (candidates f ends))) [
    | inl b ↦ rw b (record {
      inv = Inv-link ends e f s.links s.seen inv (candidates-cable ends e f m h b) n;
      visited = λ g c. inr (inl refl);
      grows = λ x k. inr (inr k);
    })
    | inr b ↦ rw b (
        Step-ambiguous e s inv (λ g c.
          let (k, o) = cable-candidates ends e g d c in
          let same = ap (λ cs. head_of cs e) (sym h ∙ k) in
          cc (b, o, ap (λ x. is_only e (candidates x ends)) same)))
  ]
  Step-pair_with e s (f ∷ g ∷ fs) d m inv n h =
      Step-ambiguous e s inv (λ x c. cc (h, (cable-candidates ends e x d c).0))

  Step-pair_end :
      (e : End) (s : Pairing)
      → Distinct ends
      → In e ends
      → Inv ends s.links s.seen
      → Step e s (pair_end ends e s)
  unfolding pair_end
  Step-pair_end e s d m inv = elim (Bool-cases (holds e s.seen)) [
    | inl b ↦
        rw b (record {
          inv = inv;
          visited = λ f c. seen_before (holds-In e s.seen b);
          grows = λ x k. k;
        })
    | inr b ↦ rw b (Step-pair_with e s (candidates e ends) d m inv (not-holds e s.seen b) refl)
  ]
    where
      seen_before : ((x : End) × In x s.seen × (same_key x e ≡ true)) → In e s.seen
      seen_before (x, k, h) =
          let (y, c, _) = inv.linked x k in
          subst (λ z. In z s.seen) (same_end ends x e d c.here m h) k

  pub record Done (es : List End) (s t : Pairing) : Type 0 where
    pub inv : Inv ends t.links t.seen
    pub visited : (e f : End) → In e es → IsCable ends e f → In e t.seen
    pub grows : (x : End) → In x s.seen → In x t.seen

  pub Done-pair_all :
      (es : List End) (s : Pairing)
      → Distinct ends
      → ((e : End) → In e es → In e ends)
      → Inv ends s.links s.seen
      → Done es s (pair_all ends es s)
  unfolding pair_all
  Done-pair_all [] s d m inv = record { inv = inv; visited = λ e f k c. absurd k; grows = λ x k. k }
  Done-pair_all (e ∷ es) s d m inv =
      let step = Step-pair_end e s d (m e (inl refl)) inv in
      let rest = Done-pair_all es (pair_end ends e s) d (λ x k. m x (inr k)) step.inv in
      record {
        inv = rest.inv;
        visited = λ x f k c. of_head x f k c step rest;
        grows = λ x k. rest.grows x (step.grows x k);
      }
    where
      of_head :
          (x f : End)
          → (x ≡ e) ⊎ In x es
          → IsCable ends x f
          → Step e s (pair_end ends e s)
          → Done es (pair_end ends e s) (pair_all ends es (pair_end ends e s))
          → In x (pair_all ends es (pair_end ends e s)).seen
      of_head x f (inl p) c step rest = rest.grows x (
          subst (λ z. In z (pair_end ends e s).seen) (sym p)
            (step.visited f (subst (λ z. IsCable ends z f) p c)))
      of_head x f (inr k) c step rest = rest.visited x f k c

Inv-unpaired : (ends : List End) → Inv ends [] []
Inv-unpaired ends = record { cables = λ e f m. absurd m; linked = λ e m. absurd m; separate = tt }

Done-pair_links :
    (nodes : List (Text × NodeLinks))
    → Done (ends_of nodes []) (sort (ends_of nodes [])) unpaired (pair_links nodes)
unfolding pair_links
Done-pair_links nodes =
    Done-pair_all (ends_of nodes []) (sort (ends_of nodes [])) unpaired
      (Distinct-ends_of nodes [] tt) (λ e m. sort-In e (ends_of nodes []) m)
      (Inv-unpaired (ends_of nodes []))

-- Two ends of a dataplane reply are joined by a link, in one direction or the other, exactly when each
-- is the only end of another node that names the other as its peer.
pub pair_links-cables :
    (nodes : List (Text × NodeLinks)) (e f : End)
    → (InLinks e f (pair_links nodes).links ⊎ InLinks f e (pair_links nodes).links)
      ↔ IsCable (ends_of nodes []) e f
pair_links-cables nodes e f = (
  link_is_cable,
  λ c.
      cable_is_link c
        (done.inv.linked e (done.visited e f (In-sort e (ends_of nodes []) c.here) c)),
)
  where
    done : Done (ends_of nodes []) (sort (ends_of nodes [])) unpaired (pair_links nodes)
    done = Done-pair_links nodes

    link_is_cable :
        InLinks e f (pair_links nodes).links ⊎ InLinks f e (pair_links nodes).links
        → IsCable (ends_of nodes []) e f
    link_is_cable (inl m) = (done.inv.cables e f m).0
    link_is_cable (inr m) = flip (done.inv.cables f e m).0

    cable_is_link :
        IsCable (ends_of nodes []) e f
        → ((y : End) × IsCable (ends_of nodes []) e y
            × (InLinks e y (pair_links nodes).links ⊎ InLinks y e (pair_links nodes).links))
        → InLinks e f (pair_links nodes).links ⊎ InLinks f e (pair_links nodes).links
    cable_is_link c (y, d, ms) =
        subst (λ z. InLinks e z (pair_links nodes).links ⊎ InLinks z e (pair_links nodes).links)
          (c.only_there y d.there d.fit) ms

-- No end of a dataplane reply is in two of the links that are found.
pub pair_links-Separate : (nodes : List (Text × NodeLinks)) → Separate (pair_links nodes).links
pair_links-Separate nodes = (Done-pair_links nodes).inv.separate
