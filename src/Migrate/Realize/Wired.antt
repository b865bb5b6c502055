-- ===== src/Migrate/Realize/Wired.antt =====
-- labtris_api/routers/labs.py: `realize_plan` makes every link that `parse_clab` plans.
use labtris.Prelude.{
  ℕ, suc, ◌+◌, Text, List, [], ◌∷◌, true, ◌&&◌, Option, none, some, ◌≡◌, inl, inr, refl, ap, sym,
  ◌∙◌, subst, arith, Bool-cases, All, length, length-append,
}
use labtris.Prelude.Result.{Result, ◌>>=◌, integrity_error, Outcome, Outcome-bind, Outcome-weaken}
use labtris.Migrate.Plan.{PlannedLink}
use labtris.Migrate.Realize.{
  link_ifaces, or_empty, is_found, add_iface, add_end, ensure, ensure_both, link_found, wire,
  wire_all,
}
use labtris.Lifecycle.{guest_name}
use labtris.Migrate.Realize.State.{
  NodeRow, Rows, network_named, iface_clash, find_ref, count_refs, find_node,
}
use labtris.Migrate.Realize.Refs.{Refs, find_ref-put_ref, put_ref-keeps}

-- a value with a property, or a row that the database refuses
abbrev pub Makes {ℓ} : {A : Type ℓ} → (A → Type 0) → Result A → Type 0
Makes P m = Outcome (λ e. e ≡ integrity_error) P m

pub Makes-bind {ℓ κ} :
    {A : Type ℓ} {B : Type κ} (P : A → Type 0) (Q : B → Type 0) (m : Result A) (f : A → Result B)
    → Makes P m
    → ((a : A) → P a → Makes Q (f a))
    → Makes Q (m >>= f)
Makes-bind P Q m f = Outcome-bind (λ e. e ≡ integrity_error) P Q m f

-- both nodes of the link have a row
abbrev pub NamedIn : List (Text × NodeRow) → PlannedLink → Type 0
NamedIn rows l =
    (is_found (find_node l.a_node rows) ≡ true) × (is_found (find_node l.b_node rows) ≡ true)

-- what stays when an interface is made
pub record Kept (s t : Rows) : Type 0 where
  pub by_name : t.by_name ≡ s.by_name
  pub warnings : t.warnings ≡ s.warnings
  pub links : t.links ≡ s.links
  pub refs : (node iface : Text) → Refs node iface s.iface_of → Refs node iface t.iface_of

pub Kept-refl : (s : Rows) → Kept s s
Kept-refl s = record { by_name = refl; warnings = refl; links = refl; refs = λ n i h. h }

pub Kept-trans : (s t u : Rows) → Kept s t → Kept t u → Kept s u
Kept-trans s t u k l = record {
  by_name = l.by_name ∙ k.by_name;
  warnings = l.warnings ∙ k.warnings;
  links = l.links ∙ k.links;
  refs = λ n i h. l.refs n i (k.refs n i h);
}

module _ (mac : ℕ → Text) (scheme : Text → Text → Text) (link_name : ℕ → Text) where
  abbrev pub Made : Text → Text → Rows → Rows → Type 0
  Made target wanted s t = Kept s t × Refs target wanted t.iface_of

  pub add_iface-Made :
      (node : NodeRow) (idx : ℕ) (target wanted : Text) (s : Rows)
      → Makes (Made target wanted s) (add_iface mac scheme link_name node idx target wanted s)
  unfolding add_iface
  add_iface-Made node idx target wanted s =
      elim (Bool-cases (
        iface_clash node.id idx
          (guest_name idx (some wanted) (some (scheme node.runtime node.image))) s.ifaces)) [
            | inl b ↦ rw b refl
            | inr b ↦ rw b (
              record {
                by_name = refl;
                warnings = refl;
                links = refl;
                refs = λ n i h. put_ref-keeps _ n i s.iface_of h;
              },
              find_ref-put_ref (record { node = target; iface = wanted; id = s.next_id })
                  s.iface_of,
            )
          ]

  ensure-Made :
      (target wanted : Text) (s : Rows)
      → is_found (find_node target s.by_name) ≡ true
      → Makes (Made target wanted s) (ensure mac scheme link_name target wanted s)
  unfolding ensure add_end
  ensure-Made target wanted s known =
      elim (Bool-cases (is_found (find_ref target wanted s.iface_of))) [
        | inl b ↦ rw b (Kept-refl s, b)
        | inr b ↦ rw b (added (find_node target s.by_name) known)
      ]
    where
      added :
          (owner : Option NodeRow)
          → is_found owner ≡ true
          → Makes (Made target wanted s) (add_end mac scheme link_name owner target wanted s)
      added none h = cc h
      added (some owner) h = add_iface-Made owner (count_refs target s.iface_of) target wanted s

  abbrev pub BothMade : Text → Text → Text → Text → Rows → Rows → Type 0
  BothMade a a_key b b_key s t = Kept s t × Refs a a_key t.iface_of × Refs b b_key t.iface_of

  pub ensure_both-BothMade :
      (a a_key b b_key : Text) (s : Rows)
      → is_found (find_node a s.by_name) ≡ true
      → is_found (find_node b s.by_name) ≡ true
      → Makes (BothMade a a_key b b_key s) (ensure_both mac scheme link_name a a_key b b_key s)
  unfolding ensure_both
  ensure_both-BothMade a a_key b b_key s known_a known_b =
      elim (Bool-cases
        (is_found (find_ref a a_key s.iface_of) && is_found (find_ref b b_key s.iface_of))) [
          | inl c ↦ rw c (Kept-refl s, ground (arith, c), ground (arith, c))
          | inr c ↦ rw c (
              Makes-bind (Made a a_key s) _ (ensure mac scheme link_name a a_key s) _
                (ensure-Made a a_key s known_a)
                (λ t (k, here).
                  Outcome-weaken (λ e. e ≡ integrity_error) (Made b b_key t) _
                    (ensure mac scheme link_name b b_key t)
                    (ensure-Made b b_key t (ap (λ d. is_found (find_node b d)) k.by_name ∙ known_b))
                    (λ u (l, there). (Kept-trans s t u k l, l.refs a a_key here, there))))
        ]

  -- one link more, and no warning
  pub record Wired (n : ℕ) (s t : Rows) : Type 0 where
    pub by_name : t.by_name ≡ s.by_name
    pub warnings : t.warnings ≡ s.warnings
    pub links : length t.links ≡ n + length s.links

  link_found-Wired :
      (l : PlannedLink) (a b : Option ℕ) (s : Rows)
      → is_found a ≡ true
      → is_found b ≡ true
      → Makes (Wired 1 s) (link_found mac scheme link_name l a b s)
  unfolding link_ifaces
  link_found-Wired l none b s h k = cc h
  link_found-Wired l (some a) none s h k = cc k
  link_found-Wired l (some a) (some b) s h k =
      elim (Bool-cases (network_named (link_name (suc s.next_id)) s.networks)) [
        | inl c ↦ rw c refl
        | inr c ↦ rw c (record {
          by_name = refl;
          warnings = refl;
          links = omega (arith, length-append s.links (_ ∷ []));
        })
      ]

  abbrev pub Named : Rows → PlannedLink → Type 0
  Named s l = NamedIn s.by_name l

  pub wire-Wired :
      (l : PlannedLink) (s : Rows) → Named s l → Makes (Wired 1 s) (wire mac scheme link_name l s)
  unfolding wire
  wire-Wired l s (a, b) =
      Makes-bind (BothMade l.a_node (or_empty l.a_iface) l.b_node (or_empty l.b_iface) s) _
        (ensure_both mac scheme link_name l.a_node (or_empty l.a_iface) l.b_node
          (or_empty l.b_iface) s)
        _ (ensure_both-BothMade l.a_node (or_empty l.a_iface) l.b_node (or_empty l.b_iface) s a b)
        (λ t (k, here, there).
          Outcome-weaken (λ e. e ≡ integrity_error) (Wired 1 t) _ _
            (link_found-Wired l _ _ t here there)
            (λ u w. record {
              by_name = w.by_name ∙ k.by_name;
              warnings = w.warnings ∙ k.warnings;
              links = w.links ∙ ap (λ ls. 1 + length ls) k.links;
            }))

  pub wire_all-Wired :
      (links : List PlannedLink) (s : Rows)
      → All (Named s) links
      → Makes (Wired (length links) s) (wire_all mac scheme link_name links s)
  unfolding wire_all
  wire_all-Wired [] s h = record { by_name = refl; warnings = refl; links = omega arith }
  wire_all-Wired (l ∷ links) s (named, h) =
      Makes-bind (Wired 1 s) _ (wire mac scheme link_name l s) _ (wire-Wired l s named) (λ t w.
        Outcome-weaken (λ e. e ≡ integrity_error) (Wired (length links) t) _ _
          (wire_all-Wired links t (subst (λ d. All (NamedIn d) links) (sym w.by_name) h))
          (λ u v. record {
            by_name = v.by_name ∙ w.by_name;
            warnings = v.warnings ∙ w.warnings;
            links = omega (arith, v.links, w.links);
          }))
