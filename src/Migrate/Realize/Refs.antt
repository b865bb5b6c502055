-- ===== src/Migrate/Realize/Refs.antt =====
-- labtris_api/routers/labs.py: the dict `iface_of` of `realize_plan`.
use labtris.Prelude.{
  Text, List, [], ◌∷◌, true, ◌&&◌, ◌≡◌, inl, inr, refl, ap, sym, ◌∙◌, arith, text_eq, text_eq_refl,
  text_eq-eq, Bool-cases,
}
use labtris.Migrate.Realize.{is_found}
use labtris.Migrate.Realize.State.{Ref, is_ref, find_ref, put_ref}

abbrev pub Refs : Text → Text → List Ref → Type 0
Refs node iface refs = is_found (find_ref node iface refs) ≡ true

pub find_ref-put_ref : (new : Ref) (refs : List Ref) → Refs new.node new.iface (put_ref new refs)
unfolding find_ref put_ref
find_ref-put_ref new [] = rw (text_eq_refl new.node, text_eq_refl new.iface) refl
find_ref-put_ref new (ref ∷ refs) = elim (Bool-cases (is_ref new.node new.iface ref)) [
  | inl b ↦ rw b (rw (text_eq_refl new.node, text_eq_refl new.iface) refl)
  | inr b ↦ rw b (rw b (find_ref-put_ref new refs))
]

same_ref :
    (node iface : Text) (new ref : Ref)
    → is_ref new.node new.iface ref ≡ true
    → is_ref node iface ref ≡ is_ref node iface new
same_ref node iface new ref h =
    let n = text_eq-eq ref.node new.node (ground (arith, h)) in
    let i = text_eq-eq ref.iface new.iface (ground (arith, h)) in
    cc (
      ap (λ x. text_eq x node && text_eq ref.iface iface) n,
      ap (λ x. text_eq new.node node && text_eq x iface) i,
    )

pub put_ref-keeps :
    (new : Ref) (node iface : Text) (refs : List Ref)
    → Refs node iface refs
    → Refs node iface (put_ref new refs)
unfolding find_ref put_ref
put_ref-keeps new node iface [] h = cc h
put_ref-keeps new node iface (ref ∷ refs) h = elim (Bool-cases (is_ref new.node new.iface ref)) [
  | inl b ↦ rw b (elim (Bool-cases (is_ref node iface ref)) [
    | inl c ↦ rw (sym (same_ref node iface new ref b) ∙ c) refl
    | inr c ↦ rw (sym (same_ref node iface new ref b) ∙ c) (rw c at h)
  ])
  | inr b ↦ rw b (elim (Bool-cases (is_ref node iface ref)) [
    | inl c ↦ rw c refl
    | inr c ↦ rw c (put_ref-keeps new node iface refs (rw c at h))
  ])
]
