-- ===== src/Migrate/Clab/Unlinked.antt =====
-- labtris_api/migrate.py: the nodes of a file are planned before its links, in `parse_clab`.
use labtris.Prelude.{Text, codes, List, [], ◌||◌, not, ◌≡◌, inl, inr, refl, Bool-cases}
use labtris.Prelude.Result.{Result}
use labtris.Migrate.Yaml.{
  Yaml, str, Entries, empty, entry, get, truthy, or_else, entries_of, get_of, iterate,
}
use labtris.Migrate.Plan.{safe}
use labtris.Migrate.Clab.{plan_nodes}
use labtris.Migrate.Clab.Nodes.{
  Draft, shown, spec_of, or_ask, is_segment, is_clab_kind, image_node, place_node, kind_of,
  image_of, add_node, add_nodes,
}
use labtris.Migrate.Clab.Owner.{Gives, Gives-bind}

abbrev pub Any {ℓ} : {A : Type ℓ} → A → Type 0
Any a = Unit

abbrev pub NoLinks : Draft → Type 0
NoLinks draft = draft.plan.links ≡ []

pub entries_of-Gives : (v : Yaml) → Gives Any (entries_of v)
entries_of-Gives (Yaml.scalar b s) = λ p. cc p
entries_of-Gives (str s) = λ p. cc p
entries_of-Gives (Yaml.seq vs) = λ p. cc p
entries_of-Gives (Yaml.dict es) = tt

pub iterate-Gives : (v : Yaml) → Gives Any (iterate v)
iterate-Gives (Yaml.scalar b s) = λ p. cc p
iterate-Gives (str s) = tt
iterate-Gives (Yaml.seq vs) = tt
iterate-Gives (Yaml.dict es) = tt

get_of-Gives : (k : Text) (v : Yaml) → Gives Any (get_of k v)
get_of-Gives k v = Gives-bind Any Any (entries_of v) _ (entries_of-Gives v) (λ es h. tt)

or_ask-Gives : (v : Yaml) (w : Result Yaml) → Gives Any w → Gives Any (or_ask v w)
or_ask-Gives v w h = elim (Bool-cases (truthy v)) [ inl b ↦ rw b tt | inr b ↦ rw b h ]

module _ (repr : Yaml → Text) (split : Text → List Text) where
  image_node-Gives :
      (name : Text) (image : Yaml) (spec : Entries) (inherited : Yaml)
      → Gives Any (image_node repr split name image spec inherited)
  unfolding image_node
  image_node-Gives name image spec inherited =
      Gives-bind Any Any (or_ask (get (codes "cmd") spec) (get_of (codes "cmd") inherited)) _
        (or_ask-Gives (get (codes "cmd") spec) _ (get_of-Gives (codes "cmd") inherited))
        (λ cmd h.
          Gives-bind Any Any (entries_of (or_else (get (codes "env") spec) (Yaml.dict empty))) _
            (entries_of-Gives _) (λ env h2. tt))

  place_node-NoLinks :
      (kind raw_name : Text) (image : Yaml) (spec : Entries) (inherited : Yaml) (draft : Draft)
      → NoLinks draft
      → Gives NoLinks (place_node repr split kind raw_name image spec inherited draft)
  unfolding place_node
  place_node-NoLinks kind raw_name image spec inherited draft h =
      elim (Bool-cases (is_segment kind)) [
        | inl b ↦ rw b h
        | inr b ↦ rw b (elim (Bool-cases (not (is_clab_kind kind) || not (truthy image))) [
          | inl c ↦ rw c h
          | inr c ↦ rw c (
              Gives-bind Any NoLinks (image_node repr split (safe raw_name) image spec inherited) _
                (image_node-Gives (safe raw_name) image spec inherited) (λ node k. h))
        ])
      ]

  module _ (defaults kinds : Yaml) where
    kind_of-Gives : (spec : Entries) → Gives Any (kind_of repr split defaults kinds spec)
    unfolding kind_of
    kind_of-Gives spec =
        Gives-bind Any Any (or_ask (get (codes "kind") spec) (get_of (codes "kind") defaults)) _
          (or_ask-Gives (get (codes "kind") spec) _ (get_of-Gives (codes "kind") defaults))
          (λ kind h. tt)

    image_of-Gives :
        (spec : Entries) (inherited : Yaml)
        → Gives Any (image_of repr split defaults kinds spec inherited)
    unfolding image_of
    image_of-Gives spec inherited = or_ask-Gives (get (codes "image") spec) _ (
        Gives-bind Any Any (get_of (codes "image") inherited) _
          (get_of-Gives (codes "image") inherited)
          (λ image h. or_ask-Gives image _ (get_of-Gives (codes "image") defaults)))

    add_node-NoLinks :
        (raw_name raw : Yaml) (draft : Draft)
        → NoLinks draft
        → Gives NoLinks (add_node repr split defaults kinds raw_name raw draft)
    unfolding add_node
    add_node-NoLinks raw_name raw draft h =
        Gives-bind Any NoLinks (kind_of repr split defaults kinds (spec_of raw)) _
          (kind_of-Gives (spec_of raw))
          (λ kind _.
            Gives-bind Any NoLinks (get_of kind kinds) _ (get_of-Gives kind kinds) (λ own _.
              Gives-bind Any NoLinks
                (image_of repr split defaults kinds (spec_of raw) (or_else own (Yaml.dict empty))) _
                (image_of-Gives (spec_of raw) (or_else own (Yaml.dict empty)))
                (λ image _.
                  place_node-NoLinks kind (shown repr raw_name) image (spec_of raw)
                    (or_else own (Yaml.dict empty)) draft h)))

    add_nodes-NoLinks :
        (nodes : Entries) (draft : Draft)
        → NoLinks draft
        → Gives NoLinks (add_nodes repr split defaults kinds nodes draft)
    unfolding add_nodes
    add_nodes-NoLinks empty draft h = h
    add_nodes-NoLinks (entry raw_name raw nodes) draft h =
        Gives-bind NoLinks NoLinks (add_node repr split defaults kinds raw_name raw draft) _
          (add_node-NoLinks raw_name raw draft h) (λ next k. add_nodes-NoLinks nodes next k)

  pub plan_nodes-NoLinks : (doc topo : Entries) → Gives NoLinks (plan_nodes repr split doc topo)
  unfolding plan_nodes
  plan_nodes-NoLinks doc topo =
      Gives-bind Any NoLinks (entries_of (or_else (get (codes "nodes") topo) (Yaml.dict empty))) _
        (entries_of-Gives _) (λ nodes _. add_nodes-NoLinks _ _ nodes _ refl)
