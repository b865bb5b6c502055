-- ===== src/Migrate/Clab/Nodes.antt =====
-- labtris_api/migrate.py: the nodes of a containerlab file, in `parse_clab`.
use labtris.Prelude.{
  Text, codes, List, [], ◌∷◌, ◌++◌, Bool, not, if◌then◌else◌, none, text_eq, ◌||◌,
}
use labtris.Prelude.Result.{◌>>=◌, Result, ok}
use labtris.Migrate.Yaml.{
  Yaml, str, Entries, empty, entry, get, truthy, or_else, entries_of, get_of,
}
use labtris.Migrate.Plan.{
  PlannedNode, Plan, Command, words, given, Warning, placeholder, safe, put, holds,
}

-- the plan, and the names of the segments in the file
pub record Draft : Type 0 where
  pub plan : Plan
  pub segments : List (Text × Text)

-- `CLAB_KINDS.get`, all whose values are "docker"
abbrev pub is_clab_kind : Text → Bool
is_clab_kind kind = holds kind (codes "linux" ∷ codes "docker" ∷ codes "host" ∷ [])

-- `kind in CLAB_SEGMENTS`
abbrev pub is_segment : Text → Bool
is_segment kind = holds kind (codes "bridge" ∷ codes "ovs-bridge" ∷ [])

-- `spec if isinstance(spec, dict) else {}`
abbrev pub spec_of : Yaml → Entries
spec_of (Yaml.dict spec) = spec
spec_of _ = empty

-- `v or w`, where `w` is only asked for if `v` is not truthy
abbrev pub or_ask : Yaml → Result Yaml → Result Yaml
or_ask v w = if truthy v then ok v else w

-- a bridge, which becomes a segment
abbrev pub add_segment : Text → Text → Text → Draft → Draft
add_segment kind raw_name name draft = record {
  plan = record draft.plan {
    networks = draft.plan.networks ++ name ∷ [];
    network_kinds =
        if text_eq kind (codes "ovs-bridge")
        then put name (codes "ovs") draft.plan.network_kinds
        else draft.plan.network_kinds;
  };
  segments = put raw_name name draft.segments;
}

abbrev pub append_node : PlannedNode → Draft → Draft
append_node node draft = record draft {
  plan = record draft.plan { nodes = draft.plan.nodes ++ node ∷ [] };
}

abbrev pub warn : Warning → Draft → Draft
warn w draft = record draft {
  plan = record draft.plan { warnings = draft.plan.warnings ++ w ∷ [] };
}

abbrev pub placeholder_node : Text → Text → Text → PlannedNode
placeholder_node name kind image = record {
  name = name;
  runtime = codes "docker";
  image = codes "alpine:3.20";
  cmd = words (codes "sleep" ∷ codes "infinity" ∷ []);
  env = (codes "LABTRIS_ORIGINAL_KIND", kind) ∷ (codes "LABTRIS_ORIGINAL_IMAGE", image) ∷ [];
  ifaces = [];
  position = none;
}

module _ (repr : Yaml → Text) where
  -- `str(v)`
  abbrev pub shown : Yaml → Text
  shown (Yaml.scalar b s) = s
  shown (str s) = s
  shown (Yaml.seq vs) = repr (Yaml.seq vs)
  shown (Yaml.dict es) = repr (Yaml.dict es)

  abbrev pub env_of : Entries → List (Text × Text) → List (Text × Text)
  env_of empty env = env
  env_of (entry k v es) env = env_of es (put (shown k) (shown v) env)

  module _ (split : Text → List Text) where
    abbrev pub command_of : Yaml → Command
    command_of (str s) = words (split s)
    command_of v = given v

    -- a node that runs as its image
    unfoldable pub image_node : Text → Yaml → Entries → Yaml → Result PlannedNode
    unfolding get put
    image_node name image spec inherited = do
      cmd ← or_ask (get (codes "cmd") spec) (get_of (codes "cmd") inherited)
      env ← entries_of (or_else (get (codes "env") spec) (Yaml.dict empty))
      ok (record {
        name = name;
        runtime = codes "docker";
        image = shown image;
        cmd = command_of cmd;
        env = env_of env [];
        ifaces = [];
        position = none;
      })

    -- a node whose kind and image are known
    unfoldable pub place_node : Text → Text → Yaml → Entries → Yaml → Draft → Result Draft
    unfolding image_node safe put
    place_node kind raw_name image spec inherited draft =
        if is_segment kind
        then ok (add_segment kind raw_name (safe raw_name) draft)
        else if not (is_clab_kind kind) || not (truthy image)
        then ok (
            append_node (placeholder_node (safe raw_name) kind (shown (or_else image (str []))))
              (warn (placeholder raw_name kind) draft))
        else (image_node (safe raw_name) image spec inherited >>= λ node.
            ok (append_node node draft))

    module _ (defaults kinds : Yaml) where
      unfoldable pub kind_of : Entries → Result Text
      unfolding get
      kind_of spec = do
        kind ← or_ask (get (codes "kind") spec) (get_of (codes "kind") defaults)
        ok (shown (or_else kind (str (codes "linux"))))

      unfoldable pub image_of : Entries → Yaml → Result Yaml
      unfolding get
      image_of spec inherited = or_ask (get (codes "image") spec) (do
        image ← get_of (codes "image") inherited
        or_ask image (get_of (codes "image") defaults))

      -- one entry of `topo["nodes"]`
      unfoldable pub add_node : Yaml → Yaml → Draft → Result Draft
      unfolding kind_of image_of place_node
      add_node raw_name raw draft = do
        let spec = spec_of raw
        kind ← kind_of spec
        own ← get_of kind kinds
        let inherited = or_else own (Yaml.dict empty)
        image ← image_of spec inherited
        place_node kind (shown raw_name) image spec inherited draft

      unfoldable pub add_nodes : Entries → Draft → Result Draft
      unfolding add_node
      add_nodes empty draft = ok draft
      add_nodes (entry raw_name raw nodes) draft =
          add_node raw_name raw draft >>= λ next. add_nodes nodes next
