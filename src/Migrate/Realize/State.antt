-- ===== src/Migrate/Realize/State.antt =====
-- labtris_api/routers/labs.py and labtris_api/models.py: the rows of `realize_plan`, and the dicts it keeps.
use labtris.Prelude.{
  ℕ, suc, ◌+◌, ◌*◌, ◌/◌, ◌%◌, Text, codes, List, [], ◌∷◌, Bool, false, ◌&&◌, ◌||◌, ◌==◌,
  if◌then◌else◌, Option, none, some, text_eq,
}
use labtris.Prelude.Int.{ℤ, pos}
use labtris.Migrate.Plan.{Command, Warning}

pub record NodeRow : Type 0 where
  pub id : ℕ
  pub name : Text
  pub runtime : Text
  pub image : Text
  pub cmd : Command
  pub env : List (Text × Text)

pub record IfaceRow : Type 0 where
  pub id : ℕ
  pub node_id : ℕ
  pub idx : ℕ
  pub name : Text
  pub mac : Text
  pub network_id : Option ℕ

pub record NetworkRow : Type 0 where
  pub id : ℕ
  pub name : Text
  pub kind : Text

pub record LinkRow : Type 0 where
  pub id : ℕ
  pub a_iface_id : ℕ
  pub b_iface_id : ℕ
  pub network_id : ℕ

-- an entry of the dict `iface_of`
pub record Ref : Type 0 where
  pub node : Text
  pub iface : Text
  pub id : ℕ

pub record Rows : Type 0 where
  pub name : Text
  pub next_id : ℕ
  pub nodes : List NodeRow
  pub ifaces : List IfaceRow
  pub networks : List NetworkRow
  pub links : List LinkRow
  pub geometry : List (ℕ × (ℤ × ℤ))
  pub by_name : List (Text × NodeRow)
  pub iface_of : List Ref
  pub warnings : List Warning

-- the lab has the first id
abbrev pub no_rows : Text → List Warning → Rows
no_rows name warnings = record {
  name = name;
  next_id = 1;
  nodes = [];
  ifaces = [];
  networks = [];
  links = [];
  geometry = [];
  by_name = [];
  iface_of = [];
  warnings = warnings;
}

-- the unique constraints: names of the nodes and networks of a lab; indices and names of a node's
-- interfaces
abbrev pub node_named : Text → List NodeRow → Bool
node_named name [] = false
node_named name (row ∷ rows) = text_eq row.name name || node_named name rows

abbrev pub network_named : Text → List NetworkRow → Bool
network_named name [] = false
network_named name (row ∷ rows) = text_eq row.name name || network_named name rows

abbrev pub iface_clash : ℕ → ℕ → Text → List IfaceRow → Bool
iface_clash node_id idx name [] = false
iface_clash node_id idx name (row ∷ rows) =
    (row.node_id == node_id && (row.idx == idx || text_eq row.name name))
    || iface_clash node_id idx name rows

abbrev pub is_ref : Text → Text → Ref → Bool
is_ref node iface ref = text_eq ref.node node && text_eq ref.iface iface

-- `iface_of.get((node, iface))`
unfoldable pub find_ref : Text → Text → List Ref → Option ℕ
find_ref node iface [] = none
find_ref node iface (ref ∷ refs) =
    if is_ref node iface ref then some ref.id else find_ref node iface refs

unfoldable pub put_ref : Ref → List Ref → List Ref
put_ref new [] = new ∷ []
put_ref new (ref ∷ refs) =
    if is_ref new.node new.iface ref then new ∷ refs else ref ∷ put_ref new refs

-- `len([k for k in iface_of if k[0] == target])`
unfoldable pub count_refs : Text → List Ref → ℕ
count_refs target [] = 0
count_refs target (ref ∷ refs) =
    if text_eq ref.node target then suc (count_refs target refs) else count_refs target refs

unfoldable pub find_node : Text → List (Text × NodeRow) → Option NodeRow
find_node name [] = none
find_node name ((key, row) ∷ rows) = if text_eq key name then some row else find_node name rows

unfoldable pub put_node : Text → NodeRow → List (Text × NodeRow) → List (Text × NodeRow)
put_node name new [] = (name, new) ∷ []
put_node name new ((key, row) ∷ rows) =
    if text_eq key name then (key, new) ∷ rows else (key, row) ∷ put_node name new rows

abbrev pub place : ℕ → Option (ℤ × ℤ) → ℤ × ℤ
place index (some at) = at
place index none = (pos (140 + index % 4 * 300), pos (120 + index / 4 * 230))

abbrev pub connect : ℕ → ℕ → List IfaceRow → List IfaceRow
connect id network [] = []
connect id network (row ∷ rows) =
    (if row.id == id then record row { network_id = some network } else row)
    ∷ connect id network rows

abbrev pub kind_in : Text → List (Text × Text) → Text
kind_in name [] = codes "bridge"
kind_in name ((key, kind) ∷ kinds) = if text_eq key name then kind else kind_in name kinds
