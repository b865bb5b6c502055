-- ===== src/Migrate/Plan.antt =====
-- labtris_api/migrate.py: Plan, and the names in it.
use labtris.Prelude.{
  ℕ, Text, codes, List, [], ◌∷◌, Bool, false, ◌||◌, ◌&&◌, leb, ◌==◌, if◌then◌else◌, Option, text_eq,
  take, map,
}
use labtris.Prelude.Int.{ℤ}
use labtris.Migrate.Yaml.{Yaml}

-- a command: its words, or what the file has in its place
pub data Command : Type 0 where
  words : List Text → Command
  given : Yaml → Command

pub record PlannedNode : Type 0 where
  pub name : Text
  pub runtime : Text
  pub image : Text
  pub cmd : Command
  pub env : List (Text × Text)
  pub ifaces : List Text
  pub position : Option (ℤ × ℤ)

pub record PlannedLink : Type 0 where
  pub a_node : Text
  pub a_iface : Option Text
  pub b_node : Text
  pub b_iface : Option Text

-- a warning, without its words
pub data Warning : Type 0 where
  placeholder : Text → Text → Warning
  endpoints : ℕ → Warning
  joins_segment : Text → Text → Warning
  no_equivalent : Text → Option Text → Text → Warning
  unknown_nodes : List Text → Warning
  unwired : Text → Text → Warning
  not_in_catalog : Text → Text → Warning
  segment : Text → ℕ → Warning

pub record Plan : Type 0 where
  pub name : Text
  pub nodes : List PlannedNode
  pub links : List PlannedLink
  pub networks : List Text
  pub network_kinds : List (Text × Text)
  pub warnings : List Warning

-- `[A-Za-z0-9_-]`
abbrev pub is_safe : ℕ → Bool
is_safe c =
    (leb b'A' c && leb c b'Z')
    || (leb b'a' c && leb c b'z')
    || (leb b'0' c && leb c b'9')
    || c == b'_'
    || c == b'-'

abbrev pub safe_char : ℕ → ℕ
safe_char c = if is_safe c then c else b'-'

abbrev pub or_node : Text → Text
or_node [] = codes "node"
or_node (c ∷ s) = c ∷ s

unfoldable pub safe : Text → Text
safe name = or_node (take 60 (map safe_char name))

-- `d[k] = v`
unfoldable pub put : Text → Text → List (Text × Text) → List (Text × Text)
put k v [] = (k, v) ∷ []
put k v ((j, w) ∷ d) = if text_eq j k then (j, v) ∷ d else (j, w) ∷ put k v d

abbrev pub holds : Text → List Text → Bool
holds s [] = false
holds s (t ∷ ts) = text_eq t s || holds s ts

-- `name in known`
abbrev pub is_known : Text → List PlannedNode → Bool
is_known name [] = false
is_known name (n ∷ nodes) = text_eq n.name name || is_known name nodes
