-- ===== src/Topology/Roles.antt =====
-- labtris_api/topology_gen.py: what the front-end and scale patterns share, and the presets of
-- labtris_api/impair.py.

use labtris.Prelude.{text_eq}
use labtris.Topology.Frr.{Script, Plain, plain, with}
use labtris.Prelude.{
  ◌%◌, zero, ◌||◌, [], some, none, suc, Bool, ltb, leb, ◌∷◌, ◌+◌, Option, codes, ℕ, List, Text,
  if◌then◌else◌,
}

-- a router's configuration where the kind is "frr"
abbrev pub plain_config : Text → Plain → Option Script
plain_config kind p = if text_eq kind (codes "frr") then some (plain p) else none

abbrev pub role : List Text → ℕ → ℕ → Text
role [] i h = with "svc-" (h + 1)
role (r ∷ rs) zero h = r
role (r ∷ rs) (suc i) h = role rs i h

abbrev pub front_roles : List Text
front_roles =
    codes "storage"
    ∷ codes "inference-api"
    ∷ codes "registry"
    ∷ codes "monitoring"
    ∷ codes "jump"
    ∷ []

abbrev pub edge_roles : List Text
edge_roles =
    codes "inference-api"
    ∷ codes "registry"
    ∷ codes "monitoring"
    ∷ codes "storage"
    ∷ codes "jump"
    ∷ []

-- `max(1, n)`
abbrev pub at_least_one : ℕ → ℕ
at_least_one n = if leb 1 n then n else 1

abbrev pub max : ℕ → ℕ → ℕ
max a b = if ltb a b then b else a

-- the presets of impair.py
unfoldable pub is_preset : Text → Bool
is_preset p =
    text_eq p (codes "clear")
    || text_eq p (codes "lan")
    || text_eq p (codes "wifi")
    || text_eq p (codes "3g")
    || text_eq p (codes "satellite")
    || text_eq p (codes "lossy-wan")
    || text_eq p (codes "datacenter")

-- _EDGE_PRESET_CYCLE
abbrev pub preset_cycle : ℕ → Text
preset_cycle zero = codes "satellite"
preset_cycle (suc zero) = codes "3g"
preset_cycle (suc (suc zero)) = codes "wifi"
preset_cycle _ = codes "lossy-wan"

abbrev pub edge_preset_of : Text → ℕ → Text
edge_preset_of asked e = if text_eq asked (codes "auto") then preset_cycle (e % 4) else asked
