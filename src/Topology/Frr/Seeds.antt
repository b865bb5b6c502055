-- ===== src/Topology/Frr/Seeds.antt =====
-- labtris_api/frr_templates.py: the files that an installer script writes. A dict is the list of its
-- entries, and one that is not there is empty.
pub mod RoundTrip
use labtris.Prelude.{
  zero, suc, ℕ, Text, codes, List, [], ◌∷◌, ◌++◌, ◌==◌, if◌then◌else◌, Bool, true, false, Option,
  none, some, String,
}

-- what stands behind a text that another begins with
unfoldable pub drop_prefix : Text → Text → Option Text
drop_prefix [] s = some s
drop_prefix (c ∷ p) [] = none
drop_prefix (c ∷ p) (d ∷ s) = if c == d then drop_prefix p s else none

abbrev pub behind : ℕ → Option (Text × Text) → Option (Text × Text)
behind c none = none
behind c (some (before, after)) = some (c ∷ before, after)

abbrev pub first_or : Option Text → Option (Text × Text) → Option (Text × Text)
first_or none later = later
first_or (some rest) later = some ([], rest)

-- `s.find(p)`, for a text `p` that is not empty: what stands before its first place, and behind
unfoldable pub find : Text → Text → Option (Text × Text)
unfolding drop_prefix
find p [] = none
find p (c ∷ s) = first_or (drop_prefix p (c ∷ s)) (behind c (find p s))

-- `body if body.endswith("\n") else body + "\n"`
unfoldable pub with_newline : Text → Text
with_newline [] = 10 ∷ []
with_newline (c ∷ []) = if c == 10 then c ∷ [] else c ∷ 10 ∷ []
with_newline (c ∷ d ∷ s) = c ∷ with_newline (d ∷ s)

abbrev pub vtysh_conf : Text × Text
vtysh_conf = (codes "/etc/frr/vtysh.conf", codes "service integrated-vtysh-config\n")

unfoldable pub frr_seed_files : Text → Text → List (Text × Text)
unfolding with_newline
frr_seed_files daemons frr_conf =
    (codes "/etc/frr/daemons", with_newline daemons)
    ∷ (codes "/etc/frr/frr.conf", with_newline frr_conf)
    ∷ vtysh_conf
    ∷ []

abbrev pub opener : String → Text
opener marker = codes "<<'" ++ (codes marker ++ codes "'\n")

abbrev pub closer : String → Text
closer marker = codes "\n" ++ (codes marker ++ codes "\n")

abbrev pub body_of : Option (Text × Text) → Option Text
body_of none = none
body_of (some (body, _)) = some body

abbrev pub until : String → Option (Text × Text) → Option Text
until marker none = none
until marker (some (_, rest)) = body_of (find (closer marker) rest)

-- the lines between a marker's two places
unfoldable pub heredoc : String → Text → Option Text
unfolding find
heredoc marker script = until marker (find (opener marker) script)

abbrev pub seeds_of : Option Text → Option Text → List (Text × Text)
seeds_of (some daemons) (some frr_conf) =
    (codes "/etc/frr/daemons", with_newline daemons)
    ∷ (codes "/etc/frr/frr.conf", with_newline frr_conf)
    ∷ vtysh_conf
    ∷ []
seeds_of _ _ = []

unfoldable pub seed_files_from_installer : Text → List (Text × Text)
unfolding heredoc with_newline
seed_files_from_installer script =
    seeds_of (heredoc "EOF_DAEMONS" script) (heredoc "EOF_FRR" script)
