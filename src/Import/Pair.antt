-- ===== src/Import/Pair.antt =====
-- labtris_api/clab_watch.py: `pair_links`, which finds the cables between the nodes of a running lab. An
-- end is an entry of the dict `ends`, with its key.
pub mod Order
pub mod Cable
pub mod Links
pub mod Loop
use labtris.Prelude.{
  ℕ, zero, suc, Text, codes, List, [], ◌∷◌, ◌++◌, Bool, true, false, ◌&&◌, ◌||◌, not, ltb, ◌==◌,
  if◌then◌else◌, Option, none, some, text_eq,
}
use labtris.Naming.Device.{decimal}

-- an interface of a `netns.links` reply; 0 for a peer that is not there
pub record Row : Type 0 where
  pub name : Text
  pub index : ℕ
  pub peer_index : ℕ
  pub kind : Option Text

-- a node of the reply
pub record NodeLinks : Type 0 where
  pub error : Bool
  pub interfaces : List Row

pub record End : Type 0 where
  pub node : Text
  pub idx : ℕ
  pub name : Text
  pub peer : ℕ

abbrev pub same_key : End → End → Bool
same_key e f = text_eq e.node f.node && e.idx == f.idx

-- `ends[key] = value`
unfoldable pub put_end : End → List End → List End
put_end e [] = e ∷ []
put_end e (f ∷ ends) = if same_key f e then e ∷ ends else f ∷ put_end e ends

abbrev pub is_veth : Option Text → Bool
is_veth none = true
is_veth (some kind) = text_eq kind (codes "veth")

abbrev pub is_skipped : Row → Bool
is_skipped row =
    text_eq row.name []
    || text_eq row.name (codes "lo")
    || row.peer_index == 0
    || not (is_veth row.kind)

unfoldable pub add_rows : Text → List Row → List End → List End
unfolding put_end
add_rows node [] ends = ends
add_rows node (row ∷ rows) ends = add_rows node rows (
    if is_skipped row
    then ends
    else put_end (record { node = node; idx = row.index; name = row.name; peer = row.peer_index })
        ends)

unfoldable pub ends_of : List (Text × NodeLinks) → List End → List End
unfolding add_rows
ends_of [] ends = ends
ends_of ((node, links) ∷ nodes) ends =
    ends_of nodes (if links.error then ends else add_rows node links.interfaces ends)

-- the other half may be the end `f`
abbrev pub fits : End → End → Bool
fits e f = not (text_eq f.node e.node) && f.idx == e.peer && f.peer == e.idx

unfoldable pub candidates : End → List End → List End
candidates e [] = []
candidates e (f ∷ ends) = if fits e f then f ∷ candidates e ends else candidates e ends

-- `sorted` by the key
abbrev pub text_lt : Text → Text → Bool
text_lt s [] = false
text_lt [] (d ∷ t) = true
text_lt (c ∷ s) (d ∷ t) = ltb c d || (c == d && text_lt s t)

abbrev pub key_lt : End → End → Bool
key_lt e f = text_lt e.node f.node || (text_eq e.node f.node && ltb e.idx f.idx)

unfoldable pub insert : End → List End → List End
insert e [] = e ∷ []
insert e (f ∷ ends) = if key_lt f e then f ∷ insert e ends else e ∷ f ∷ ends

unfoldable pub sort : List End → List End
unfolding insert
sort [] = []
sort (e ∷ ends) = insert e (sort ends)

unfoldable pub holds : End → List End → Bool
holds e [] = false
holds e (f ∷ fs) = same_key f e || holds e fs

-- `candidates.get(peer_key) == [key]`
abbrev pub is_only : End → List End → Bool
is_only e (f ∷ []) = same_key f e
is_only e _ = false

-- `ifaces.setdefault(node, []).append(name)`
unfoldable pub append_iface : Text → Text → List (Text × List Text) → List (Text × List Text)
append_iface node name [] = (node, name ∷ []) ∷ []
append_iface node name ((n, names) ∷ ifaces) =
    if text_eq n node
    then (n, names ++ name ∷ []) ∷ ifaces
    else (n, names) ∷ append_iface node name ifaces

-- a link is kept as its two ends, of which the reply has the nodes and the names
pub record Pairing : Type 0 where
  pub links : List (End × End)
  pub ifaces : List (Text × List Text)
  pub ambiguous : List Text
  pub seen : List End

abbrev pub unpaired : Pairing
unpaired = record { links = []; ifaces = []; ambiguous = []; seen = [] }

abbrev pub add_link : End → End → Pairing → Pairing
add_link e f s = record {
  links = s.links ++ (e, f) ∷ [];
  ifaces = append_iface f.node f.name (append_iface e.node e.name s.ifaces);
  ambiguous = s.ambiguous;
  seen = f ∷ e ∷ s.seen;
}

abbrev pub add_ambiguous : End → Pairing → Pairing
add_ambiguous e s = record s { ambiguous = s.ambiguous ++ (e.node ++ b':' ∷ e.name) ∷ [] }

module _ (ends : List End) where
  -- an end by its candidates
  abbrev pub pair_with : End → List End → Pairing → Pairing
  pair_with e [] s = s
  pair_with e (f ∷ []) s =
      if is_only e (candidates f ends) then add_link e f s else add_ambiguous e s
  pair_with e (f ∷ g ∷ fs) s = add_ambiguous e s

  unfoldable pub pair_end : End → Pairing → Pairing
  unfolding holds candidates append_iface
  pair_end e s = if holds e s.seen then s else pair_with e (candidates e ends) s

  unfoldable pub pair_all : List End → Pairing → Pairing
  unfolding pair_end
  pair_all [] s = s
  pair_all (e ∷ es) s = pair_all es (pair_end e s)

unfoldable pub pair_links : List (Text × NodeLinks) → Pairing
unfolding ends_of sort pair_all
pair_links nodes = let ends = ends_of nodes [] in pair_all ends (sort ends) unpaired
