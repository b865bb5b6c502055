-- ===== src/Topology/Builder.antt =====
-- labtris_api/topology_gen.py: `_Builder`. An exception leaves the session uncommitted, so a run that
-- raises has no state. The names of the rows' tables are not compared here.
pub mod Connect
pub mod Sound
pub mod Draw
pub mod Loops
pub mod Egress
use labtris.Prelude.{text_eq}
use labtris.Prelude.{
  String, ℕ, zero, suc, ◌+◌, ◌*◌, Text, codes, List, [], ◌∷◌, ◌++◌, ◌==◌, if◌then◌else◌, Option,
  none, some, length,
}
use labtris.Prelude.Int.{pos, ℤ, sub_ℕ}
use labtris.Prelude.Result.{index_error, Result, ok, err, bad_request}
use labtris.Naming.Iface.{guest_iface_name}
use labtris.Topology.Frr.{Script, script_text, seed_files_from_installer}
use labtris.Topology.Rows.{
  Kind, docker, kind_of, iface_scheme_for, Node, Interface, Impair, delay, preset, Link,
  NetworkKind, bridge, nat, Builder, empty,
}
use labtris.Ip.{Net}
use labtris.Nat.{DhcpPool, pool_for}

abbrev pub M : Type 0 → Type 0
M A = Builder → Result (A × Builder)

abbrev pub continue : {A B : Type 0} → (A → M B) → Result (A × Builder) → Result (B × Builder)
continue f (ok (a, s)) = f a s
continue f (err e) = err e

infixl 5 ◌>>=◌ ◌>>◌
abbrev pub ◌>>=◌ : {A B : Type 0} → M A → (A → M B) → M B
◌>>=◌ m f s = continue f (m s)

abbrev pub ◌>>◌ : {B : Type 0} → M (Unit {0}) → M B → M B
first >> second = first >>= λ _. second

abbrev pub return : {A : Type 0} → A → M A
return a s = ok (a, s)

abbrev pub skip : M (Unit {0})
skip = return tt

-- where a node is put: in a centred row of `wide` nodes, or in a cell of the grid
pub data Place : Type 0 where
  in_row : ℕ → ℕ → ℕ → Place
  at : ℕ → ℕ → Place

-- `_grid_pos`: `int` of a half that is whole
abbrev pub place_x : Place → ℤ
place_x (in_row row col wide) = sub_ℕ (col * 200 + 100) (wide * 100)
place_x (at col row) = pos (col * 200)

abbrev pub place_y : Place → ℤ
place_y (in_row row col wide) = pos (100 + row * 200)
place_y (at col row) = pos (row * 200)

-- the files that are put into a node before it starts
unfoldable pub seeds_for : Option Script → List (Text × Text)
unfolding seed_files_from_installer
seeds_for none = []
seeds_for (some config) = seed_files_from_installer (script_text config)

abbrev pub row_added : Text → Option Kind → Place → Option Text → Option Script → M ℕ
row_added name none place program config s = err bad_request
row_added name (some kind) place program config s = ok (
  length s.nodes,
  record s {
    nodes =
        s.nodes
        ++ record {
          name = name;
          kind = kind;
          program = program;
          seed_files = seeds_for config;
          startup_config = config;
          x = place_x place;
          y = place_y place;
        }
          ∷ [];
  },
)

unfoldable pub add_node : Text → Text → Place → Option Text → Option Script → M ℕ
add_node name kind place program config = row_added name (kind_of kind) place program config

-- the interfaces of a node
unfoldable pub count_of : ℕ → List Interface → ℕ
count_of n [] = 0
count_of n (i ∷ is) = if i.node == n then suc (count_of n is) else count_of n is

abbrev pub scheme_of : ℕ → List Node → Text
scheme_of i [] = codes "eth"
scheme_of zero (n ∷ ns) = iface_scheme_for n.kind.image
scheme_of (suc i) (n ∷ ns) = scheme_of i ns

unfoldable pub add_interface : ℕ → M ℕ
unfolding count_of
add_interface n s =
    let idx = count_of n s.interfaces in
    ok (
      length s.interfaces,
      record s {
        interfaces =
            s.interfaces
            ++ record {
              node = n;
              idx = idx;
              name = guest_iface_name (some (scheme_of n s.nodes)) idx;
              network = none;
            }
              ∷ [];
      },
    )

-- `iface.network_id = net.id`
unfoldable pub set_network : ℕ → ℕ → List Interface → List Interface
set_network i net [] = []
set_network zero net (x ∷ xs) = record x { network = some net } ∷ xs
set_network (suc i) net (x ∷ xs) = x ∷ set_network i net xs

-- `wire`, and what its caller sets on the link
unfoldable pub wire : ℕ → ℕ → Option Impair → Option Impair → M (Unit {0})
unfolding set_network
wire a b ab ba s =
    let net = length s.networks in
    ok (
      tt,
      record s {
        interfaces = set_network b net (set_network a net s.interfaces);
        links =
            s.links
            ++ record { a_iface = a; b_iface = b; network = net; impair_ab = ab; impair_ba = ba }
              ∷ [];
        networks = s.networks ++ bridge ∷ [];
      },
    )

-- two new interfaces and the wire between them
unfoldable pub connect_with : ℕ → ℕ → Option Impair → Option Impair → M (Unit {0})
unfolding add_interface wire
connect_with a b ab ba = do x ← add_interface a; y ← add_interface b; wire x y ab ba

abbrev pub connect : ℕ → ℕ → M (Unit {0})
connect a b = connect_with a b none none

-- `for i in range(n)`, from `i` on
unfoldable pub for_from : ℕ → ℕ → (ℕ → M (Unit {0})) → M (Unit {0})
for_from i zero body = skip
for_from i (suc n) body = body i >> for_from (suc i) n body

unfoldable pub for_range : ℕ → (ℕ → M (Unit {0})) → M (Unit {0})
unfolding for_from
for_range n body = for_from 0 n body

-- `[await f(i) for i in range(n)]`, from `i` on
unfoldable pub collect_from : {A : Type 0} → ℕ → ℕ → (ℕ → M A) → M (List A)
collect_from i zero f = return []
collect_from i (suc n) f = do x ← f i; xs ← collect_from (suc i) n f; return (x ∷ xs)

unfoldable pub collect : {A : Type 0} → ℕ → (ℕ → M A) → M (List A)
unfolding collect_from
collect n f = collect_from 0 n f

-- `for i, x in enumerate(xs)`, from `i` on
unfoldable pub for_each_from : {A : Type 0} → ℕ → List A → (ℕ → A → M (Unit {0})) → M (Unit {0})
for_each_from i [] body = skip
for_each_from i (x ∷ xs) body = body i x >> for_each_from (suc i) xs body

unfoldable pub for_each : {A : Type 0} → List A → (ℕ → A → M (Unit {0})) → M (Unit {0})
unfolding for_each_from
for_each xs body = for_each_from 0 xs body

-- `xs[i]`
unfoldable pub pick : List ℕ → ℕ → M ℕ
pick [] i = λ s. err index_error
pick (x ∷ xs) zero = return x
pick (x ∷ xs) (suc i) = pick xs i

-- a new interface on a network that is there
unfoldable pub attach : ℕ → ℕ → M (Unit {0})
unfolding add_interface set_network
attach net n = do
  i ← add_interface n
  λ s. ok (tt, record s { interfaces = set_network i net s.interfaces })

abbrev pub add_network : NetworkKind → M ℕ
add_network kind s = ok (length s.networks, record s { networks = s.networks ++ kind ∷ [] })

abbrev pub lift : {A : Type 0} → Result A → M A
lift (ok a) = return a
lift (err e) = λ s. err e

-- the NAT segment that some nodes are on, with the subnet that was picked for it
unfoldable pub add_egress : Result Net → List ℕ → M (Unit {0})
unfolding attach for_each pool_for
add_egress picked ns = do
  subnet ← lift picked
  pool ← lift (pool_for subnet)
  net ← add_network (nat subnet pool)
  for_each ns (λ _ n. attach net n)
