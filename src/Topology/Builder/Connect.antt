-- ===== src/Topology/Builder/Connect.antt =====
-- What a wire adds to the rows.
use labtris.Topology.Rows.{Interface, Builder, Impair, bridge}
use labtris.Topology.Builder.{
  ok, guest_iface_name, ℕ, List, count_of, scheme_of, add_interface, set_network, wire,
  connect_with,
}
use labtris.Prelude.{
  ◌==◌, none, length-append, if◌then◌else◌, refl, suc, arith, [], ◌+◌, ap, some, ◌≡◌, ◌∷◌, Option,
  ◌++◌, length, ℕ, List,
}
use labtris.Naming.Iface.{guest_iface_name}
use labtris.Prelude.Result.{ok}

pub count_of-append :
    (n : ℕ) (xs ys : List Interface) → count_of n (xs ++ ys) ≡ count_of n xs + count_of n ys
unfolding count_of
count_of-append n [] ys = omega arith
count_of-append n (x ∷ xs) ys = ground (arith, count_of-append n xs ys)

-- the row of a new interface of node `n`, number `idx` of it
abbrev pub port : Builder → ℕ → ℕ → ℕ → Interface
port s n idx net = record {
  node = n;
  idx = idx;
  name = guest_iface_name (some (scheme_of n s.nodes)) idx;
  network = some net;
}

abbrev pub second_idx : ℕ → ℕ → List Interface → ℕ
second_idx a b xs = if a == b then suc (count_of b xs) else count_of b xs

-- the rows behind a wire from `a` to `b`
abbrev pub connected : ℕ → ℕ → Option Impair → Option Impair → Builder → Builder
connected a b ab ba s = record s {
  interfaces =
      s.interfaces
      ++ port s a (count_of a s.interfaces) (length s.networks)
        ∷ port s b (second_idx a b s.interfaces) (length s.networks)
        ∷ [];
  links =
      s.links
      ++ record {
        a_iface = length s.interfaces;
        b_iface = suc (length s.interfaces);
        network = length s.networks;
        impair_ab = ab;
        impair_ba = ba;
      }
        ∷ [];
  networks = s.networks ++ bridge ∷ [];
}

two_set :
    (xs : List Interface) (y z : Interface) (net : ℕ)
    → set_network
        (length (xs ++ y ∷ []))
        net
        (set_network (length xs) net ((xs ++ y ∷ []) ++ z ∷ []))
      ≡ xs ++ record y { network = some net } ∷ record z { network = some net } ∷ []
unfolding set_network
two_set [] y z net = refl
two_set (x ∷ xs) y z net = ap (λ l. x ∷ l) (two_set xs y z net)

pub length_snoc : {A : Type 0} (xs : List A) (y : A) → length (xs ++ y ∷ []) ≡ suc (length xs)
length_snoc xs y = omega (arith, length-append xs (y ∷ []))

pub count_of_snoc :
    (n : ℕ) (xs : List Interface) (y : Interface)
    → count_of n (xs ++ y ∷ []) ≡ (if y.node == n then suc (count_of n xs) else count_of n xs)
unfolding count_of
count_of_snoc n xs y = ground (arith, count_of-append n xs (y ∷ []))

-- a wire between two rows that have just been added
wire_last :
    (y z : Interface) (ab ba : Option Impair) (s : Builder)
    → wire
        (length s.interfaces)
        (length (s.interfaces ++ y ∷ []))
        ab
        ba
        (record s { interfaces = (s.interfaces ++ y ∷ []) ++ z ∷ [] })
      ≡ ok (
        tt,
        record s {
          interfaces =
              s.interfaces
              ++ record y { network = some (length s.networks) }
                ∷ record z { network = some (length s.networks) }
                ∷ [];
          links =
              s.links
              ++ record {
                a_iface = length s.interfaces;
                b_iface = suc (length s.interfaces);
                network = length s.networks;
                impair_ab = ab;
                impair_ba = ba;
              }
                ∷ [];
          networks = s.networks ++ bridge ∷ [];
        },
      )
unfolding wire
wire_last y z ab ba s =
    rw (two_set s.interfaces y z (length s.networks), length_snoc s.interfaces y) refl

-- A wire between two nodes adds two interfaces, each with the next number of its node, a link
-- between these two and a network that both are on.
pub connect_with_lem :
    (a b : ℕ) (ab ba : Option Impair) (s : Builder)
    → connect_with a b ab ba s ≡ ok (tt, connected a b ab ba s)
unfolding connect_with add_interface
connect_with_lem a b ab ba s =
    rw
      (← count_of_snoc b s.interfaces
        (record (port s a (count_of a s.interfaces) 0) { network = none }))
      (wire_last (record (port s a (count_of a s.interfaces) 0) { network = none })
        (record (port s b
          (count_of b
            (s.interfaces ++ record (port s a (count_of a s.interfaces) 0) { network = none } ∷ []))
          0) { network = none })
        ab ba s)
