-- ===== src/Topology/Builder/Egress.antt =====
-- Runs of a builder that end with a NAT segment.
use labtris.Topology.Builder.Loops.{spread_nil, Makes-wires}
use labtris.Topology.Rows.{Interface, Builder, NetworkKind, nat}
use labtris.Topology.Builder.{
  for_each, DhcpPool, Net, Result, ok, M, attach, add_network, add_egress, add_interface,
  set_network, count_of, ◌>>=◌, skip,
}
use labtris.Topology.Builder.Connect.{length_snoc, port}
use labtris.Topology.Builder.Sound.{
  cables, IsHome, Cable, with_interface-IsSound, cables-with_interface,
}
use labtris.Topology.Builder.Draw.{
  Makes-return, continue-Returns, Returns-map, At, Makes, Makes-cast, Returns, tabulate,
}
use labtris.Prelude.{
  false, if◌then◌else◌, true, sym, ap, Bool, subst, ◌∙◌, length, ◌≡◌, ℕ, List, [], ◌∷◌, ◌++◌, ◌+◌,
  ◌<◌, refl, arith, some,
}
use labtris.Prelude.Result.{Result, ok}
use labtris.Ip.{Net}
use mathlib.Core.List.{append-nil, append_assoc}
use labtris.Nat.{pool_for, DhcpPool}

set_last :
    (net : ℕ) (xs : List Interface) (y : Interface)
    → set_network (length xs) net (xs ++ y ∷ []) ≡ xs ++ record y { network = some net } ∷ []
unfolding set_network
set_last net [] y = refl
set_last net (x ∷ xs) y = ap (λ l. x ∷ l) (set_last net xs y)

attach_lem :
    (net n : ℕ) (s : Builder)
    → attach net n s
      ≡ ok (
        tt,
        record s { interfaces = s.interfaces ++ port s n (count_of n s.interfaces) net ∷ [] },
      )
unfolding attach add_interface
attach_lem net n s = rw (set_last net s.interfaces _) refl

attach-Makes : (net m n : ℕ) → n < m → Makes m 0 [] tt (attach net n)
attach-Makes net m n l e ds s h =
    let i = port s n (count_of n s.interfaces) net in
    let home : IsHome s.nodes i = record { there = omega (arith, h.size); named = refl } in
    rw (attach_lem net n s) (
      refl,
      record {
        size = omega (arith, h.size);
        drawn = cables-with_interface s h.sound i home refl ∙ h.drawn ∙ sym (append-nil ds);
        linked = h.linked ∙ ap length (sym (append-nil ds));
        counted = omega (arith, h.counted, ap length (append-nil ds));
        sound = with_interface-IsSound s h.sound i home refl;
      },
    )

-- As Makes, with `g` networks that no cable needs.
abbrev pub Serves : ℕ → ℕ → ℕ → List Cable → M (Unit {0}) → Type 0
Serves g m w ks act =
    (e : ℕ) (ds : List Cable) (s : Builder)
    → At e m ds s
    → Returns (act s) (λ _ t. At (e + g) (m + w) (ds ++ ks) t)

add_network-Serves :
    (kind : NetworkKind) (f : ℕ → M (Unit {0})) (m : ℕ)
    → ((net : ℕ) → Makes m 0 [] tt (f net))
    → Serves 1 m 0 [] (add_network kind >>= f)
unfolding cables
add_network-Serves kind f m made e ds s h =
    Returns-map (f (length s.networks) (record s { networks = s.networks ++ kind ∷ [] }))
      (λ y t. (y ≡ tt) × At (e + 1) (m + 0) (ds ++ []) t) _ (λ _ t r. r.1)
      (made (length s.networks) (e + 1) ds (record s { networks = s.networks ++ kind ∷ [] })
        (record {
          size = h.size;
          drawn = h.drawn;
          linked = h.linked;
          counted = omega (arith, length_snoc s.networks kind, h.counted);
          sound = record { homes = h.sound.homes; ranked = h.sound.ranked; wired = h.sound.wired };
        }))

-- what `pick_subnet` gave is a network with a pool
abbrev pub IsServed : Result Net → Type 0
IsServed picked =
    (subnet : Net) × (pool : DhcpPool) × (picked ≡ ok subnet) × (pool_for subnet ≡ ok pool)

pub add_egress-Serves :
    (picked : Result Net) (m n : ℕ) (x : ℕ → ℕ)
    → IsServed picked
    → ((j : ℕ) → j < n → x j < m)
    → Serves 1 m 0 [] (add_egress picked (tabulate 0 n x))
unfolding add_egress
add_egress-Serves picked m n x (subnet, pool, was, gave) l e ds s h =
    rw (was, gave)
      (add_network-Serves (nat subnet pool) (λ net. for_each (tabulate 0 n x) (λ _ i. attach net i))
        m
        (λ net. Makes-cast m m 0 0 _ [] tt tt _ refl refl (spread_nil 0 n) refl (
          Makes-wires m n (λ _. []) x (λ _ i. attach net i)
            (λ j lj. attach-Makes net m (x j) (l j lj))))
        e ds s h)

pub skip-Serves : (m : ℕ) → Serves 0 m 0 [] skip
skip-Serves m e ds s h =
    subst (λ k. At k (m + 0) (ds ++ []) s) (omega arith) ((Makes-return m tt e ds s h).1)

-- one part behind another, up to what the sums amount to
pub Serves-then :
    {A : Type 0} (g m w n v u : ℕ) (ks ls js : List Cable) (x : A) (act : M A)
    (f : A → M (Unit {0}))
    → m + w ≡ n
    → w + v ≡ u
    → ks ++ ls ≡ js
    → Makes m w ks x act
    → Serves g n v ls (f x)
    → Serves g m u js (act >>= f)
Serves-then g m w n v u ks ls js x act f p q r h k e ds s at =
    continue-Returns (act s) f x e (m + w) (ds ++ ks) _ (h e ds s at) (λ t at'.
      Returns-map (f x t) _ _
        (λ _ z done.
          subst (λ l. At (e + g) (m + u) l z) (append_assoc ds ks ls ∙ ap (λ l. ds ++ l) r)
            (subst (λ i. At (e + g) i ((ds ++ ks) ++ ls) z) (omega arith) done))
        (k e (ds ++ ks) t (subst (λ i. At e i (ds ++ ks) t) p at')))

-- where it is asked for
pub asked-Serves :
    (asked : Bool) (picked : Result Net) (m n : ℕ) (x : ℕ → ℕ)
    → (asked ≡ true → IsServed picked)
    → ((j : ℕ) → j < n → x j < m)
    → Serves
        (if asked then 1 else 0)
        m
        0
        []
        (if asked then add_egress picked (tabulate 0 n x) else skip)
asked-Serves true picked m n x served l = add_egress-Serves picked m n x (served refl) l
asked-Serves false picked m n x served l = skip-Serves m
