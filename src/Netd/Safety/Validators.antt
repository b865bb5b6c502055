-- ===== src/Netd/Safety/Validators.antt =====
-- What each validator lets through.
use labtris.Prelude.{
  Bool, true, false, Bool-cases, String, refl, suc, ap, length, inl, inr, Option-cases, subst, ℕ,
  ◌≤◌, ◌<◌, Text, List, [], ◌∷◌, Option, some, All, ◌≡◌, arith,
}
use labtris.Netd.Json.{end, field, Fields, get, as_dict, as_list, as_str, items, Json}
use labtris.Netd.Check.{
  require_ifname, require_host_ifname, require_key, require_vid, require_vids, int_in, traverse,
}
use labtris.Netd.Address.{require_ipv4, require_cidr, require_hosts, require_host}
use labtris.Netd.Params.{is_inside, link_pid, link_pids, fields_length, uplinks, positive}
use text.Mathlib.Text.{◌==◌ as str_eq}
use labtris.Ip.{Net, ip_network, ip_address, contains}
use labtris.Prelude.Result.{ok}
use labtris.Netd.Make.{manual_address}
use labtris.Netd.Safety.{Addressed, Namespace, OwnName, HostName, Key, Vid, Address, Subnet, Host}

pub require_ifname-OwnName : (v : Json) {s : Text} → require_ifname v ≡ some s → OwnName s
unfolding require_ifname
require_ifname-OwnName v h = ground arith

pub require_host_ifname-HostName :
    (v : Json) {s : Text} → require_host_ifname v ≡ some s → HostName s
unfolding require_host_ifname
require_host_ifname-HostName v h = ground arith

pub require_key-Key : (v : Json) {s : Text} → require_key v ≡ some s → Key s
unfolding require_key
require_key-Key v h = ground arith

pub int_in_bounds : (lo hi : ℕ) (v : Json) {n : ℕ} → int_in lo hi v ≡ some n → (lo ≤ n) × (n ≤ hi)
unfolding int_in
int_in_bounds lo hi v h = ground arith

pub positive-pos : (v : Json) {n : ℕ} → positive v ≡ some n → 0 < n
unfolding positive
positive-pos v h = ground arith

-- what holds of every result of `f` holds of the list
pub traverse-All :
    {A B : Type 0} (P : B → Type 0) (f : A → Option B)
    → ((a : A) (b : B) → f a ≡ some b → P b)
    → (as' : List A) {bs : List B} → traverse f as' ≡ some bs
    → All P bs
traverse-All P f each [] h = subst (All P) {x = []} (ground arith) tt
traverse-All P f each (a ∷ as') {bs} h = elim (Option-cases (f a)) [
  | inr p ↦ absurd (ground (arith, p))
  | inl (b, p) ↦ elim (Option-cases (traverse f as')) [
    | inr q ↦ absurd (ground (arith, p, q))
    | inl (cs, q) ↦
        subst (All P) {x = b ∷ cs} (ground (arith, p, q)) (each a b p, traverse-All P f each as' q)
  ]
]

pub require_vids-All : (v : Json) {ns : List ℕ} → require_vids v ≡ some ns → All Vid ns
unfolding require_vids as_list require_vid
require_vids-All Json.null h = subst (All Vid) {x = []} (ground arith) tt
require_vids-All (Json.arr vs) h =
    traverse-All Vid require_vid (λ v n e. int_in_bounds 1 4094 v e) (items vs) h
require_vids-All _ h = cc

module _ (decimal : ℕ → Option ℕ) where
  pub require_ipv4-Address :
      (v : Json) {s : Text} → require_ipv4 decimal v ≡ some s → Address decimal s
  unfolding require_ipv4
  require_ipv4-Address v h = ground arith

  pub require_cidr-Subnet :
      (v : Json) {s : Text} → require_cidr decimal v ≡ some s → Subnet decimal s
  unfolding require_cidr
  require_cidr-Subnet v h = ground arith

  pub require_host-Host :
      (v : Json) (h : Text × Text) → require_host decimal v ≡ some h → Host decimal h
  unfolding require_host as_dict
  require_host-Host (Json.obj fs) (mac, ip) e =
      ground (arith, require_ipv4-Address (get "ip" fs) {s = ip})
  require_host-Host _ (mac, ip) e = cc

  pub require_hosts-All :
      (v : Json) {hs : List (Text × Text)}
      → require_hosts decimal v ≡ some hs
      → All (Host decimal) hs
  unfolding require_hosts as_list
  require_hosts-All Json.null h = subst (All (Host decimal)) {x = []} (ground arith) tt
  require_hosts-All (Json.arr vs) h =
      traverse-All (Host decimal) (require_host decimal) require_host-Host (items vs) h
  require_hosts-All _ h = cc

pub uplinks-All :
    (vs : List Json) (seen : List Text) {ns : List Text}
    → uplinks seen vs ≡ some ns
    → All HostName ns
unfolding uplinks as_dict
uplinks-All [] seen h = subst (All HostName) {x = []} (ground arith) tt
uplinks-All (Json.obj fs ∷ vs) seen {ns} h =
    elim (Option-cases (require_host_ifname (get "nic" fs))) [
      | inr p ↦ absurd (ground (arith, p))
      | inl (n, p) ↦ elim (Option-cases (uplinks (n ∷ seen) vs)) [
        | inr q ↦ absurd (ground (arith, p, q))
        | inl (rest, q) ↦
            subst (All HostName) {x = n ∷ rest} (ground (arith, p, q))
              (require_host_ifname-HostName (get "nic" fs) p, uplinks-All vs (n ∷ seen) q)
      ]
    ]
uplinks-All (_ ∷ vs) seen h = cc

pub names-All :
    (vs : List Json) {ns : List Text} → traverse require_ifname vs ≡ some ns → All OwnName ns
names-All vs h = traverse-All OwnName require_ifname (λ v s e. require_ifname-OwnName v e) vs h

link_pid-pos : (v : Json) {n : ℕ} → link_pid v ≡ some n → 0 < n
link_pid-pos (Json.num n) h = ground arith
link_pid-pos _ h = cc

pub link_pids-All :
    (fs : Fields) {ps : List (String × ℕ)}
    → link_pids fs ≡ some ps
    → All Namespace ps × (length ps ≡ fields_length fs)
unfolding link_pids fields_length
link_pids-All end {ps} h =
    subst (λ x. All Namespace x × (length x ≡ 0)) {x = []} (ground arith) (tt, refl)
link_pids-All (field k v fs) {ps} h = elim (Bool-cases (str_eq k "")) [
  | inl b ↦ absurd (ground (arith, b))
  | inr b ↦ elim (Option-cases (link_pid v)) [
    | inr q ↦ absurd (ground (arith, b, q))
    | inl (n, q) ↦ elim (Option-cases (link_pids fs)) [
      | inr r ↦ absurd (ground (arith, b, q, r))
      | inl (rest, r) ↦
          let (safe, count) = link_pids-All fs r in
          subst (λ x. All Namespace x × (length x ≡ suc (fields_length fs))) {x = (k, n) ∷ rest}
            (ground (arith, b, q, r)) (((b, link_pid-pos v q), safe), ap suc count)
    ]
  ]
]

module _ (decimal : ℕ → Option ℕ) where
  require_cidr-str : (v : Json) {s : Text} → require_cidr decimal v ≡ some s → v ≡ Json.str s
  unfolding require_cidr as_str
  require_cidr-str (Json.str t) h = ap Json.str (ground arith)
  require_cidr-str _ h = cc

  require_ipv4-str : (v : Json) {s : Text} → require_ipv4 decimal v ≡ some s → v ≡ Json.str s
  unfolding require_ipv4 as_str
  require_ipv4-str (Json.str t) h = ap Json.str (ground arith)
  require_ipv4-str _ h = cc

  is_inside-Net :
      (g a : Text)
      → is_inside g a ≡ some tt
      → (net : Net) × (n : ℕ) × (ip_network a ≡ some net)
        × (ip_address g ≡ some n)
        × (contains net n ≡ true)
  is_inside-Net g a h = elim (Option-cases (ip_network a)) [
    | inr e ↦ absurd (ground (arith, e))
    | inl (net, e) ↦ elim (Option-cases (ip_address g)) [
      | inr q ↦ absurd (ground (arith, e, q))
      | inl (n, q) ↦ (net, n, e, q, ground (arith, e, q))
    ]
  ]

  pub manual_address-Addressed :
      (manual : Bool) (p : Fields)
      → manual_address decimal manual p ≡ ok tt
      → Addressed decimal manual (get "address" p) (get "gateway" p)
  unfolding manual_address
  manual_address-Addressed false p h = tt
  manual_address-Addressed true p h = elim (Option-cases (require_cidr decimal (get "address" p))) [
    | inr e ↦ absurd (ground (arith, e))
    | inl (a, e) ↦ elim (Option-cases (require_ipv4 decimal (get "gateway" p))) [
      | inr q ↦ absurd (ground (arith, e, q))
      | inl (g, q) ↦ elim (Option-cases (is_inside g a)) [
        | inr r ↦ absurd (ground (arith, e, q, r))
        | inl (_, r) ↦
            rw (require_cidr-str (get "address" p) e, require_ipv4-str (get "gateway" p) q)
              (
                require_cidr-Subnet decimal (get "address" p) e,
                require_ipv4-Address decimal (get "gateway" p) q,
                is_inside-Net g a r,
              )
      ]
    ]
  ]
