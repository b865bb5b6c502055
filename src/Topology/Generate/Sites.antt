-- ===== src/Topology/Generate/Sites.antt =====
-- The labs of the scale patterns.
use labtris.Prelude.{text_eq}
use labtris.Topology.Roles.{is_preset}
use labtris.Topology.Generate.{generate, generator, generate_as}
use labtris.Topology.Generate.Drawn.{
  Drawn, Makes-Drawn, Serves-Drawn, length-spread, length-spread_one, length-spread_two,
}
use labtris.Topology.Builder.Draw.{IsKind, cable, spread}
use labtris.Topology.Builder.Egress.{IsServed}
use labtris.Topology.Scale
use labtris.Topology.Scale.{hops}
use labtris.Topology.Scale.Fabric.{up_cables, host_cables, leaf_of, under}
use labtris.Topology.Scale.Across.{site_size, site_cables, across_cables, hop, scale_across-Makes}
use labtris.Topology.Scale.Above.{mesh_of, climb, region_cables, above_cables, scale_above-Makes}
use labtris.Topology.Scale.Edge.{
  front_cables, service_cables, core_cables, edge_cables, egresses, front_end-Serves,
  scale_edge-Serves,
}
use labtris.Topology.Request.{GenerateIn, front_end, scale_across, scale_above, scale_edge}
use labtris.Ip.{Net}
use labtris.Prelude.{
  [], ap, ◌∷◌, ◌≤◌, Bool, true, false, codes, not, ◌&&◌, ◌||◌, ◌-◌, ◌/◌, suc, zero, ℕ, ◌+◌, ◌*◌,
  ◌≡◌, refl, arith, length, length-append,
}
use labtris.Prelude.Result.{Result}

length-site_cables :
    (body : GenerateIn) (m : ℕ)
    → length (site_cables body m) ≡ body.leaves + body.leaves * body.hosts_per_leaf
length-site_cables body m =
    let l = body.leaves in
    let h = body.hosts_per_leaf in
    omega (
      arith,
      length-append (up_cables m l h) (host_cables m l h),
      length-spread_one l (λ j. cable m (leaf_of m l h j)),
      length-spread_two l h (λ j i. cable (under m l h j i) (leaf_of m l h j)),
    )

-- Where both kinds are known and there is a site, a scale-across request is answered with the nodes of
-- N sites, each a border, L leaves and L * H hosts, and with N * (L + L * H) links besides the ring's:
-- N of these, and one where N is at most 2. The rows are sound, and the links draw exactly the sites and
-- the ring of their borders, each hop with the one delay out and the other back.
pub generate-scale_across :
    (picked : Result Net) (body : GenerateIn)
    → body.pattern ≡ scale_across
    → 1 ≤ body.sites
    → IsKind body.leaf_kind
    → IsKind body.host_kind
    → Drawn scale_across
        (body.sites * (1 + body.leaves + body.leaves * body.hosts_per_leaf))
        (body.sites * (body.leaves + body.leaves * body.hosts_per_leaf) + hops body)
        0
        (across_cables body)
        (generate picked body)
unfolding generator
generate-scale_across picked body is some_site leaf host =
    rw (generate_as picked body scale_across is) (
      Makes-Drawn scale_across _ _ (across_cables body) _
        (omega (
          arith,
          length-append (spread 0 body.sites (λ s. site_cables body (s * site_size body))) _,
          length-spread 0 body.sites (body.leaves + body.leaves * body.hosts_per_leaf)
              (λ s. site_cables body (s * site_size body))
              (λ s. length-site_cables body (s * site_size body)),
          length-spread_one (hops body) (hop body),
        ))
        (scale_across-Makes body leaf host some_site))

handshakes_step : (n : ℕ) → n * (n - 1) + 2 * n ≡ suc n * (suc n - 1)
handshakes_step zero = omega arith
handshakes_step (suc n) =
    let before : suc n - 1 ≡ n = omega arith in
    let after : suc (suc n) - 1 ≡ suc n = omega arith in rw (before, after) (grind arith)

-- the handshakes of `n` transits from number `i` on
length-mesh :
    (body : GenerateIn) (n i : ℕ)
    → i + n ≡ body.transits
    → 2 * length (spread i n (mesh_of body)) ≡ n * (n - 1)
unfolding spread
length-mesh body zero i e = omega arith
length-mesh body (suc n) i e =
    let row : body.transits - (i + 1) ≡ n = omega arith in
    omega (
      arith,
      row,
      handshakes_step n,
      length-append (mesh_of body i) (spread (suc i) n (mesh_of body)),
      length-spread (i + 1) (body.transits - (i + 1)) 1 (λ j. cable i j ∷ []) (λ j. refl),
      length-mesh body n (suc i) (omega arith),
    )

length-region_cables :
    (body : GenerateIn) (m : ℕ)
    → length (region_cables body m)
      ≡ body.transits + (body.leaves + body.leaves * body.hosts_per_leaf)
length-region_cables body m = omega (
  arith,
  length-append (spread 0 body.transits (λ t. climb body m t ∷ [])) (site_cables body m),
  length-spread_one body.transits (climb body m),
  length-site_cables body m,
)

-- Where both kinds are known, a scale-above request is answered with T transits and the nodes of R
-- regions, each a border, L leaves and L * H hosts, and with T * (T - 1) / 2 links between transits and
-- T + L + L * H for each region. The rows are sound, and the links draw exactly the mesh of transits and
-- each region: its border to every transit, with that transit's delay out and one step more back, and to
-- its leaves, and its hosts to their leaf.
pub generate-scale_above :
    (picked : Result Net) (body : GenerateIn)
    → body.pattern ≡ scale_above
    → IsKind body.leaf_kind
    → IsKind body.host_kind
    → Drawn scale_above
        (body.transits + body.regions * (1 + body.leaves + body.leaves * body.hosts_per_leaf))
        (body.transits * (body.transits - 1) / 2
          + body.regions * (body.transits + (body.leaves + body.leaves * body.hosts_per_leaf)))
        0
        (above_cables body)
        (generate picked body)
unfolding generator
generate-scale_above picked body is leaf host = rw (generate_as picked body scale_above is) (
    Makes-Drawn scale_above _ _ (above_cables body) _
      (omega (
        arith,
        length-append (spread 0 body.transits (mesh_of body)) _,
        length-mesh body body.transits 0 (omega arith),
        length-spread 0 body.regions
            (body.transits + (body.leaves + body.leaves * body.hosts_per_leaf))
            (λ r. region_cables body (body.transits + r * site_size body))
            (λ r. length-region_cables body (body.transits + r * site_size body)),
      ))
      (scale_above-Makes body leaf host))

-- Where both kinds are known, and what pick_subnet gave has a pool if egress is asked for, a front-end
-- request is answered with two borders, an access switch and the services, with a link between the
-- borders, one from each to the switch and one for each service, and with one network more than links
-- if egress is asked for. The rows are sound, and the links draw exactly these cables.
pub generate-front_end :
    (picked : Result Net) (body : GenerateIn)
    → body.pattern ≡ front_end
    → IsKind body.leaf_kind
    → IsKind body.host_kind
    → (body.with_egress ≡ true → IsServed picked)
    → Drawn front_end
        (3 + body.services)
        (3 + body.services)
        (egresses body)
        (front_cables body)
        (generate picked body)
unfolding generator
generate-front_end picked body is leaf host served = rw (generate_as picked body front_end is) (
    Serves-Drawn front_end _ _ _ (front_cables body) _
      (omega (arith, length-spread_one body.services (λ h. cable (3 + h) 2)))
      (front_end-Serves body leaf host picked served))

length-core_cables :
    (body : GenerateIn)
    → length (core_cables body) ≡ 1 + body.services + body.edges * suc body.hosts_per_edge
length-core_cables body =
    let m : ℕ → ℕ = λ e. 2 + body.services + e * suc body.hosts_per_edge in
    omega (
      arith,
      length-append (service_cables body 2 1) (spread 0 body.edges (λ e. edge_cables body e (m e))),
      length-spread_one body.services (λ h. cable (2 + h) 1),
      length-spread 0 body.edges (suc body.hosts_per_edge) (λ e. edge_cables body e (m e))
          (λ e. ap suc (length-spread_one body.hosts_per_edge (λ h. cable (m e + 1 + h) (m e)))),
    )

not_refused : (a b : Bool) → (a || b) ≡ true → (not a && not b) ≡ false
not_refused a b h = ground (arith, h)

-- Where both kinds are known, and what pick_subnet gave has a pool if egress is asked for, a
-- scale-edge request whose preset is "auto" or one of PRESETS is answered with the core's two nodes,
-- the services and E sites of a node and H hosts, and with the core's link, one for each service, and
-- H + 1 for each site. The rows are sound, and the links draw exactly these cables, each site's uplink
-- with its preset both ways; there is one network more than links if egress is asked for.
pub generate-scale_edge :
    (picked : Result Net) (body : GenerateIn)
    → body.pattern ≡ scale_edge
    → (text_eq body.edge_preset (codes "auto") || is_preset body.edge_preset) ≡ true
    → IsKind body.leaf_kind
    → IsKind body.host_kind
    → (body.with_egress ≡ true → IsServed picked)
    → Drawn scale_edge
        (2 + body.services + body.edges * suc body.hosts_per_edge)
        (1 + body.services + body.edges * suc body.hosts_per_edge)
        (egresses body)
        (core_cables body)
        (generate picked body)
unfolding generator Scale.scale_edge
generate-scale_edge picked body is known leaf host served =
    rw (generate_as picked body scale_edge is, not_refused _ _ known)
      (Serves-Drawn scale_edge _ _ _ (core_cables body) _ (length-core_cables body)
        (scale_edge-Serves body leaf host picked served))
