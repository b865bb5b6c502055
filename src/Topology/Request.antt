-- ===== src/Topology/Request.antt =====
-- labtris_api/topology_gen.py: GenerateIn, with the bounds of its fields.
use labtris.Prelude.{ℕ, Text, Bool, ◌&&◌, leb}

pub data Pattern : Type 0 where
  spine_leaf rail_optimised fat_tree front_end scale_across scale_above scale_edge : Pattern

pub record GenerateIn : Type 0 where
  pub pattern : Pattern
  pub spines : ℕ
  pub leaves : ℕ
  pub hosts_per_leaf : ℕ
  pub rails : ℕ
  pub hosts_per_rail : ℕ
  pub k : ℕ
  pub sites : ℕ
  pub dci_delay_ms : ℕ
  pub dci_return_delay_ms : ℕ
  pub services : ℕ
  pub regions : ℕ
  pub transits : ℕ
  pub above_delay_ms : ℕ
  pub above_delay_step_ms : ℕ
  pub edges : ℕ
  pub hosts_per_edge : ℕ
  pub edge_preset : Text
  pub with_egress : Bool
  pub spine_kind : Text
  pub leaf_kind : Text
  pub host_kind : Text
  pub p4_program : Text
  pub with_bgp_evpn : Bool

abbrev pub within : ℕ → ℕ → ℕ → Bool
within ge le n = leb ge n && leb n le

-- the Field bounds; a negative number is no ℕ
unfoldable pub accepted : GenerateIn → Bool
accepted b =
    within 1 32 b.spines
    && within 1 64 b.leaves
    && within 0 64 b.hosts_per_leaf
    && within 1 32 b.rails
    && within 0 32 b.hosts_per_rail
    && within 2 24 b.k
    && within 2 8 b.sites
    && within 0 500 b.dci_delay_ms
    && within 0 500 b.dci_return_delay_ms
    && within 0 32 b.services
    && within 2 6 b.regions
    && within 1 4 b.transits
    && within 0 500 b.above_delay_ms
    && within 0 100 b.above_delay_step_ms
    && within 1 32 b.edges
    && within 0 8 b.hosts_per_edge
