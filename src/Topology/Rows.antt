-- ===== src/Topology/Rows.antt =====
-- labtris_api/topology_gen.py: the kinds of nodes, and the rows of a generated lab. Rows are numbered in the
-- order they are added, in place of their ULIDs.
use labtris.Prelude.{text_eq}
use labtris.Prelude.{String, ℕ, Text, codes, List, [], if◌then◌else◌, Option, none, some}
use labtris.Prelude.Int.{ℤ}
use labtris.Topology.Frr.{Script}
use labtris.Ip.{Net}
use labtris.Nat.{DhcpPool}

-- runtime and image
pub record Kind : Type 0 where
  pub runtime : Text
  pub image : Text

abbrev pub docker : String → Option Kind
docker image = some (record { runtime = codes "docker"; image = codes image })

-- `_resolve_kind`, over the keys of _KINDS
unfoldable pub kind_of : Text → Option Kind
kind_of k =
    if text_eq k (codes "alpine")
    then docker "alpine:3.20"
    else if text_eq k (codes "frr")
    then docker "frrouting/frr:v8.4.0"
    else if text_eq k (codes "bmv2")
    then docker "p4lang/behavioral-model:latest"
    else if text_eq k (codes "ubuntu")
    then docker "ubuntu:24.04"
    else if text_eq k (codes "srlinux")
    then docker "ghcr.io/nokia/srlinux:latest"
    else if text_eq k (codes "uet-ref")
    then docker "labtris/uet-ref:latest"
    else if text_eq k (codes "rdma-host")
    then docker "labtris/rdma-host:latest"
    else if text_eq k (codes "vpp")
    then docker "ghcr.io/labtris/vpp:latest"
    else if text_eq k (codes "trex")
    then docker "ghcr.io/labtris/trex:latest"
    else none

-- `iface_scheme_for` at a container's image
unfoldable pub iface_scheme_for : Text → Text
iface_scheme_for image =
    if text_eq image (codes "p4lang/p4c:latest")
    then codes "s"
    else if text_eq image (codes "ghcr.io/nokia/srlinux:latest")
    then codes "srl"
    else codes "eth"

pub record Node : Type 0 where
  pub name : Text
  pub kind : Kind
  -- opts["p4_program"]
  pub program : Option Text
  -- opts["seed_files"], empty if it is not there
  pub seed_files : List (Text × Text)
  pub startup_config : Option Script
  pub x : ℤ
  pub y : ℤ

pub record Interface : Type 0 where
  pub node : ℕ
  pub idx : ℕ
  pub name : Text
  pub network : Option ℕ

-- what is put on one direction of a link: a delay in ms, or a preset of PRESETS
pub data Impair : Type 0 where
  delay : ℕ → Impair
  preset : Text → Impair

pub record Link : Type 0 where
  pub a_iface : ℕ
  pub b_iface : ℕ
  pub network : ℕ
  pub impair_ab : Option Impair
  pub impair_ba : Option Impair

pub data NetworkKind : Type 0 where
  bridge : NetworkKind
  -- a NAT segment with its subnet
  nat : Net → DhcpPool → NetworkKind

pub record Builder : Type 0 where
  pub nodes : List Node
  pub interfaces : List Interface
  pub links : List Link
  pub networks : List NetworkKind

abbrev pub empty : Builder
empty = record { nodes = []; interfaces = []; links = []; networks = [] }
