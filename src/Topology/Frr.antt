-- ===== src/Topology/Frr.antt =====
-- labtris_api/topology_gen.py and labtris_api/frr_templates.py: the configurations of routers. A
-- configuration is its parts; `evpn_text` and `plain_text` write one out.
mod Lines
mod Evpn
mod Peering
mod Tenant
mod Installer
pub mod Seeds
use labtris.Prelude.{Text, []}
unfoldable pub use Lines.*
unfoldable pub use Evpn.*
unfoldable pub use Peering.*
unfoldable pub use Tenant.*
unfoldable pub use Installer.*
unfoldable pub use Seeds.*

-- A node's startup configuration. `_frr_installer` wraps the text of a router, behind that of an
-- overlay if there is one.
pub data Script : Type 0 where
  frr : Router → Script
  frr_over : Overlay → Router → Script
  plain : Plain → Script
  host : Text → Script

-- the startup configuration itself
unfoldable pub script_text : Script → Text
unfolding frr_installer daemons_evpn evpn_text plain_text overlay_text host_text
script_text (frr r) = frr_installer daemons_evpn (evpn_text r) []
script_text (frr_over o r) = frr_installer daemons_evpn (evpn_text r) (overlay_text o)
script_text (plain p) = frr_installer daemons_evpn (plain_text p) []
script_text (host addr) = host_text addr
