-- ===== src/Lib.antt =====
-- A verification library for Labtris, a network-lab server. A lab's nodes are joined by host devices,
-- which an unprivileged API process (labtris_api) names and a privileged daemon (labtris_netd)
-- makes; ue_stack is a transport with reliable delivery that nodes may use among themselves.
--
-- The parts, and the files that model them:
--
-- Prelude: natural numbers and the tests on them, lists, dicts in insertion order (Prelude/Dict)
--   and functions that may raise (Prelude/Result).
-- UeStack: ue_stack. Packet and Struct are packet.py: `pack` and `unpack` are UePacket's, and
--   `pack_ses` and the like are the headers' own. Pdc is pdc.py: `send_ipdc`, `send_tpdc`, `on_ack` and
--   `rto_sweep` are the methods of Ipdc and Tpdc, and the record Tpdc holds the counters, the timeout
--   and the table of pending packets. Daemon is daemon.py: `datagram_received`, `dispatch`, the table
--   of contexts.
-- Netd: labtris_netd. Protocol and Line are protocol.py (IFNAME_RE as `matches_ifname`, FrameDecoder as
--   `feed`, which takes what `decode_line` of Line makes of a line). Json holds decoded values; Check, Address and Params are the validators of verbs.py, Verb
--   its VERBS, Call the methods of its NetOps, Make its `_call`, and Dispatch its `dispatch`. Session
--   is `handle` of __main__.py.
-- Client: labtris_api/netd_client.py, `send` and `client_call` (NetdClient.call). Remote puts the daemon's
--   `handle` at the other end of the connection.
-- Ip: what the program uses of the standard module ipaddress.
-- Naming: labtris_api/naming.py. Device has `slug`, `device_hint`, `base36` and `host_ifname`, whose
--   names the gate of Netd/Protocol.antt judges; Iface has the table of IfaceScheme and
--   `guest_iface_name`.
-- Nat: labtris_api/nat.py, `pick_subnet` and `pool_for`, over the networks of Ip.
-- Lifecycle: labtris_api/lifecycle.py, the searches for the next port of a node; Lifecycle/Registry.antt
--   has `try_allocate_ifname`, over the rows of the table ifname_registry.
-- Import: labtris_api/clab_watch.py, `pair_links`. Pair has the ends, their candidates and the loop; Order has
--   the ends' keys and their order, Cable what a cable is, Links and Loop the invariant of the loop.
-- Migrate: labtris_api/migrate.py. Yaml holds decoded values and what the code asks of them, Plan the
--   planned nodes and links; Clab is `parse_clab`, with its loops in Nodes and Links, and Unl is
--   `parse_unl`. Owner, Unlinked, Linked and Joined follow the interfaces, the nodes and the links. Realize is `realize_plan`
--   of labtris_api/routers/labs.py, over the rows of State and the unique constraints of models.py; Refs,
--   Named, Wired, Ends, Sound, Joined and Imported follow a plan to its rows.
-- Topology: labtris_api/topology_gen.py and labtris_api/frr_templates.py. Frr has the configurations of routers
--   (`spine_frr_conf` is _spine_frr_conf, and so on), the script that installs them and the files that are
--   recovered from it; Rows the rows of a generated lab and Builder the class _Builder; Request is
--   GenerateIn; Clos, FatTree and Scale are the seven patterns, over the names of Roles, and Generate is
--   `generate`. The modules named Shape, Fabric, Across, Above and Edge say which cables a pattern draws.
--
-- How the code corresponds. A method is a function from the old state to a result, the new state
-- and what is sent. A coroutine may be interrupted at an await: the record Wire of UeStack/Pdc.antt
-- says what each `await sock_send` does, whether it raises, and which ACKs arrive before it returns. Text is
-- a list of code points, bytes a list of numbers. An exception is a value of Prelude/Result.antt. A
-- regular expression is a matcher by clauses, with Python's `$`, which admits a final newline.
--
-- Parameters stand for what is not in the repository: the wire, the UTF-8 decoder, `str.strip` and
-- `json.loads` in `decode_line`, `safe_load`, `str` of a list or a dict and `str.split` in
-- `parse_clab`, the XML parser, `lower` and `float` in `parse_unl`, the random name of a link's
-- network in `realize_plan`, the answers of the kernel in `dispatch`, what `ip_network` reads in
-- `pick_subnet`, the digits beyond ASCII that `\d` and `int` know (`decimal`), and the digest of
-- `host_ifname`, the encoding of the owner in it, which raises on a lone surrogate. What
-- `pick_subnet` gives is an argument of `generate`; the naming scheme of an image and the names in
-- QEMU_CATALOG, tables of labtris_api/runtime, and the addresses of `allocate_mac` are arguments of
-- `realize_plan` and `parse_unl`.
--
-- Loops over a list, a buffer or a range are structural recursion; the digits of a number
-- recurse on the quotient, which is smaller (Naming/Digits.antt). The searches of Lifecycle.antt have fuel;
-- Lifecycle/Slot.antt shows how much ends them. Header fields are natural numbers with the
-- ranges of the struct formats, 2 ^ 8, 2 ^ 16 and 2 ^ 32, beyond which packing raises; times are
-- natural numbers in one unit.
--
-- Not modelled: the other routes, the database, the runtimes and the starting of nodes in
-- labtris_api; the rows that a lab has before `generate`, which starts from an empty one, with the
-- unique constraint on (lab_id, name) against them; the text that `str` gives of a number or a
-- container in `host.tune` and `host.tuning_read`, which is kept as the value; the kernel operations
-- (labtris_netd/net.py); the command line, the client and the MCP server; the texts of error
-- messages.
pub mod Prelude
pub mod UeStack
pub mod Ip
pub mod Netd
pub mod Migrate
pub mod Naming
pub mod Client
pub mod Import
pub mod Nat
pub mod Lifecycle
pub mod Topology
