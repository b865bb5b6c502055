-- ===== src/UeStack/Daemon.antt =====
-- ue_stack/daemon.py: the table of reliable contexts and the dispatch of datagrams. A context is an
-- object that the table shares with its owner: what `dispatch` does to it stands in the table.
-- The calls of the receive handler are listed in order; the daemon catches what it raises.
pub mod Delivery
use labtris.Prelude.{
  ℕ, Bytes, Text, List, [], ◌∷◌, Bool, true, false, Option, none, some, ◌&&◌, if◌then◌else◌,
}
use labtris.Prelude.Dict.{Dict, get, put, replace}
use labtris.Prelude.Result.{Result, ok, err, runtime_error}
use labtris.UeStack.Packet.{PdcType, ipdc, tpdc, OpCode, ack, UePacket, unpack}
use labtris.UeStack.Pdc.{Tpdc, on_ack}

-- (host, port)
abbrev pub Addr : Type 0
Addr = Text × ℕ

pub record Daemon : Type 0 where
  pub bind : Text
  pub port : ℕ
  -- whether there is a transport, and a receive handler
  pub transport : Bool
  pub on_receive : Bool
  pub tpdcs : Dict Tpdc

unfoldable pub new_daemon : Text → ℕ → Daemon
new_daemon bind port = record {
  bind = bind;
  port = port;
  transport = false;
  on_receive = false;
  tpdcs = [];
}

-- `start`: the handler is set before the endpoint is made, which may raise
unfoldable pub start : Result (Unit {0}) → Daemon → Result (Unit {0}) × Daemon
start (ok _) d = (ok tt, record d { transport = true; on_receive = true })
start (err e) d = (err e, record d { on_receive = true })

unfoldable pub register_tpdc : Tpdc → Daemon → Daemon
register_tpdc t d = record d { tpdcs = put t.base.pdc_id t d.tpdcs }

-- the address to which the returned callable sends
unfoldable pub sock_send_to : Addr → Daemon → Result Addr
sock_send_to addr d = if d.transport then ok addr else err runtime_error

abbrev is_ack_op : OpCode → Bool
is_ack_op ack = true
is_ack_op _ = false

abbrev is_tpdc : PdcType → Bool
is_tpdc tpdc = true
is_tpdc ipdc = false

abbrev pub is_ack : UePacket → Bool
is_ack p = is_ack_op p.ses.op && is_tpdc p.pds.pdc_type

-- what an ACK does to the context that it names, if there is one
unfoldable pub feed_ack : UePacket → Option Tpdc → Dict Tpdc → Dict Tpdc
feed_ack p none d = d
feed_ack p (some t) d = replace p.pds.dst_pdc_id (on_ack p.pds.psn t).1 d

unfoldable pub dispatch : Addr → UePacket → Daemon → Daemon × List (Addr × UePacket)
unfolding feed_ack
dispatch addr p d =
    if is_ack p
    then (record d { tpdcs = feed_ack p (get p.pds.dst_pdc_id d.tpdcs) d.tpdcs }, [])
    else (d, if d.on_receive then (addr, p) ∷ [] else [])

unfoldable pub close : Daemon → Daemon
close d = record d { transport = false }

-- `_DatagramProtocol.datagram_received`: what does not unpack is dropped
unfoldable pub datagram_received : Bytes → Addr → Daemon → Daemon × List (Addr × UePacket)
datagram_received bytes addr d = elim (unpack bytes) [ ok p ↦ dispatch addr p d | err e ↦ (d, []) ]
