-- ===== src/UeStack/Tests.antt =====
-- Runs of the packet format, the contexts and the daemon at concrete inputs.
use mathlib.Core.Logic.{◌↔◌}
use labtris.UeStack.Daemon.{Addr, Daemon, new_daemon, register_tpdc, start, datagram_received}
use labtris.UeStack.Daemon.Delivery.{datagram_received-ack, datagram_received-send_tpdc}
use labtris.Prelude.{
  none, ◌==◌, if◌then◌else◌, ℕ, codes, some, ◌≡◌, refl, Bytes, length, [], ◌∷◌, true, arith,
}
use labtris.Prelude.Result.{ok, succeeds}
use labtris.UeStack.Packet.{
  unpack_pdc, unpack_pds, unpack_ses, pack_pdc, pack_pds, pack_ses, ack, UePacket, tpdc, write,
  pack, unpack,
}
use labtris.UeStack.Packet.RoundTrip.{masked, unpack-pack, pack-unpack}
use labtris.UeStack.Packet.Outcome.{Fits, pack_iff-Fits}
use labtris.UeStack.Pdc.{
  resend, sweep_entry, sweep_items, Wire, Tpdc, new_tpdc, send_tpdc, rto_sweep,
}
use labtris.UeStack.Pdc.Invariant.{
  IsSound, Reach, here, next, send_packet, sweep, Reach-IsSound, send_tpdc-IsSound,
}
use labtris.UeStack.Pdc.Retransmit.{IsQuiet, remaining, exhausted, resent, rto_sweep-quiet}
use labtris.UeStack.Pdc.GiveUp.{sweeps, sweeps_empty}
use labtris.Prelude.Dict.{get, put}

abbrev sample : UePacket
sample = record {
  ses = record { op = write; flags = 3; msn = 1; txn_id = 1; dst_endpoint = 2; reserved = 0 };
  pds = record { pdc_type = tpdc; psn = 1; dst_pdc_id = 7; reserved = 0; reserved8 = 0 };
  pdc = record { credits = 0; priority = 300; reserved = 0 };
  payload = 104 ∷ 105 ∷ [];
}

abbrev sample_bytes : Bytes
sample_bytes =
    1 ∷ 3 ∷ 0 ∷ 0 ∷ 0 ∷ 1 ∷ 0 ∷ 0 ∷ 0 ∷ 1 ∷ 0 ∷ 0 ∷ 0 ∷ 2 ∷ 0 ∷ 0 ∷ 2 ∷ 0 ∷ 0 ∷ 0 ∷ 0 ∷ 1 ∷ 0 ∷ 0
    ∷ 0 ∷ 7 ∷ 0 ∷ 0 ∷ 0 ∷ 44 ∷ 0 ∷ 0 ∷ 104 ∷ 105 ∷ []

pack-sample : pack sample ≡ ok sample_bytes
unfolding pack pack_ses pack_pds pack_pdc
pack-sample = refl

unpack-pack_example : unpack sample_bytes ≡ ok (record sample { pdc = masked sample.pdc })
unpack-pack_example = unpack-pack sample pack-sample

unpack-sample :
    unpack sample_bytes
    ≡ ok (record sample { pdc = record { credits = 0; priority = 44; reserved = 0 } })
unfolding unpack unpack_ses unpack_pds unpack_pdc
unpack-sample = refl

pack-unpack_example :
    pack (record sample { pdc = record { credits = 0; priority = 44; reserved = 0 } })
    ≡ ok sample_bytes
pack-unpack_example = pack-unpack sample_bytes (omega arith) unpack-sample

pack_iff-Fits_example : (succeeds (pack sample) ≡ true) ↔ Fits sample
pack_iff-Fits_example = pack_iff-Fits sample

abbrev quiet : Wire
quiet = record { outcome = λ _. ok tt; acks = λ _. [] }

quiet-IsQuiet : IsQuiet quiet
quiet-IsQuiet = record { sends = λ _. refl; no_acks = λ _. refl }

abbrev fresh : Tpdc
fresh = new_tpdc 7 1 2 500

abbrev sent_once : Tpdc
sent_once = (send_tpdc quiet 1000 write (104 ∷ 105 ∷ []) 3 fresh).1

sent_once-IsSound : IsSound 3 sent_once
unfolding new_tpdc
sent_once-IsSound =
    send_tpdc-IsSound quiet 1000 write (104 ∷ 105 ∷ []) 3 3 fresh
      (record { distinct = tt; entries = tt })

sent_twice : Reach 3 fresh (rto_sweep quiet 1500 3 sent_once).1
sent_twice =
    next (next here (send_packet quiet 1000 write (104 ∷ 105 ∷ []) 3 fresh))
      (sweep quiet 1500 sent_once)

Reach-IsSound_example : IsSound 3 (rto_sweep quiet 1500 3 sent_once).1
Reach-IsSound_example = Reach-IsSound 3 7 1 2 500 sent_twice

rto_sweep-quiet_example : rto_sweep quiet 1500 3 sent_once ≡ (
  ok (exhausted 1500 sent_once.rto 3 sent_once.pending),
  record sent_once { pending = remaining 1500 sent_once.rto 3 sent_once.pending },
  resent 1500 sent_once.rto 3 sent_once.pending,
)
rto_sweep-quiet_example = rto_sweep-quiet quiet 1500 3 sent_once quiet-IsQuiet sent_once-IsSound

-- the packet leaves again after the RTO, and nothing is dropped
sent_again :
    ((rto_sweep quiet 1500 3 sent_once).0 ≡ ok [])
    × (length (rto_sweep quiet 1500 3 sent_once).2 ≡ 1)
unfolding rto_sweep send_tpdc new_tpdc sweep_items pack pack_ses pack_pds pack_pdc put sweep_entry
    resend
sent_again = (refl, refl)

sweeps_empty_example : (sweeps quiet 3 (1500 ∷ 2000 ∷ 2500 ∷ 3000 ∷ []) sent_once).pending ≡ []
unfolding send_tpdc new_tpdc pack pack_ses pack_pds pack_pdc put
sweeps_empty_example =
    sweeps_empty quiet 3 1000 (1500 ∷ 2000 ∷ 2500 ∷ 3000 ∷ []) sent_once quiet-IsQuiet
      sent_once-IsSound (omega arith) (omega arith) (omega arith)

abbrev here_addr : Addr
here_addr = (codes "10.0.0.1", 4791)

-- the sender's daemon, with its context registered, and a listening peer
abbrev sender : Daemon
sender = register_tpdc sent_once (start (ok tt) (new_daemon (codes "0.0.0.0") 4791)).1

abbrev peer : Daemon
peer = (start (ok tt) (new_daemon (codes "0.0.0.0") 4791)).1

abbrev ack_packet : UePacket
ack_packet = record sample { ses = record sample.ses { op = ack }; payload = [] }

abbrev ack_bytes : Bytes
ack_bytes =
    16 ∷ 3 ∷ 0 ∷ 0 ∷ 0 ∷ 1 ∷ 0 ∷ 0 ∷ 0 ∷ 1 ∷ 0 ∷ 0 ∷ 0 ∷ 2 ∷ 0 ∷ 0 ∷ 2 ∷ 0 ∷ 0 ∷ 0 ∷ 0 ∷ 1 ∷ 0 ∷ 0
    ∷ 0 ∷ 7 ∷ 0 ∷ 0 ∷ 0 ∷ 44 ∷ 0 ∷ 0 ∷ []

ack_packs : pack ack_packet ≡ ok ack_bytes
unfolding pack pack_ses pack_pds pack_pdc
ack_packs = refl

sender_has : get 7 sender.tpdcs ≡ some sent_once
unfolding register_tpdc get put start new_daemon send_tpdc pack pack_ses new_tpdc pack_pds pack_pdc
sender_has = refl

datagram_received-ack_example :
    (u : Tpdc) × ((i : ℕ)
      → get i (datagram_received ack_bytes here_addr sender).0.tpdcs
        ≡ (if 7 == i then some u else get i sender.tpdcs))
    × ((j : ℕ) → get j u.pending ≡ (if 1 == j then none else get j sent_once.pending))
    × ((datagram_received ack_bytes here_addr sender).1 ≡ [])
datagram_received-ack_example =
    datagram_received-ack ack_packet ack_bytes here_addr sender sent_once 3 ack_packs refl
      sender_has sent_once-IsSound

abbrev sent_packet : UePacket
sent_packet = record sample { pdc = record { credits = 0; priority = 3; reserved = 0 } }

sent_ok : (send_tpdc quiet 1000 write (104 ∷ 105 ∷ []) 3 fresh).0 ≡ ok sent_packet
unfolding send_tpdc new_tpdc pack pack_ses pack_pds pack_pdc
sent_ok = refl

peer_listens : peer.on_receive ≡ true
unfolding start
peer_listens = refl

datagram_received-send_tpdc_example :
    (b : Bytes) × ((send_tpdc quiet 1000 write (104 ∷ 105 ∷ []) 3 fresh).2 ≡ b ∷ [])
    × (datagram_received b here_addr peer ≡ (peer, (here_addr, sent_packet) ∷ []))
datagram_received-send_tpdc_example =
    datagram_received-send_tpdc quiet 1000 write (104 ∷ 105 ∷ []) 3 fresh sent_packet here_addr peer
      (omega arith) (cc) peer_listens sent_ok

-- PSN 2 is acknowledged while PSN 1 is sent again
abbrev noisy : Wire
noisy = record { outcome = λ _. ok tt; acks = λ _. 2 ∷ [] }

abbrev two_pending : Tpdc
two_pending = record fresh {
  pending =
      (1, record { packet = sample; sent_at = 0; retries = 0 })
      ∷ (2, record { packet = sample; sent_at = 0; retries = 3 })
      ∷ [];
}

two_pending_rto : two_pending.rto ≡ 500
unfolding new_tpdc
two_pending_rto = refl
