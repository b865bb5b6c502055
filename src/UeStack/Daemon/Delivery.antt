-- ===== src/UeStack/Daemon/Delivery.antt =====
-- From a send on one host to the dispatch on another, and back.
use labtris.Prelude.{
  ap, inr, sym, inl, subst, ℕ, ◌<◌, Bytes, [], ◌∷◌, true, none, some, ◌≡◌, ◌≢◌, arith, ◌==◌,
  if◌then◌else◌,
}
use labtris.Prelude.Dict.{Dict, get, replace}
use labtris.Prelude.Dict.Laws.{get-remove}
use labtris.Prelude.Result.{ok, Result-cases}
use labtris.UeStack.Packet.{tpdc, OpCode, ack, UePacket, pack, unpack}
use labtris.UeStack.Packet.RoundTrip.{masked, unpack-pack}
use labtris.UeStack.Pdc.{Wire, Tpdc, next_packet, send_tpdc, on_ack}
use labtris.UeStack.Pdc.Invariant.{IsSound}
use labtris.UeStack.Daemon.{Addr, Daemon, is_ack, feed_ack, dispatch, datagram_received}

get-replace :
    (k j : ℕ) (t u : Tpdc) (d : Dict Tpdc)
    → get k d ≡ some t
    → get j (replace k u d) ≡ (if k == j then some u else get j d)
unfolding get replace
get-replace k j t u [] h = cc
get-replace k j t u ((i, w) ∷ d) h = ground (arith, get-replace k j t u d)

-- the whole effect of such a datagram
datagram_received-replace :
    (p : UePacket) (b : Bytes) (addr : Addr) (d : Daemon) (t : Tpdc)
    → pack p ≡ ok b
    → is_ack p ≡ true
    → get p.pds.dst_pdc_id d.tpdcs ≡ some t
    → (record d { tpdcs = replace p.pds.dst_pdc_id (on_ack p.pds.psn t).1 d.tpdcs }, [])
      ≡ datagram_received b addr d
unfolding datagram_received dispatch feed_ack
datagram_received-replace p b addr d t h a reg = ground (arith, unpack-pack p h)

-- A datagram that holds an ACK of a registered context, which is sound, takes that PSN, and no other,
-- off the table of that context, and changes no other context; nothing reaches the receive handler.
pub datagram_received-ack :
    (p : UePacket) (b : Bytes) (addr : Addr) (d : Daemon) (t : Tpdc) (max : ℕ)
    → pack p ≡ ok b
    → is_ack p ≡ true
    → get p.pds.dst_pdc_id d.tpdcs ≡ some t
    → IsSound max t
    → (u : Tpdc) × ((i : ℕ)
        → get i (datagram_received b addr d).0.tpdcs
          ≡ (if p.pds.dst_pdc_id == i then some u else get i d.tpdcs))
      × ((j : ℕ) → get j u.pending ≡ (if p.pds.psn == j then none else get j t.pending))
      × ((datagram_received b addr d).1 ≡ [])
unfolding on_ack
datagram_received-ack p b addr d t max h a reg s =
    let e = datagram_received-replace p b addr d t h a reg in
    let id = p.pds.dst_pdc_id in
    let u : Tpdc = (on_ack p.pds.psn t).1 in
    (
      u,
      (λ i.
          subst (λ r. get i r.0.tpdcs ≡ (if id == i then some u else get i d.tpdcs)) e
            (get-replace id i t u d.tpdcs reg)),
      (λ j. get-remove p.pds.psn j t.pending s.distinct),
      sym (ap (λ r. r.1) e),
    )

-- A datagram that does not unpack changes nothing and reaches nobody.
pub datagram_received-junk :
    (b : Bytes) (addr : Addr) (d : Daemon)
    → ((p : UePacket) → unpack b ≢ ok p)
    → datagram_received b addr d ≡ (d, [])
unfolding datagram_received
datagram_received-junk b addr d h = elim (Result-cases (unpack b)) [
  | inl (p, e) ↦ absurd (h p e)
  | inr (x, e) ↦ rw (e, datagram_received)
]

-- A packet that a reliable context has sent reaches the handler of a listening peer once, as it was
-- sent, if it is no ACK and its priority is a byte; and the peer's contexts are as before.
pub datagram_received-send_tpdc :
    (w : Wire) (now : ℕ) (op : OpCode) (payload : Bytes) (priority : ℕ) (t : Tpdc) (p : UePacket)
    (addr : Addr) (d : Daemon)
    → priority < 256
    → op ≢ ack
    → d.on_receive ≡ true
    → (send_tpdc w now op payload priority t).0 ≡ ok p
    → (b : Bytes) × ((send_tpdc w now op payload priority t).2 ≡ b ∷ [])
      × (datagram_received b addr d ≡ (d, (addr, p) ∷ []))
unfolding send_tpdc datagram_received dispatch next_packet masked
datagram_received-send_tpdc w now op payload priority t p addr d fits o l h =
    let pkt : UePacket = (next_packet tpdc op payload priority t.base).0 in
    elim (Result-cases (pack pkt)) [
      | inl (b, e) ↦ elim (Result-cases (w.outcome b)) [
        | inl (_, q) ↦ (b, ground (arith, e, q), ground (arith, e, q, unpack-pack pkt e))
        | inr (x, q) ↦ absurd (ground (arith, e, q))
      ]
      | inr (x, e) ↦ absurd (ground (arith, e))
    ]
