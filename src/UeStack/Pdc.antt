-- ===== src/UeStack/Pdc.antt =====
pub mod GiveUp
pub mod Invariant
pub mod Retransmit
-- ue_stack/pdc.py: the delivery contexts. An `async` method is a function from the state, and from
-- what happens at its awaits, to the result, the new state and the datagrams handed to `sock_send`
-- in order. Times are in one unit, the clock's and `rto_seconds`'.
use labtris.Prelude.{
  ℕ, ◌+◌, Bytes, List, [], ◌∷◌, ◌++◌, Bool, true, false, Option, none, some, ltb, leb,
  if◌then◌else◌,
}
use labtris.Prelude.Dict.{Dict, get, put, remove, replace}
use labtris.Prelude.Result.{Result, ok, err, key_error}
use labtris.UeStack.Packet.{PdcType, ipdc, tpdc, OpCode, UePacket, pack}

-- What an `await sock_send(data)` does: whether it raises, and the ACKs that the daemon hands to
-- this context before it returns.
pub record Wire : Type 0 where
  pub outcome : Bytes → Result (Unit {0})
  pub acks : Bytes → List ℕ

pub record PdcBase : Type 0 where
  pub pdc_id : ℕ
  pub local_endpoint : ℕ
  pub dst_endpoint : ℕ
  -- what the three counters give next
  pub next_txn : ℕ
  pub next_psn : ℕ
  pub next_msn : ℕ

-- `PdcBase(pdc_id, local_endpoint, dst_endpoint)`
unfoldable pub new_base : ℕ → ℕ → ℕ → PdcBase
new_base id local dst = record {
  pdc_id = id;
  local_endpoint = local;
  dst_endpoint = dst;
  next_txn = 1;
  next_psn = 1;
  next_msn = 1;
}

-- the packet that both `send` methods build, and the counters behind it
unfoldable pub next_packet : PdcType → OpCode → Bytes → ℕ → PdcBase → UePacket × PdcBase
next_packet type op payload priority b = (
  record {
    ses = record {
      op = op;
      flags = 0b11;
      msn = b.next_msn;
      txn_id = b.next_txn;
      dst_endpoint = b.dst_endpoint;
      reserved = 0;
    };
    pds = record {
      pdc_type = type;
      psn = b.next_psn;
      dst_pdc_id = b.pdc_id;
      reserved = 0;
      reserved8 = 0;
    };
    pdc = record { credits = 0; priority = priority; reserved = 0 };
    payload = payload;
  },
  record b { next_txn = b.next_txn + 1; next_psn = b.next_psn + 1; next_msn = b.next_msn + 1 },
)

-- `Ipdc.send`: nothing is kept beside the counters
unfoldable pub send_ipdc :
    Wire → OpCode → Bytes → ℕ → PdcBase → Result UePacket × PdcBase × List Bytes
unfolding next_packet
send_ipdc w op payload priority b =
    let (pkt, b') = next_packet ipdc op payload priority b in
    elim (pack pkt) [
      | err e ↦ (err e, b', [])
      | ok bytes ↦ elim (w.outcome bytes) [
        | err e ↦ (err e, b', bytes ∷ [])
        | ok _ ↦ (ok pkt, b', bytes ∷ [])
      ]
    ]

pub record PendingAck : Type 0 where
  pub packet : UePacket
  pub sent_at : ℕ
  pub retries : ℕ

pub record Tpdc : Type 0 where
  pub base : PdcBase
  pub rto : ℕ
  pub pending : Dict PendingAck

unfoldable pub new_tpdc : ℕ → ℕ → ℕ → ℕ → Tpdc
unfolding new_base
new_tpdc id local dst rto = record { base = new_base id local dst; rto = rto; pending = [] }

abbrev pub found {ℓ} : {V : Type ℓ} → Option V → Bool
found none = false
found (some v) = true

-- `self._pending.pop(psn, None) is not None`
unfoldable pub on_ack : ℕ → Tpdc → Bool × Tpdc
on_ack psn t = (found (get psn t.pending), record t { pending = remove psn t.pending })

-- the ACKs of one await
unfoldable pub absorb : List ℕ → Dict PendingAck → Dict PendingAck
absorb [] d = d
absorb (psn ∷ psns) d = absorb psns (remove psn d)

-- `Tpdc.send`: the packet is registered after the await
unfoldable pub send_tpdc :
    Wire → ℕ → OpCode → Bytes → ℕ → Tpdc → Result UePacket × Tpdc × List Bytes
unfolding next_packet absorb
send_tpdc w now op payload priority t =
    let (pkt, base) = next_packet tpdc op payload priority t.base in
    elim (pack pkt) [
      | err e ↦ (err e, record t { base = base }, [])
      | ok bytes ↦
          let later : Dict PendingAck = absorb (w.acks bytes) t.pending in
          elim (w.outcome bytes) [
            | err e ↦ (err e, record t { base = base; pending = later }, bytes ∷ [])
            | ok _ ↦ (
              ok pkt,
              record t {
                base = base;
                pending =
                    put pkt.pds.psn (record { packet = pkt; sent_at = now; retries = 0 }) later;
              },
              bytes ∷ [],
            )
          ]
    ]

-- what one round of `rto_sweep` changes
pub record Sweep : Type 0 where
  pub pending : Dict PendingAck
  pub dropped : List ℕ
  pub sent : List Bytes

-- The retransmission: the entry is an object that the dict shares, and is written before the send.
unfoldable pub resend : Wire → ℕ → ℕ → PendingAck → Sweep → Result (Unit {0}) × Sweep
unfolding absorb
resend w now psn e s =
    let marked : Dict PendingAck =
      replace psn (record e { retries = e.retries + 1; sent_at = now }) s.pending in
    elim (pack e.packet) [
      | err x ↦ (err x, record s { pending = marked })
      | ok bytes ↦ (
        w.outcome bytes,
        record s { pending = absorb (w.acks bytes) marked; sent = s.sent ++ bytes ∷ [] },
      )
    ]

-- `self._pending.pop(psn)`, and `dropped.append(psn)`
unfoldable pub give_up : ℕ → Sweep → Result (Unit {0}) × Sweep
give_up psn s = elim (get psn s.pending) [
  | none ↦ (err key_error, s)
  | some _ ↦ (ok tt, record s { pending = remove psn s.pending; dropped = s.dropped ++ psn ∷ [] })
]

module _ (w : Wire) (now rto max_retries : ℕ) where
  -- one round of the loop
  unfoldable pub sweep_entry : ℕ → PendingAck → Sweep → Result (Unit {0}) × Sweep
  sweep_entry psn e s =
      if ltb now (e.sent_at + rto)
      then (ok tt, s)
      else if leb max_retries e.retries
      then give_up psn s
      else resend w now psn e s

  abbrev pub next_round :
      Result (Unit {0}) × Sweep → (Sweep → Result (Unit {0}) × Sweep) → Result (Unit {0}) × Sweep
  next_round (ok _, s) k = k s
  next_round (err e, s) k = (err e, s)

  -- the loop runs over a copy of the dict's items
  unfoldable pub sweep_items : Dict PendingAck → Sweep → Result (Unit {0}) × Sweep
  sweep_items [] s = (ok tt, s)
  sweep_items ((psn, e) ∷ items) s = next_round (sweep_entry psn e s) (λ s'. sweep_items items s')

abbrev pub start_sweep : Tpdc → Sweep
start_sweep t = record { pending = t.pending; dropped = []; sent = [] }

abbrev pub sweep_result : Tpdc → Result (Unit {0}) × Sweep → Result (List ℕ) × Tpdc × List Bytes
sweep_result t (ok _, s) = (ok s.dropped, record t { pending = s.pending }, s.sent)
sweep_result t (err e, s) = (err e, record t { pending = s.pending }, s.sent)

unfoldable pub rto_sweep : Wire → ℕ → ℕ → Tpdc → Result (List ℕ) × Tpdc × List Bytes
rto_sweep w now max_retries t =
    sweep_result t (sweep_items w now t.rto max_retries t.pending (start_sweep t))
