-- ===== src/UeStack/Pdc/Invariant.antt =====
-- What every reachable reliable context satisfies, whatever the socket and the peer do.
use labtris.Prelude.{
  ℕ, ◌+◌, ◌<◌, ◌≤◌, Bytes, List, [], ◌∷◌, ◌≡◌, refl, true, arith, ltb, leb, inl, inr, Bool-cases,
  Option-cases,
}
use labtris.Prelude.Dict.{Dict, get, put, remove, replace, Every, Distinct}
use labtris.Prelude.Dict.Laws.{
  Distinct-remove, Distinct-replace, Distinct-put, Every-remove, Every-replace, Every-put,
}
use labtris.Prelude.Result.{Result, ok, err, succeeds, Result-cases}
use labtris.UeStack.Packet.{tpdc, OpCode, pack}
use labtris.UeStack.Pdc.{
  Wire, PendingAck, Tpdc, Sweep, next_packet, on_ack, absorb, send_tpdc, resend, give_up,
  sweep_entry, sweep_items, rto_sweep, start_sweep, sweep_result, next_round, new_tpdc,
}

-- An entry has been sent again at most `max` times, is filed under its packet's PSN, which has been given out, and its packet packs.
pub record IsEntry (id max next : ℕ) (psn : ℕ) (e : PendingAck) : Type 0 where
  pub given : psn < next
  pub filed : e.packet.pds.psn ≡ psn
  pub kind : e.packet.pds.pdc_type ≡ tpdc
  pub own : e.packet.pds.dst_pdc_id ≡ id
  pub few : e.retries ≤ max
  pub packs : succeeds (pack e.packet) ≡ true

-- the table of a context with this id, which gives out this PSN next
pub record IsTable (id max next : ℕ) (d : Dict PendingAck) : Type 0 where
  pub distinct : Distinct d
  pub entries : Every (IsEntry id max next) d

abbrev pub IsSound : ℕ → Tpdc → Type 0
IsSound max t = IsTable t.base.pdc_id max t.base.next_psn t.pending

module _ (id max next : ℕ) where
  remove-IsTable :
      (k : ℕ) (d : Dict PendingAck) → IsTable id max next d → IsTable id max next (remove k d)
  remove-IsTable k d h = record {
    distinct = Distinct-remove k d h.distinct;
    entries = Every-remove (IsEntry id max next) k d h.entries;
  }

  absorb-IsTable :
      (ks : List ℕ) (d : Dict PendingAck)
      → IsTable id max next d
      → IsTable id max next (absorb ks d)
  unfolding absorb
  absorb-IsTable [] d h = h
  absorb-IsTable (k ∷ ks) d h = absorb-IsTable ks (remove k d) (remove-IsTable k d h)

  -- an entry sent once more is an entry
  replace-IsTable :
      (k : ℕ) (e : PendingAck) (d : Dict PendingAck)
      → IsEntry id max next k e
      → IsTable id max next d
      → IsTable id max next (replace k e d)
  replace-IsTable k e d p h = record {
    distinct = Distinct-replace k e d h.distinct;
    entries = Every-replace (IsEntry id max next) k e d p h.entries;
  }

  put-IsTable :
      (k : ℕ) (e : PendingAck) (d : Dict PendingAck)
      → IsEntry id max next k e
      → IsTable id max next d
      → IsTable id max next (put k e d)
  put-IsTable k e d p h = record {
    distinct = Distinct-put k e d h.distinct;
    entries = Every-put (IsEntry id max next) k e d p h.entries;
  }

  module _ (w : Wire) (now : ℕ) where
    resend-IsTable :
        (k : ℕ) (e : PendingAck) (s : Sweep)
        → e.retries < max
        → IsEntry id max next k e
        → IsTable id max next s.pending
        → IsTable id max next (resend w now k e s).1.pending
    unfolding resend
    resend-IsTable k e s lt p h =
        let marked : PendingAck = record e { retries = e.retries + 1; sent_at = now } in
        let h' =
          replace-IsTable k marked s.pending
            (record {
              given = p.given;
              filed = p.filed;
              kind = p.kind;
              own = p.own;
              few = omega arith;
              packs = p.packs;
            })
            h in
        elim (Result-cases (pack e.packet)) [
          | inl (b, q) ↦ rw (q, resend) (absorb-IsTable (w.acks b) (replace k marked s.pending) h')
          | inr (x, q) ↦ rw (q, resend) h'
        ]

    give_up-IsTable :
        (k : ℕ) (s : Sweep)
        → IsTable id max next s.pending
        → IsTable id max next (give_up k s).1.pending
    unfolding give_up
    give_up-IsTable k s h = elim (Option-cases (get k s.pending)) [
      | inl (v, q) ↦ rw (q, give_up) (remove-IsTable k s.pending h)
      | inr q ↦ rw (q, give_up) h
    ]

    sweep_entry-IsTable :
        (rto k : ℕ) (e : PendingAck) (s : Sweep)
        → IsEntry id max next k e
        → IsTable id max next s.pending
        → IsTable id max next (sweep_entry w now rto max k e s).1.pending
    unfolding sweep_entry
    sweep_entry-IsTable rto k e s p h = elim (Bool-cases (ltb now (e.sent_at + rto))) [
      | inl q ↦ rw q h
      | inr q ↦ rw q (elim (Bool-cases (leb max e.retries)) [
        | inl m ↦ rw m (give_up-IsTable k s h)
        | inr m ↦ rw m (resend-IsTable k e s (ground arith) p h)
      ])
    ]

    sweep_items-IsTable :
        (rto : ℕ) (items : Dict PendingAck) (s : Sweep)
        → Every (IsEntry id max next) items
        → IsTable id max next s.pending
        → IsTable id max next (sweep_items w now rto max items s).1.pending
    unfolding sweep_items
    sweep_items-IsTable rto [] s ps h = h
    sweep_items-IsTable rto ((k, e) ∷ items) s (p, ps) h =
        go (sweep_entry w now rto max k e s) (sweep_entry-IsTable rto k e s p h)
          (λ s'. sweep_items-IsTable rto items s' ps)
      where
        go :
            (r : Result (Unit {0}) × Sweep)
            → IsTable id max next r.1.pending
            → ((s' : Sweep)
                → IsTable id max next s'.pending
                → IsTable id max next (sweep_items w now rto max items s').1.pending)
            → IsTable id max next
                (next_round w now rto max r (λ s'. sweep_items w now rto max items s')).1.pending
        go (ok _, s') t k = k s' t
        go (err x, s') t k = t

-- A sweep keeps every entry sound, however it ends.
pub rto_sweep-IsSound :
    (w : Wire) (now max : ℕ) (t : Tpdc) → IsSound max t → IsSound max (rto_sweep w now max t).1
unfolding rto_sweep
rto_sweep-IsSound w now max t h = go (sweep_items w now t.rto max t.pending (start_sweep t)) (
    sweep_items-IsTable t.base.pdc_id max t.base.next_psn w now t.rto t.pending (start_sweep t)
      h.entries h)
  where
    go :
        (r : Result (Unit {0}) × Sweep)
        → IsTable t.base.pdc_id max t.base.next_psn r.1.pending
        → IsSound max (sweep_result t r).1
    go (ok _, s) h = h
    go (err x, s) h = h

pub on_ack-IsSound : (psn max : ℕ) (t : Tpdc) → IsSound max t → IsSound max (on_ack psn t).1
unfolding on_ack
on_ack-IsSound psn max t h = remove-IsTable t.base.pdc_id max t.base.next_psn psn t.pending h

later-Every :
    (id max next : ℕ) (d : Dict PendingAck)
    → Every (IsEntry id max next) d
    → Every (IsEntry id max (next + 1)) d
later-Every id max next [] h = tt
later-Every id max next ((k, e) ∷ d) (p, h) = (
  record {
    given = omega arith;
    filed = p.filed;
    kind = p.kind;
    own = p.own;
    few = p.few;
    packs = p.packs;
  },
  later-Every id max next d h,
)

pub send_tpdc-IsSound :
    (w : Wire) (now : ℕ) (op : OpCode) (payload : Bytes) (priority max : ℕ) (t : Tpdc)
    → IsSound max t
    → IsSound max (send_tpdc w now op payload priority t).1
unfolding send_tpdc
send_tpdc-IsSound w now op payload priority max t h =
    let pkt = (next_packet tpdc op payload priority t.base).0 in
    let id = t.base.pdc_id in
    let next = t.base.next_psn in
    let grown : IsTable id max (next + 1) t.pending = record {
      distinct = h.distinct;
      entries = later-Every id max next t.pending h.entries;
    } in
    elim (Result-cases (pack pkt)) [
      | inl (b, q) ↦
          let later = absorb-IsTable id max (next + 1) (w.acks b) t.pending grown in
          rw (q, send_tpdc)
            (elim (Result-cases (w.outcome b)) [
              | inl (u, o) ↦
                  rw (o, send_tpdc)
                    (put-IsTable id max (next + 1) next
                      (record { packet = pkt; sent_at = now; retries = 0 })
                      (absorb (w.acks b) t.pending)
                      (record {
                        given = omega arith;
                        filed = refl;
                        kind = refl;
                        own = refl;
                        few = omega arith;
                        packs = rw q;
                      })
                      later)
              | inr (x, o) ↦ rw (o, send_tpdc) later
            ])
      | inr (x, q) ↦ rw (q, send_tpdc) grown
    ]

-- One call on a context: any packet, any ACK, any sweep, over any wire and at any time.
pub data Step (max : ℕ) : Tpdc → Tpdc → Type 0 where
  send_packet :
      (w : Wire) (now : ℕ) (op : OpCode) (payload : Bytes) (priority : ℕ) (t : Tpdc)
      → Step max t (send_tpdc w now op payload priority t).1
  receive_ack : (psn : ℕ) (t : Tpdc) → Step max t (on_ack psn t).1
  sweep : (w : Wire) (now : ℕ) (t : Tpdc) → Step max t (rto_sweep w now max t).1

pub data Reach (max : ℕ) (s : Tpdc) : Tpdc → Type 0 where
  here : Reach max s s
  next : {t u : Tpdc} → Reach max s t → Step max t u → Reach max s u

Step-IsSound : {max : ℕ} {t u : Tpdc} → Step max t u → IsSound max t → IsSound max u
Step-IsSound {max} (send_packet w now op payload priority t) h =
    send_tpdc-IsSound w now op payload priority max t h
Step-IsSound {max} (receive_ack psn t) h = on_ack-IsSound psn max t h
Step-IsSound {max} (sweep w now t) h = rto_sweep-IsSound w now max t h

Reach-keeps : {max : ℕ} {s t : Tpdc} → IsSound max s → Reach max s t → IsSound max t
Reach-keeps h here = h
Reach-keeps h (next r st) = Step-IsSound st (Reach-keeps h r)

-- In every context reached from a new one by sends, ACKs and sweeps with one retry limit, whatever
-- the wire does: PSNs are distinct and have been given out, each is its packet's own, the packets
-- are the context's and pack, and none has been sent again more often than the limit.
pub Reach-IsSound :
    (max id local dst rto : ℕ) {t : Tpdc} → Reach max (new_tpdc id local dst rto) t → IsSound max t
unfolding new_tpdc
Reach-IsSound max id local dst rto r = Reach-keeps (record { distinct = tt; entries = tt }) r
