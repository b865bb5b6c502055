-- ===== src/UeStack/Pdc/Retransmit.antt =====
-- `rto_sweep` over a wire that neither fails nor interrupts, against a description by entries.
use mathlib.Core.List.{append_assoc, append-nil}
use labtris.Prelude.{
  ℕ, ◌+◌, Bytes, List, [], ◌∷◌, ◌++◌, ◌≡◌, ◌≢◌, true, arith, ltb, leb, if◌then◌else◌, sym, ◌∙◌,
}
use labtris.Prelude.Dict.{Dict, Every, Lacks, Distinct}
use labtris.Prelude.Dict.Laws.{get-middle, remove-middle, replace-middle}
use labtris.Prelude.Result.{Result, ok, err, succeeds, ok_value}
use labtris.UeStack.Packet.{pack}
use labtris.UeStack.Pdc.{
  Wire, PendingAck, Tpdc, absorb, resend, give_up, sweep_entry, sweep_items, rto_sweep,
}
use labtris.UeStack.Pdc.Invariant.{IsEntry, IsSound}

-- every send returns, and no ACK comes while it waits
pub record IsQuiet (w : Wire) : Type 0 where
  pub sends : (b : Bytes) → w.outcome b ≡ ok tt
  pub no_acks : (b : Bytes) → w.acks b ≡ []

abbrev bytes_of : Result Bytes → List Bytes
bytes_of (ok b) = b ∷ []
bytes_of (err e) = []

-- keys of `items` are no keys of `done`
abbrev Apart : Dict PendingAck → Dict PendingAck → Type 0
Apart done items = Every (λ k _. Lacks k done) items

Apart-nil : (d : Dict PendingAck) → Apart [] d
Apart-nil [] = tt
Apart-nil ((k, e) ∷ d) = (tt, Apart-nil d)

module _ (now rto max : ℕ) where
  -- what a sweep keeps of an entry: a young one as it is, an exhausted one not at all, another one
  -- with its retry counted and its clock reset
  kept : ℕ → PendingAck → Dict PendingAck
  kept k e =
      if ltb now (e.sent_at + rto)
      then (k, e) ∷ []
      else if leb max e.retries
      then []
      else (k, record e { retries = e.retries + 1; sent_at = now }) ∷ []

  gone : ℕ → PendingAck → List ℕ
  gone k e = if ltb now (e.sent_at + rto) then [] else if leb max e.retries then k ∷ [] else []

  out : PendingAck → List Bytes
  out e =
      if ltb now (e.sent_at + rto)
      then []
      else if leb max e.retries
      then []
      else bytes_of (pack e.packet)

  unfoldable pub remaining : Dict PendingAck → Dict PendingAck
  unfolding kept
  remaining [] = []
  remaining ((k, e) ∷ d) = kept k e ++ remaining d

  unfoldable pub exhausted : Dict PendingAck → List ℕ
  unfolding gone
  exhausted [] = []
  exhausted ((k, e) ∷ d) = gone k e ++ exhausted d

  unfoldable pub resent : Dict PendingAck → List Bytes
  unfolding out
  resent [] = []
  resent ((k, e) ∷ d) = out e ++ resent d

  sweep_entry-quiet :
      (w : Wire) (k : ℕ) (e : PendingAck) (done items : Dict PendingAck) (dr : List ℕ)
      (se : List Bytes)
      → IsQuiet w
      → succeeds (pack e.packet) ≡ true
      → Lacks k done
      → sweep_entry w now rto max k e
          (record { pending = done ++ (k, e) ∷ items; dropped = dr; sent = se })
        ≡ (
          ok tt,
          record {
            pending = (done ++ kept k e) ++ items;
            dropped = dr ++ gone k e;
            sent = se ++ out e;
          },
        )
  unfolding sweep_entry kept gone out give_up resend absorb
  sweep_entry-quiet w k e done items dr se q p l =
      let (b, pb) = ok_value (pack e.packet) p in
      ground (
        arith,
        pb,
        q.sends b,
        q.no_acks b,
        get-middle k e done items l,
        remove-middle k e done items l,
        replace-middle k e (record e { retries = e.retries + 1; sent_at = now }) done items l,
        append_assoc done (kept k e) items,
        append-nil dr,
        append-nil se,
        append-nil done,
      )

  Lacks-kept :
      (j k : ℕ) (e : PendingAck) (done : Dict PendingAck)
      → k ≢ j
      → Lacks j done
      → Lacks j (done ++ kept k e)
  unfolding kept
  Lacks-kept j k e [] n h = ground arith
  Lacks-kept j k e ((i, x) ∷ done) n (m, h) = (m, Lacks-kept j k e done n h)

  Apart-kept :
      (k : ℕ) (e : PendingAck) (done items : Dict PendingAck)
      → Lacks k items
      → Apart done items
      → Apart (done ++ kept k e) items
  Apart-kept k e done [] l a = tt
  Apart-kept k e done ((j, x) ∷ items) (n, l) (b, a) =
      (Lacks-kept j k e done (λ p. n (sym p)) b, Apart-kept k e done items l a)

  sweep_items-quiet :
      (w : Wire) (id next : ℕ) (done items : Dict PendingAck) (dr : List ℕ) (se : List Bytes)
      → IsQuiet w
      → Every (IsEntry id max next) items
      → Distinct items
      → Apart done items
      → sweep_items w now rto max items
          (record { pending = done ++ items; dropped = dr; sent = se })
        ≡ (
          ok tt,
          record {
            pending = done ++ remaining items;
            dropped = dr ++ exhausted items;
            sent = se ++ resent items;
          },
        )
  unfolding sweep_items remaining exhausted resent
  sweep_items-quiet w id next done [] dr se q es ds a = simp append-nil
  sweep_items-quiet w id next done ((k, e) ∷ items) dr se q (p, es) (l, ds) (a, as') =
      rw (sweep_entry-quiet w k e done items dr se q p.packs a) (
        sweep_items-quiet w id next (done ++ kept k e) items (dr ++ gone k e) (se ++ out e) q es ds
          (Apart-kept k e done items l as')
        ∙ simp append_assoc)

-- A sweep of a sound context over a quiet wire drops exactly the exhausted packets and reports them,
-- sends exactly the other overdue ones again, counts those retries, and leaves the young ones alone.
pub rto_sweep-quiet :
    (w : Wire) (now max : ℕ) (t : Tpdc)
    → IsQuiet w
    → IsSound max t
    → rto_sweep w now max t ≡ (
      ok (exhausted now t.rto max t.pending),
      record t { pending = remaining now t.rto max t.pending },
      resent now t.rto max t.pending,
    )
unfolding rto_sweep
rto_sweep-quiet w now max t q h = rw (
    sweep_items-quiet now t.rto max w t.base.pdc_id t.base.next_psn [] t.pending [] [] q h.entries
      h.distinct (Apart-nil t.pending))
