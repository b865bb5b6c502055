-- ===== src/UeStack/Pdc/GiveUp.antt =====
-- A packet that is never acknowledged is given up in the end.
use labtris.Prelude.{ℕ, suc, ◌+◌, ◌<◌, ◌≤◌, List, [], ◌∷◌, length, ◌≡◌, refl, ap, sym, subst, arith}
use labtris.Prelude.Dict.{Dict, Every}
use labtris.UeStack.Pdc.{Wire, PendingAck, Tpdc, rto_sweep}
use labtris.UeStack.Pdc.Invariant.{IsSound, rto_sweep-IsSound}
use labtris.UeStack.Pdc.Retransmit.{IsQuiet, remaining, rto_sweep-quiet}

-- the sweeps at these times, one after the other
pub sweeps : Wire → ℕ → List ℕ → Tpdc → Tpdc
sweeps w max [] t = t
sweeps w max (now ∷ times) t = sweeps w max times (rto_sweep w now max t).1

-- each time is at least `rto` after the one before it
abbrev pub Paced : ℕ → ℕ → List ℕ → Type 0
Paced rto from [] = Unit
Paced rto from (now ∷ times) = (from + rto ≤ now) × Paced rto now times

-- sent last at `from` or before, and sent again at least `n` times
abbrev pub Waiting : ℕ → ℕ → Dict PendingAck → Type 0
Waiting from n d = Every (λ _ e. (e.sent_at ≤ from) × (n ≤ e.retries)) d

module _ (now rto max from n : ℕ) (due : from + rto ≤ now) where
  remaining-Waiting :
      (d : Dict PendingAck) → Waiting from n d → Waiting now (suc n) (remaining now rto max d)
  unfolding remaining
  remaining-Waiting [] h = tt
  remaining-Waiting ((k, e) ∷ d) (p, h) = ground (arith, remaining-Waiting d h)

  remaining-last : (d : Dict PendingAck) → max ≤ n → Waiting from n d → remaining now rto max d ≡ []
  unfolding remaining
  remaining-last [] m h = refl
  remaining-last ((k, e) ∷ d) m (p, h) = ground (arith, remaining-last d m h)

swept :
    (w : Wire) (now max : ℕ) (t : Tpdc)
    → IsQuiet w
    → IsSound max t
    → record t { pending = remaining now t.rto max t.pending } ≡ (rto_sweep w now max t).1
swept w now max t q s = sym (ap (λ r. r.1) (rto_sweep-quiet w now max t q s))

sweeps-Waiting :
    (w : Wire) (max n from : ℕ) (times : List ℕ) (t : Tpdc)
    → IsQuiet w
    → IsSound max t
    → length times + n ≡ suc max
    → Paced t.rto from times
    → Waiting from n t.pending
    → 0 < length times
    → (sweeps w max times t).pending ≡ []
unfolding sweeps
sweeps-Waiting w max n from [] t q s l p h pos = absurd (omega arith)
sweeps-Waiting w max n from (now ∷ []) t q s l (due, p) h pos =
    subst (λ u. u.pending ≡ []) (swept w now max t q s)
      (remaining-last now t.rto max from n due t.pending (omega arith) h)
sweeps-Waiting w max n from (now ∷ next ∷ times) t q s l (due, p) h pos =
    sweeps-Waiting w max (suc n) now (next ∷ times) (rto_sweep w now max t).1 q
      (rto_sweep-IsSound w now max t s) (omega arith)
      (subst (λ u. Paced u.rto now (next ∷ times)) (swept w now max t q s) p)
      (subst (λ u. Waiting now (suc n) u.pending) (swept w now max t q s)
        (remaining-Waiting now t.rto max from n due t.pending h))
      (omega arith)

-- With no ACK, over a wire that neither fails nor interrupts, one sweep more than the retry limit,
-- each at least `rto` after the one before and the first at least `rto` after the last send, empties
-- the table of a sound context.
pub sweeps_empty :
    (w : Wire) (max from : ℕ) (times : List ℕ) (t : Tpdc)
    → IsQuiet w
    → IsSound max t
    → length times ≡ suc max
    → Paced t.rto from times
    → Waiting from 0 t.pending
    → (sweeps w max times t).pending ≡ []
sweeps_empty w max from times t q s l p h =
    sweeps-Waiting w max 0 from times t q s (omega arith) p h (omega arith)
