-- ===== src/Naming/Device/Legal.antt =====
-- Every name that naming.py makes is legal.
use labtris.Prelude.{
  ◌||◌, ◌&&◌, Bool, subst, ◌==◌, ap, ℕ, zero, suc, ◌+◌, ◌-◌, ◌≤◌, ◌<◌, Text, [], ◌∷◌, ◌++◌, true,
  arith, All, length, take, length-take, length-take-le, All-take, All-append, length-append, ◌≡◌,
  refl, ltb, if◌then◌else◌, Bool-cases, inl, inr,
}
use labtris.Prelude.Result.{ok}
use labtris.Netd.Protocol.{is_word, is_kind, word_run, readable, matches_ifname}
use labtris.Netd.Protocol.Gate.{IsWord, word_run-IsWord, label_run-IsWord}
use labtris.Naming.Digits.{value-digits, value, digits, digits-All}
use labtris.Naming.Device.{
  Bool, tap, one-lt-36, pos, Kind, prefix_of, lower, keep_words, slug, slug_max, at_least_one,
  device_hint, alph, base36, decimal, zeros, rjust, ifname_of, check_ifname, host_ifname,
}
use labtris.Prelude.Int.{pos}

keep_words-IsWord : (s : Text) → All IsWord (keep_words s)
unfolding keep_words
keep_words-IsWord [] = tt
keep_words-IsWord (c ∷ s) = elim (Bool-cases (is_word c)) [
  | inl e ↦ rw e (e, keep_words-IsWord s)
  | inr e ↦ rw e (keep_words-IsWord s)
]

slug-IsWord :
    (hint : Text) (limit : ℕ) → All IsWord (slug hint limit) × (length (slug hint limit) ≤ limit)
unfolding slug
slug-IsWord hint limit = (
  All-take IsWord limit (keep_words (lower hint)) (keep_words-IsWord (lower hint)),
  length-take-le limit (keep_words (lower hint)),
)

-- A hint is made of letters and digits and has at most nine of them; it ends in the first five letters
-- and digits of the port's name, in lower case.
pub device_hint-IsWord :
    (owner part : Text)
    → (head : Text) × (device_hint owner part ≡ head ++ slug part 5)
      × All IsWord (device_hint owner part)
      × (length (device_hint owner part) ≤ slug_max)
unfolding device_hint
device_hint-IsWord owner part =
    let limit = at_least_one (slug_max - length (slug part 5)) in
    let (wo, lo) = slug-IsWord owner limit in
    let (wp, lp) = slug-IsWord part 5 in
    (
      slug owner limit,
      refl,
      All-append IsWord (slug owner limit) (slug part 5) wo wp,
      ground (arith, length-append (slug owner limit) (slug part 5)),
    )

alph-IsWord : (r : ℕ) → r < 36 → IsWord (alph r)
unfolding alph is_word
alph-IsWord r h = ground arith

zeros-IsWord : (n : ℕ) → All IsWord (zeros n)
unfolding is_word
zeros-IsWord zero = tt
zeros-IsWord (suc n) = (refl, zeros-IsWord n)

length-zeros : (n : ℕ) → length (zeros n) ≡ n
length-zeros zero = refl
length-zeros (suc n) = ap suc (length-zeros n)

rjust-IsWord : (n : ℕ) (s : Text) → All IsWord s → All IsWord (rjust n s) × (n ≤ length (rjust n s))
unfolding rjust
rjust-IsWord n s h = (
  All-append IsWord (zeros (n - length s)) s (zeros-IsWord (n - length s)) h,
  omega (arith, length-append (zeros (n - length s)) s, length-zeros (n - length s)),
)

base36-IsWord : (n : ℕ) → (s : Text) × (base36 (pos n) ≡ ok s) × All IsWord s
unfolding base36 is_word
base36-IsWord n = elim (Bool-cases (n == 0)) [
  | inl e ↦ (b'0' ∷ [], rw e, (refl, tt))
  | inr e ↦
      (digits 36 one-lt-36 alph n [], rw e, digits-All 36 one-lt-36 alph IsWord alph-IsWord n [] tt)
]

check_ifname-legal :
    (name : Text) → matches_ifname name ≡ true → length name ≤ 15 → check_ifname name ≡ ok name
unfolding check_ifname
check_ifname-legal name m l = ground arith

prefix_of-is_kind : (kind : Kind) → is_kind (prefix_of kind) ≡ true
unfolding prefix_of is_kind
prefix_of-is_kind tap = refl
prefix_of-is_kind _ = refl

word_run-take :
    (n : ℕ) (tail : Text) → All IsWord tail → n ≤ length tail → word_run n (take n tail) ≡ true
word_run-take n tail w l =
    subst (λ k. word_run k (take n tail) ≡ true) (length-take n tail l)
      (word_run-IsWord (take n tail) (All-take IsWord n tail w))

or_right : (k a b : Bool) → k ≡ true → b ≡ true → (k && (a || b)) ≡ true
or_right k a b p q = ground arith

or_left : (k a b : Bool) → k ≡ true → a ≡ true → (k && (a || b)) ≡ true
or_left k a b p q = ground arith

-- a name with or without a label
ifname_of-legal :
    (kind : Kind) (label tail : Text)
    → All IsWord label
    → length label ≤ slug_max
    → All IsWord tail
    → 8 ≤ length tail
    → (matches_ifname (ifname_of kind label tail) ≡ true)
      × (length (ifname_of kind label tail) ≤ 15)
unfolding ifname_of matches_ifname readable
ifname_of-legal kind [] tail wl ll wt lt = (
  or_left (is_kind (prefix_of kind)) (word_run 8 (take 8 tail)) (readable (take 8 tail))
      (prefix_of-is_kind kind) (word_run-take 8 tail wt lt),
  omega (arith, length-take-le 8 tail),
)
ifname_of-legal kind (c ∷ label) tail (w, wl) ll wt lt = (
  or_right (is_kind (prefix_of kind)) (word_run 8 ((c ∷ label) ++ b'-' ∷ take 4 tail))
      (readable ((c ∷ label) ++ b'-' ∷ take 4 tail)) (prefix_of-is_kind kind)
      (rw (w) (
        label_run-IsWord 8 label (take 4 tail) wl (omega arith)
          (word_run-take 4 tail wt (omega arith)))),
  omega (arith, length-append label (b'-' ∷ take 4 tail), length-take-le 4 tail),
)

-- `host_ifname` never raises, whatever the digest, the owner, the salt and the hint: its name passes
-- the gate and fits the kernel's fifteen characters.
pub host_ifname_total :
    (digest : Text → ℕ) (kind : Kind) (owner_id : Text) (salt : ℕ) (hint : Text)
    → (name : Text) × (host_ifname digest kind owner_id salt hint ≡ ok name)
      × (matches_ifname name ≡ true)
      × (length name ≤ 15)
unfolding host_ifname
host_ifname_total digest kind owner_id salt hint =
    let (text, e, w) = base36-IsWord (digest (owner_id ++ b':' ∷ decimal salt)) in
    let (wt, lt) = rjust-IsWord 8 text w in
    let (wl, ll) = slug-IsWord hint slug_max in
    let (m, l) = ifname_of-legal kind (slug hint slug_max) (rjust 8 text) wl ll wt lt in
    (
      ifname_of kind (slug hint slug_max) (rjust 8 text),
      rw (e, host_ifname) (check_ifname-legal _ m l),
      m,
      l,
    )

-- the number that a character of _ALPH stands for
unfoldable pub alph_value : ℕ → ℕ
alph_value c = if ltb c b'a' then c - b'0' else c - b'a' + 10

alph_value-alph : (r : ℕ) → r < 36 → alph_value (alph r) ≡ r
unfolding alph_value alph
alph_value-alph r h = ground arith

-- A number that is not negative has a base-36 text, of letters and digits, and it spells that number.
pub value-base36 :
    (n : ℕ) → (s : Text) × (base36 (pos n) ≡ ok s) × (value 36 alph_value 0 s ≡ n) × All IsWord s
unfolding base36
value-base36 n = elim (Bool-cases (n == 0)) [
  | inl e ↦ (b'0' ∷ [], rw e, unfold alph_value in ground arith, unfold is_word in (refl, tt))
  | inr e ↦ (
    digits 36 one-lt-36 alph n [],
    rw e,
    value-digits 36 one-lt-36 alph alph_value alph_value-alph n [],
    digits-All 36 one-lt-36 alph IsWord alph-IsWord n [] tt,
  )
]
