-- ===== src/Naming/Iface/Distinct.antt =====
-- Two ports of a guest have two names.
use labtris.Prelude.{text_eq}
use labtris.Naming.Iface.{
  swp, nxos, paloalto, codes, String, suc, text_eq, Option, List, [], Text, decimal, ℕ, IfaceScheme,
  format, template_name, port_name, scheme_name, scheme, eth, other_schemes, iface_schemes,
  find_scheme, guest_iface_name, scheme_or_default,
}
use labtris.Prelude.{
  codes, String, refl, sym, suc, zero, ◌*◌, Option, List, All, ◌+◌, ap, inr, arith, inl, ◌==◌, ◌∷◌,
  [], Bool-cases, ◌≢◌, ◌≡◌, ◌++◌, ◌-◌, Text, ℕ,
}
use labtris.Naming.Device.{decimal_digit, one-lt-10, decimal}
use labtris.Naming.Digits.{value-digits, value}
use mathlib.Core.List.{append-nil}

decimal_value : ℕ → ℕ
decimal_value c = c - b'0'

value-decimal : (n : ℕ) → value 10 decimal_value 0 (decimal n) ≡ n
unfolding decimal decimal_value
value-decimal n = elim (Bool-cases (n == 0)) [
  | inl e ↦ rw e (ground (arith, e))
  | inr e ↦ rw e (
      value-digits 10 one-lt-10 decimal_digit decimal_value
        (λ r h. unfold decimal_digit in omega arith) n [])
]

decimal-eq : (m n : ℕ) → decimal m ++ [] ≡ decimal n ++ [] → m ≡ n
decimal-eq m n h = cc (
  ap (value 10 decimal_value 0) h,
  ap (value 10 decimal_value 0) (append-nil (decimal m)),
  ap (value 10 decimal_value 0) (append-nil (decimal n)),
  value-decimal m,
  value-decimal n,
)

-- the names of a scheme's ports
abbrev IsInjective : (ℕ → Text) → Type 0
IsInjective name = (i j : ℕ) → name i ≡ name j → i ≡ j

-- behind a name that the template never makes
led :
    (s : IfaceScheme) (f : Text)
    → IsInjective (template_name s)
    → ((i : ℕ) → template_name s i ≢ f)
    → IsInjective (port_name s (f ∷ []))
unfolding port_name
led s f inj new zero zero h = refl
led s f inj new zero (suc j) h = absurd (new j (sym h))
led s f inj new (suc i) zero h = absurd (new i h)
led s f inj new (suc i) (suc j) h = ap suc (inj i j h)

times-eq : (k i j : ℕ) → i * suc k ≡ j * suc k → i ≡ j
times-eq k zero zero h = refl
times-eq k zero (suc j) h = absurd (omega arith)
times-eq k (suc i) zero h = absurd (omega arith)
times-eq k (suc i) (suc j) h = ap suc (times-eq k i j (omega arith))

rest : Text → Text
rest [] = []
rest (c ∷ s) = s

append-eq : (pre s t : Text) → pre ++ s ≡ pre ++ t → s ≡ t
unfolding rest
append-eq [] s t h = h
append-eq (c ∷ pre) s t h = append-eq pre s t (ap rest h)

-- what a template makes of its field
abbrev numbered : String → ℕ → ℕ → ℕ → Text
numbered pre start k i = codes pre ++ (decimal (start + i * suc k) ++ [])

numbered-IsInjective : (pre : String) (start k : ℕ) → IsInjective (numbered pre start k)
numbered-IsInjective pre start k i j h =
    let e = decimal-eq (start + i * suc k) (start + j * suc k) (append-eq (codes pre) _ _ h) in
    times-eq k i j (omega arith)

head_code : Text → ℕ
head_code [] = 0
head_code (c ∷ s) = c

cons-apart : (c d : ℕ) (s t : Text) → c ≢ d → c ∷ s ≢ d ∷ t
unfolding head_code
cons-apart c d s t n h = n (ap head_code h)

eth-IsInjective : IsInjective (scheme_name eth)
unfolding scheme_name port_name template_name format
eth-IsInjective = numbered-IsInjective "eth" 0 0

-- a scheme with a first name that begins otherwise than the template
led_by :
    (s : IfaceScheme) (pre : String) (start k c d : ℕ) (f t : Text)
    → template_name s ≡ numbered pre start k
    → codes pre ≡ c ∷ t
    → c ≢ d
    → IsInjective (port_name s ((d ∷ f) ∷ []))
led_by s pre start k c d f t e p n =
    led s (d ∷ f) (rw e (numbered-IsInjective pre start k))
      (λ i. rw (e, p) (cons-apart c d (t ++ (decimal (start + i * suc k) ++ [])) f n))

others-IsInjective : All (λ s. IsInjective (scheme_name s)) other_schemes
unfolding scheme_name port_name template_name format
others-IsInjective = (
  numbered-IsInjective "ens" 3 0,
  (
    numbered-IsInjective "enp0s" 3 0,
    (
      numbered-IsInjective "ens" 192 31,
      (
        numbered-IsInjective "ethernet-1/" 1 0,
        (
          numbered-IsInjective "GigabitEthernet0/" 0 0,
          (
            led_by paloalto "eth1/" 1 0 b'e' b'm' (codes "gmt") (codes "th1/") refl refl
                (omega arith),
            (
              led_by nxos "E1/" 1 0 b'E' b'M' (codes "gmt0") (codes "1/") refl refl (omega arith),
              (
                numbered-IsInjective "s" 1 0,
                (
                  led_by swp "swp" 1 0 b's' b'e' (codes "th0") (codes "wp") refl refl (omega arith),
                  tt,
                ),
              ),
            ),
          ),
        ),
      ),
    ),
  ),
)

find_scheme-All :
    (ss : List IfaceScheme) (id : Text)
    → All (λ s. IsInjective (scheme_name s)) ss
    → IsInjective (scheme_name (find_scheme ss id))
unfolding find_scheme
find_scheme-All [] id h = eth-IsInjective
find_scheme-All (s ∷ ss) id (p, h) = elim (Bool-cases (text_eq s.id id)) [
  | inl e ↦ rw e p
  | inr e ↦ rw e (find_scheme-All ss id h)
]

-- Two ports of a guest never get one name, whatever its scheme: known, unknown or none.
pub guest_iface_name-apart :
    (scheme : Option Text) (i j : ℕ) → i ≢ j → guest_iface_name scheme i ≢ guest_iface_name scheme j
unfolding guest_iface_name
guest_iface_name-apart scheme i j n h = n (
    find_scheme-All iface_schemes (scheme_or_default scheme) (eth-IsInjective, others-IsInjective) i
      j h)
