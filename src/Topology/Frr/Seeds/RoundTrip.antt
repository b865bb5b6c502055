-- ===== src/Topology/Frr/Seeds/RoundTrip.antt =====
-- The files of an installer script are the ones it was made of.
use labtris.Topology.Frr.Seeds.{
  drop_prefix, find, seeds_of, opener, closer, heredoc, frr_seed_files, seed_files_from_installer,
}
use labtris.Topology.Frr.Installer.{
  frr_installer, script_head, script_middle, script_join, script_tail, reload_lines,
}
use labtris.Topology.Frr.Lines.{unlines}
use labtris.Prelude.{
  ℕ, Text, codes, [], ◌∷◌, ◌++◌, ◌==◌, ◌&&◌, if◌then◌else◌, Bool, true, false, none, some, String,
  ◌≡◌, ◌≢◌, refl, ap, sym, ◌∙◌, arith, All,
}
use mathlib.Core.List.{append_assoc}

-- a text does not match at any place of `a`, with `r` behind it
abbrev Absent : Text → Text → Text → Type 0
Absent p [] r = Unit
Absent p (c ∷ a) r = (drop_prefix p (c ∷ a ++ r) ≡ none) × Absent p a r

-- the two differ where both are there
differs : Text → Text → Bool
differs [] s = false
differs (c ∷ p) [] = false
differs (c ∷ p) (d ∷ s) = if c == d then differs p s else true

absent : Text → Text → Bool
absent p [] = true
absent p (c ∷ a) = differs p (c ∷ a) && absent p a

differs_lem : (p s r : Text) → differs p s ≡ true → drop_prefix p (s ++ r) ≡ none
unfolding differs drop_prefix
differs_lem [] s r h = cc
differs_lem (c ∷ p) [] r h = cc
differs_lem (c ∷ p) (d ∷ s) r h = ground (arith, differs_lem p s r)

absent_lem : (p a r : Text) → absent p a ≡ true → Absent p a r
unfolding absent
absent_lem p [] r h = tt
absent_lem p (c ∷ a) r h = (differs_lem p (c ∷ a) r (ground arith), absent_lem p a r (ground arith))

Absent-append : (p a b r : Text) → Absent p a (b ++ r) → Absent p b r → Absent p (a ++ b) r
Absent-append p [] b r h k = k
Absent-append p (c ∷ a) b r (m, h) k =
    (ap (λ t. drop_prefix p (c ∷ t)) (append_assoc a b r) ∙ m, Absent-append p a b r h k)

-- a place without the first character of the text is none
free-Absent : (c : ℕ) (p a r : Text) → All (λ d. d ≢ c) a → Absent (c ∷ p) a r
unfolding drop_prefix
free-Absent c p [] r h = tt
free-Absent c p (d ∷ a) r (m, h) = (ground (arith, m), free-Absent c p a r h)

drop_prefix-append : (p r : Text) → drop_prefix p (p ++ r) ≡ some r
unfolding drop_prefix
drop_prefix-append [] r = refl
drop_prefix-append (c ∷ p) r = ground (arith, drop_prefix-append p r)

find-append :
    (c : ℕ) (p a r : Text)
    → Absent (c ∷ p) a ((c ∷ p) ++ r)
    → find (c ∷ p) (a ++ ((c ∷ p) ++ r)) ≡ some (a, r)
unfolding find
find-append c p [] r h = rw (drop_prefix-append (c ∷ p) r) refl
find-append c p (d ∷ a) r (m, h) = rw (m, find-append c p a r h) refl

find-none : (c : ℕ) (p a : Text) → All (λ d. d ≢ c) a → find (c ∷ p) a ≡ none
unfolding find drop_prefix
find-none c p [] h = refl
find-none c p (d ∷ a) (m, h) = rw (find-none c p a h) (ground (arith, m))

-- no line but the first begins with this character
abbrev pub Opens : ℕ → Text → Type 0
Opens c [] = Unit
Opens c (d ∷ []) = Unit
Opens c (d ∷ e ∷ a) = ((d ≡ 10) → e ≢ c) × Opens c (e ∷ a)

Opens-Absent : (c : ℕ) (p a r : Text) → c ≢ 10 → Opens c a → Absent (10 ∷ c ∷ p) a (10 ∷ r)
unfolding drop_prefix
Opens-Absent c p [] r n h = tt
Opens-Absent c p (d ∷ []) r n h = (ground (arith, n), tt)
Opens-Absent c p (d ∷ e ∷ a) r n (m, h) = (ground (arith, m), Opens-Absent c p (e ∷ a) r n h)

-- the parts of a script before the markers
abbrev mount : Text
mount = codes "\nmkdir -p /etc/frr\ncat > /etc/frr/daemons.new "

abbrev next : Text
next = codes "\nEOF_DAEMONS\ncat > /etc/frr/frr.conf "

cut :
    (marker : String) (s rest before body after : Text)
    → find (opener marker) s ≡ some (before, rest)
    → find (closer marker) rest ≡ some (body, after)
    → heredoc marker s ≡ some body
unfolding heredoc
cut marker s rest before body after h k = rw (h, k) refl

seeds_lem :
    (script daemons frr_conf : Text)
    → heredoc "EOF_DAEMONS" script ≡ some daemons
    → heredoc "EOF_FRR" script ≡ some frr_conf
    → seed_files_from_installer script ≡ frr_seed_files daemons frr_conf
unfolding seed_files_from_installer frr_seed_files
seeds_lem script daemons frr_conf h k =
    ap (λ o. seeds_of o (heredoc "EOF_FRR" script)) h ∙ ap (seeds_of (some daemons)) k

big_e : ◌≢◌ {A = ℕ} 69 10
big_e = omega arith

module _ (pre daemons frr_conf : Text) (free_pre : All (λ d. d ≢ 60) pre)
    (free_daemons : All (λ d. d ≢ 60) daemons) (daemons_open : Opens 69 daemons)
    (conf_open : Opens 69 frr_conf) where
  abbrev configured : Text
  configured = frr_conf ++ 10 ∷ unlines script_tail

  abbrev seeded : Text
  seeded = daemons ++ 10 ∷ (unlines script_join ++ configured)

  first_place :
      find (opener "EOF_DAEMONS") (frr_installer daemons frr_conf pre)
      ≡ some (unlines script_head ++ (pre ++ mount), seeded)
  unfolding frr_installer absent differs
  first_place =
      let p = opener "EOF_DAEMONS" in
      ap (λ t. find p (unlines script_head ++ t)) (sym (append_assoc pre mount (p ++ seeded)))
      ∙ ap (find p) (sym (append_assoc (unlines script_head) (pre ++ mount) (p ++ seeded)))
      ∙ find-append 60 (codes "<'EOF_DAEMONS'\n") (unlines script_head ++ (pre ++ mount)) seeded (
          Absent-append p (unlines script_head) (pre ++ mount) (p ++ seeded)
            (absent_lem p (unlines script_head) ((pre ++ mount) ++ (p ++ seeded)) refl)
            (Absent-append p pre mount (p ++ seeded)
              (free-Absent 60 (codes "<'EOF_DAEMONS'\n") pre (mount ++ (p ++ seeded)) free_pre)
              (absent_lem p mount (p ++ seeded) refl)))

  first_end :
      find (closer "EOF_DAEMONS") seeded
      ≡ some (daemons, codes "cat > /etc/frr/frr.conf <<'EOF_FRR'\n" ++ configured)
  unfolding unlines
  first_end =
      find-append 10 (codes "EOF_DAEMONS\n") daemons
        (codes "cat > /etc/frr/frr.conf <<'EOF_FRR'\n" ++ configured)
        (Opens-Absent 69 (codes "OF_DAEMONS\n") daemons _ big_e daemons_open)

  second_end : find (closer "EOF_FRR") configured ≡ some (frr_conf, unlines reload_lines)
  unfolding unlines
  second_end = find-append 10 (codes "EOF_FRR\n") frr_conf (unlines reload_lines) (
      Opens-Absent 69 (codes "OF_FRR\n") frr_conf (codes "EOF_FRR\n" ++ unlines reload_lines) big_e
        conf_open)

  second_place :
      find (opener "EOF_FRR") (frr_installer daemons frr_conf pre)
      ≡ some (
        unlines script_head ++ (pre ++ (10 ∷ unlines script_middle ++ (daemons ++ next))),
        configured,
      )
  unfolding frr_installer absent differs
  second_place =
      let p = opener "EOF_FRR" in
      let q = codes "<'EOF_FRR'\n" in
      let m = 10 ∷ unlines script_middle in
      let rest = p ++ configured in
      ap (λ t. find p (unlines script_head ++ (pre ++ (m ++ t))))
        (sym (append_assoc daemons next rest))
      ∙ ap (λ t. find p (unlines script_head ++ (pre ++ t)))
          (sym (append_assoc m (daemons ++ next) rest))
      ∙ ap (λ t. find p (unlines script_head ++ t))
          (sym (append_assoc pre (m ++ (daemons ++ next)) rest))
      ∙ ap (find p)
          (sym (append_assoc (unlines script_head) (pre ++ (m ++ (daemons ++ next))) rest))
      ∙ find-append 60 q (unlines script_head ++ (pre ++ (m ++ (daemons ++ next)))) configured (
          Absent-append p (unlines script_head) (pre ++ (m ++ (daemons ++ next))) rest
            (absent_lem p (unlines script_head) ((pre ++ (m ++ (daemons ++ next))) ++ rest) refl)
            (Absent-append p pre (m ++ (daemons ++ next)) rest
              (free-Absent 60 q pre ((m ++ (daemons ++ next)) ++ rest) free_pre)
              (Absent-append p m (daemons ++ next) rest
                (absent_lem p m ((daemons ++ next) ++ rest) refl)
                (Absent-append p daemons next rest
                  (free-Absent 60 q daemons (next ++ rest) free_daemons)
                  (absent_lem p next rest refl)))))

  -- Where neither what stands before nor the daemons hold a `<`, and no line of the daemons or of the
  -- configuration but the first begins with an `E`, the files that are recovered from an installer script
  -- are the ones of its daemons and its configuration.
  pub seed_files-frr_installer :
      seed_files_from_installer (frr_installer daemons frr_conf pre)
      ≡ frr_seed_files daemons frr_conf
  seed_files-frr_installer =
      seeds_lem (frr_installer daemons frr_conf pre) daemons frr_conf
        (cut "EOF_DAEMONS" _ _ _ _ _ first_place first_end)
        (cut "EOF_FRR" _ _ _ _ _ second_place second_end)

-- A script without a `<` has no files: it is left alone.
pub seed_files_none :
    (script : Text) → All (λ d. d ≢ 60) script → seed_files_from_installer script ≡ []
unfolding seed_files_from_installer
seed_files_none script free = rw (find-none 60 (codes "<'EOF_DAEMONS'\n") script free) refl
