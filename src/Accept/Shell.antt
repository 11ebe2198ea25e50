-- ===== src/Accept/Shell.antt =====
-- A shell and a `systemd-run` that do with plain words what the theorems ask of theirs.
use opensmsc.Accept.Launch.{starts_with}
use opensmsc.Accept.Words.{IsOption, IsWord, all_plain, is_plain, join}
use opensmsc.Base.{
  Text, List, All, [], arith, false, if◌then◌else◌, length, length-append, refl, true, ℕ, ◌++◌, ◌<◌,
  ◌==◌, ◌∙◌, ◌∷◌, ◌≡◌, text,
}

-- The word before the first blank, and the words behind it.
abbrev cut : Text → Text × List Text
cut [] = ([], [])
cut (c ∷ s) = let (w, ws) = cut s in if c == b' ' then ([], w ∷ ws) else (c ∷ w, ws)

abbrev pub shell : Text → List Text
shell [] = []
shell (c ∷ s) = (cut (c ∷ s)).0 ∷ (cut (c ∷ s)).1

plain_word : (c : ℕ) → is_plain c ≡ true → (c == b' ') ≡ false
plain_word c h = ground arith

cut_word :
    (w rest : Text)
    → all_plain w ≡ true
    → cut (w ++ (b' ' ∷ rest)) ≡ (w, (cut rest).0 ∷ (cut rest).1)
cut_word [] rest h = refl
cut_word (c ∷ w) rest h =
    let first : is_plain c ≡ true = ground arith in
    let more : all_plain w ≡ true = ground arith in
    rw (plain_word c first, cut_word w rest more) refl

cut_last : (w : Text) → all_plain w ≡ true → cut w ≡ (w, [])
cut_last [] h = refl
cut_last (c ∷ w) h =
    let first : is_plain c ≡ true = ground arith in
    let more : all_plain w ≡ true = ground arith in rw (plain_word c first, cut_last w more) refl

cut-join : (w : Text) (ws : List Text) → All IsWord (w ∷ ws) → cut (join (w ∷ ws)) ≡ (w, ws)
cut-join w [] h = cut_last w h.0.1
cut-join w (v ∷ ws) h = rw (cut_word w (join (v ∷ ws)) h.0.1, cut-join v ws h.1) refl

shell-cut : (s : Text) → 0 < length s → shell s ≡ (cut s).0 ∷ (cut s).1
shell-cut [] h = absurd (omega arith)
shell-cut (c ∷ s) h = refl

join_pos : (w : Text) (ws : List Text) → 0 < length w → 0 < length (join (w ∷ ws))
join_pos w [] h = h
join_pos w (v ∷ ws) h = omega (arith, length-append w (b' ' ∷ join (v ∷ ws)))

pub shell-join : (ws : List Text) → All IsWord ws → shell (join ws) ≡ ws
shell-join [] h = refl
shell-join (w ∷ ws) h = shell-cut (join (w ∷ ws)) (join_pos w ws h.0.0) ∙ rw (cut-join w ws h) refl

abbrev pub systemd_run : List Text → List Text
systemd_run [] = []
systemd_run (w ∷ ws) = if starts_with (text "-") w then systemd_run ws else w ∷ ws

option_dash : (w : Text) → IsOption w → starts_with (text "-") w ≡ true
unfolding starts_with
option_dash [] h = h
option_dash (c ∷ []) h = ground arith
option_dash (c ∷ d ∷ w) h = ground arith

pub systemd_run_options :
    (opts argv : List Text) (program : Text)
    → All IsOption opts
    → starts_with (text "-") program ≡ false
    → systemd_run (opts ++ (program ∷ argv)) ≡ program ∷ argv
systemd_run_options [] argv program h p = rw p refl
systemd_run_options (o ∷ opts) argv program h p =
    rw (option_dash o h.0) (systemd_run_options opts argv program h.1 p)
