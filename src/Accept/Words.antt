-- ===== src/Accept/Words.antt =====
-- From the command line that the server builds to what the handler's `main` has read.
use mathlib.Core.List.{append_assoc}
use opensmsc.Accept.SessionId.{generate_session_id}
use opensmsc.Accept.Launch.{
  build_launch_command, main_arguments, no_arguments, read_argument, read_arguments, starts_with,
  handler_bin,
}
use opensmsc.Base.{
  Bool, List, Text, [], arith, leb, length, refl, some, suc, true, zero, ℕ, ◌%◌, ◌&&◌, ◌++◌, ◌/◌,
  ◌<◌, ◌==◌, ◌||◌, ◌∷◌, ◌≡◌, text, All, bit_and, drop, false, length-append,
}
use opensmsc.Session.Submit.{hex_digit, hex_digits}

-- A character that the shell takes as it is.
abbrev pub is_plain : ℕ → Bool
is_plain c =
    leb b'0' c && leb c b'9'
    || leb b'a' c && leb c b'z'
    || leb b'A' c && leb c b'Z'
    || c == b'-'
    || c == b'_'
    || c == b'.'
    || c == b'/'
    || c == b':'
    || c == b'='
    || c == b'%'

abbrev pub all_plain : Text → Bool
all_plain [] = true
all_plain (c ∷ s) = is_plain c && all_plain s

abbrev pub IsWord : Text → Type 0
IsWord w = (0 < length w) × (all_plain w ≡ true)

-- Words with a blank between two.
abbrev pub join : List Text → Text
join [] = []
join (w ∷ []) = w
join (w ∷ v ∷ ws) = w ++ (b' ' ∷ join (v ∷ ws))

-- The options of `systemd-run`, and the words of the command that it runs.
abbrev pub options : Text → List Text
options uuid =
    (text "--unit=smpp-client-" ++ uuid)
    ∷ text "--collect"
    ∷ text "--property=User=smpp-client"
    ∷ []

abbrev pub handler_argv : Text → Text → List Text
handler_argv uuid client_ip =
    handler_bin ∷ (text "--uuid=" ++ uuid) ∷ (text "--client-ip=" ++ client_ip) ∷ []

build_launch_command-join :
    (uuid client_ip : Text)
    → build_launch_command uuid client_ip
      ≡ join (text "systemd-run" ∷ (options uuid ++ handler_argv uuid client_ip))
unfolding build_launch_command
build_launch_command-join uuid client_ip = simp append_assoc

main_arguments-handler_argv :
    (uuid client_ip : Text)
    → 0 < length uuid
    → 0 < length client_ip
    → main_arguments (handler_argv uuid client_ip)
      ≡ some (record no_arguments { uuid = uuid; client_ip = client_ip })
unfolding main_arguments read_arguments read_argument starts_with
main_arguments-handler_argv [] client_ip hu hi = absurd (omega arith)
main_arguments-handler_argv (c ∷ uuid) [] hu hi = absurd (omega arith)
main_arguments-handler_argv (c ∷ uuid) (d ∷ client_ip) hu hi = refl

all_plain-append :
    (s t : Text) → all_plain s ≡ true → all_plain t ≡ true → all_plain (s ++ t) ≡ true
all_plain-append [] t hs ht = ht
all_plain-append (c ∷ s) t hs ht = ground (arith, all_plain-append s t)

hex_digit_plain : (d : ℕ) → d < 16 → is_plain (hex_digit d) ≡ true
hex_digit_plain d h = ground arith

hex_digits_plain : (k v : ℕ) → all_plain (hex_digits k v) ≡ true
unfolding hex_digits
hex_digits_plain zero v = refl
hex_digits_plain (suc k) v =
    all_plain-append (hex_digits k (v / 16)) (hex_digit (v % 16) ∷ []) (hex_digits_plain k (v / 16))
      (rw (hex_digit_plain (v % 16) (omega arith)) refl)

generate_session_id-plain : (ts rnd : ℕ) → all_plain (generate_session_id ts rnd) ≡ true
unfolding generate_session_id
generate_session_id-plain ts rnd =
    all_plain-append (hex_digits 12 _) (b'-' ∷ hex_digits 16 rnd) (hex_digits_plain 12 _)
      (hex_digits_plain 16 rnd)

IsWord-append :
    (front s : Text)
    → all_plain front ≡ true
    → 0 < length front
    → all_plain s ≡ true
    → IsWord (front ++ s)
IsWord-append front s hf pos hs =
    (omega (arith, length-append front s), all_plain-append front s hf hs)

command_words :
    (uuid client_ip : Text)
    → all_plain uuid ≡ true
    → all_plain client_ip ≡ true
    → All IsWord (text "systemd-run" ∷ (options uuid ++ handler_argv uuid client_ip))
command_words uuid client_ip hu hi =
    let unit_word = IsWord-append (text "--unit=smpp-client-") uuid refl (omega arith) hu in
    let uuid_word = IsWord-append (text "--uuid=") uuid refl (omega arith) hu in
    let ip_word = IsWord-append (text "--client-ip=") client_ip refl (omega arith) hi in
    (
      (omega arith, refl),
      (
        unit_word,
        (
          (omega arith, refl),
          ((omega arith, refl), ((omega arith, refl), (uuid_word, (ip_word, tt)))),
        ),
      ),
    )

-- An option of `systemd-run` begins with two dashes.
abbrev pub IsOption : Text → Type 0
IsOption w = starts_with (text "--") w ≡ true

session_id_length : (ts rnd : ℕ) → 0 < length (generate_session_id ts rnd)
unfolding generate_session_id
session_id_length ts rnd =
    omega (
      arith,
      length-append (hex_digits 12 (bit_and ts 0xFFFF_FFFF_FFFF)) (b'-' ∷ hex_digits 16 rnd),
    )

-- The shell splits a command of plain words at its blanks, and `systemd-run` runs the words behind its
-- options: then a handler that the server launches, with a new session identifier and an address of plain
-- characters, reads that identifier and that address from its arguments, and the server's name by default.
pub launch_arguments :
    (shell : Text → List Text) (systemd_run : List Text → List Text)
    → ((ws : List Text) → All IsWord ws → shell (join ws) ≡ ws)
    → ((opts argv : List Text) (program : Text)
        → All IsOption opts
        → starts_with (text "-") program ≡ false
        → systemd_run (opts ++ (program ∷ argv)) ≡ program ∷ argv)
    → (ts rnd : ℕ) (client_ip : Text) → IsWord client_ip
    → main_arguments
        (systemd_run (drop 1 (shell (build_launch_command (generate_session_id ts rnd) client_ip))))
      ≡ some (record {
        uuid = generate_session_id ts rnd;
        client_ip = client_ip;
        server_svc = text "com.telecom.smpp.Server";
      })
unfolding starts_with
launch_arguments shell systemd_run splits runs ts rnd client_ip h =
    let uuid = generate_session_id ts rnd in
    rw
      (
        build_launch_command-join uuid client_ip,
        splits _ (command_words uuid client_ip (generate_session_id-plain ts rnd) h.1),
        runs (options uuid) (drop 1 (handler_argv uuid client_ip)) handler_bin
            (refl, (refl, (refl, tt))) refl,
      )
      (main_arguments-handler_argv uuid client_ip (session_id_length ts rnd) h.0)
