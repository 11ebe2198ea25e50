-- ===== src/Startup/Launched.antt =====
-- The handler that the server launches (SMPPServer/src/tcp_server.cpp, session_launcher.cpp and
-- include/session_id.hpp), on the bus: SmppClientHandler/src/main.cpp.
use opensmsc.Startup.Process.{exit_failure, exited}
use opensmsc.Startup.Others.{handler_main_lem}
use opensmsc.Startup.Mains.{Host, handler_main}
use opensmsc.Accept.Launch.{build_launch_command, starts_with}
use opensmsc.Accept.SessionId.{generate_session_id, session_id_digit}
use opensmsc.Accept.Words.{IsOption, IsWord, join, launch_arguments}
use opensmsc.Base.{
  All, List, Text, drop, ℕ, ◌++◌, ◌<◌, ◌∷◌, ◌≡◌, ◌≤◌, Bool, false, refl, ◌*◌, ◌^◌, ◌∙◌, text,
}

-- The last element of the name that the handler asks for begins with a digit.
unnamed :
    (connects : Text → Bool)
    → ((front s : Text) (c : ℕ) → b'0' ≤ c → c ≤ b'9' → connects (front ++ (b'.' ∷ c ∷ s)) ≡ false)
    → (ts rnd : ℕ) → ts < 10 * 2 ^ 44
    → connects (text "com.telecom.smpp.Client." ++ generate_session_id ts rnd) ≡ false
unnamed connects refuses ts rnd h =
    let (c, s, e, lo, hi) = session_id_digit ts rnd h in
    rw e (refuses (text "com.telecom.smpp.Client") s c lo hi)

-- Before the year 7500, on a bus that refuses every name with an element that begins with a digit, as
-- D-Bus does: the handler that the server launches for a connection, whatever its random bits and its
-- plain address, ends with EXIT_FAILURE. The shell is to split plain words at blanks, and `systemd-run` to
-- run what stands behind its options.
pub launched_handler_fails :
    (shell : Text → List Text) (systemd_run : List Text → List Text) (w : Host)
    → ((ws : List Text) → All IsWord ws → shell (join ws) ≡ ws)
    → ((opts argv : List Text) (program : Text)
        → All IsOption opts
        → starts_with (text "-") program ≡ false
        → systemd_run (opts ++ (program ∷ argv)) ≡ program ∷ argv)
    → ((front s : Text) (c : ℕ)
        → b'0' ≤ c
        → c ≤ b'9'
        → w.connects (front ++ (b'.' ∷ c ∷ s)) ≡ false)
    → (ts rnd : ℕ) (client_ip : Text) → ts < 10 * 2 ^ 44
    → IsWord client_ip
    → let command = build_launch_command (generate_session_id ts rnd) client_ip in
      handler_main w (systemd_run (drop 1 (shell command))) ≡ exited exit_failure
launched_handler_fails shell systemd_run w splits runs refuses ts rnd client_ip h word =
    let command = build_launch_command (generate_session_id ts rnd) client_ip in
    handler_main_lem w (systemd_run (drop 1 (shell command)))
    ∙ rw
        (
          launch_arguments shell systemd_run splits runs ts rnd client_ip word,
          unnamed w.connects refuses ts rnd h,
        )
        refl
