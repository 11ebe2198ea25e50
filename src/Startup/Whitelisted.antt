-- ===== src/Startup/Whitelisted.antt =====
-- From the file of the option --ip-config to the sessions that the server lists.
use opensmsc.Base.Dict.{find}
use opensmsc.Validator.Whitelist.{Answers32, load_config_allows, some_line_allows}
use opensmsc.Validator.State.{Validator, is_allowed, load_config}
use opensmsc.Startup.Mains.{Host, loaded_lines, new_server}
use opensmsc.Accept.Admitted.{Event, IsFrom, happen, happen_allowed}
use opensmsc.Service.State.{SessionInfo, create_service}
use opensmsc.Base.{
  All, Bool-cases, List, Option, Text, ap, arith, inl, inr, refl, some, sym, true, ℕ, ◌∙◌, ◌≡◌,
}

module _ (inet_pton : Text → Option ℕ) where
  loaded_lines-load_config :
      (lines : List Text) (v : Validator)
      → loaded_lines inet_pton (some lines) ≡ some v
      → ((load_config inet_pton lines).0 ≡ true) × ((load_config inet_pton lines).1 ≡ v)
  loaded_lines-load_config lines v e = elim (Bool-cases (load_config inet_pton lines).0) [
    | inl ok ↦ (ok, ground arith)
    | inr bad ↦ ground arith
  ]

  -- The server has loaded its whitelist from a file with these lines, and inet_pton answers addresses of 32
  -- bits. Whatever connections it accepts and whatever calls come by D-Bus but those that register a
  -- session, in any order: every session that it lists has an address that a line of the file allows.
  pub happen_whitelisted :
      (path : Text) (w : Host) (lines : List Text) (v : Validator)
      → w.lines_of path ≡ some lines
      → loaded_lines inet_pton (w.lines_of path) ≡ some v
      → Answers32 inet_pton
      → (events : List Event) (uuid : Text) (session : SessionInfo) → All IsFrom events
      → find uuid (happen inet_pton events (new_server v)).service.sessions ≡ some session
      → some_line_allows inet_pton session.client_ip lines ≡ true
  unfolding create_service
  happen_whitelisted path w lines v read loaded answers events uuid session from listed =
      let (ok, same) =
        loaded_lines-load_config lines v (ap (loaded_lines inet_pton) (sym read) ∙ loaded) in
      sym (load_config_allows inet_pton session.client_ip lines answers ok)
      ∙ ap (is_allowed inet_pton session.client_ip) same
      ∙ happen_allowed inet_pton events (new_server v) uuid session refl from listed
