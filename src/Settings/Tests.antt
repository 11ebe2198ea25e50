-- ===== src/Settings/Tests.antt =====
-- A concrete file and what it sets.
use opensmsc.Settings.State.{Tables, configured}
use opensmsc.Base.{none, some, ◌-◌, ◌^◌, refl, ◌≡◌}

-- A [server] table with a port and an int64_t of -1, and no other table.
abbrev file : Tables
file = record {
  server_table =
      some
        (record { port_value = some 2776; whitelist_value = none; max_value = some (2 ^ 64 - 1) });
  session_table = none;
  auth_table = none;
  logging_table = none;
}

file_max : (configured file).server.max_connections_per_ip ≡ 2 ^ 32 - 1
unfolding configured
file_max = refl
