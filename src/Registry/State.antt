-- ===== src/Registry/State.antt =====
-- `ConnectionRegistry` and its methods. Each runs under `mutex_`, so it is one step.
use opensmsc.Base.Dict.{Dict, erase, find, insert, or_default}
use opensmsc.Base.{
  ℕ, Bool, Option, Text, [], false, if◌then◌else◌, leb, ltb, none, some, true, u32, ◌+◌, ◌-◌,
}

pub record SessionEntry : Type 0 where
  pub fd : ℕ
  pub client_ip : Text

pub record Registry : Type 0 where
  pub max_per_ip : ℕ
  pub sessions : Dict SessionEntry
  pub ip_counts : Dict ℕ

unfoldable pub create : ℕ → Registry
create max_per_ip = record { max_per_ip = max_per_ip; sessions = []; ip_counts = [] }

-- `auto& cnt = ip_counts_[ip]` makes an entry of 0 where there is none.
unfoldable pub add : Text → ℕ → Text → Registry → Bool × Registry
add uuid fd client_ip r =
    let cnt = or_default (find client_ip r.ip_counts) 0 in
    if leb r.max_per_ip cnt
    then (false, record r { ip_counts = insert client_ip cnt r.ip_counts })
    else (
      true,
      record r {
        sessions = insert uuid (record { fd = fd; client_ip = client_ip }) r.sessions;
        ip_counts = insert client_ip (u32 (cnt + 1)) r.ip_counts;
      },
    )

-- What `claim_fd` and `remove` do to the entry that they found.
unfoldable pub release : Text → SessionEntry → Registry → Registry
release uuid e r =
    let cnt = or_default (find e.client_ip r.ip_counts) 0 in
    record r {
      sessions = erase uuid r.sessions;
      ip_counts = insert e.client_ip (if ltb 0 cnt then cnt - 1 else cnt) r.ip_counts;
    }

unfoldable pub claim_fd : Text → Registry → Option ℕ × Registry
claim_fd uuid r = elim (find uuid r.sessions) [
  | none ↦ (none, r)
  | some e ↦ (some e.fd, release uuid e r)
]

unfoldable pub remove : Text → Registry → Registry
remove uuid r = elim (find uuid r.sessions) [ none ↦ r | some e ↦ release uuid e r ]

unfoldable pub count : Text → Registry → ℕ
count ip r = or_default (find ip r.ip_counts) 0

unfoldable pub set_max_per_ip : ℕ → Registry → Registry
set_max_per_ip max r = record r { max_per_ip = max }
