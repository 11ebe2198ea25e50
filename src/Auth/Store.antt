-- ===== src/Auth/Store.antt =====
-- `CredentialsStore` and `AuthService`. The TOML library is not in the repository: `load` takes what
-- `toml::parse_file` gives for the file as it is then, or `none` where it throws. The locks let one
-- thread at a time see the credentials, so a call is one step.
use opensmsc.Base.{
  Bool, List, Option, Text, [], false, if◌then◌else◌, none, some, true, ℕ, ◌=t=◌, ◌∷◌,
}
use opensmsc.Base.Dict.{Dict, find, insert}

-- A table of the array, by its two values: each is missing, or is no string, or is a text.
pub record Entry : Type 0 where
  pub system_id : Option Text
  pub password : Option Text

-- The parsed file, by its value at `credentials`: not an array, or the elements, of which some may
-- not be tables.
pub data Document : Type 0 where
  no_array : Document
  array : List (Option Entry) → Document

abbrev pub ok_code : ℕ
ok_code = 0x0000_0000

abbrev pub esme_rinvsysid : ℕ
esme_rinvsysid = 0x0000_000F

abbrev pub esme_rinvpaswd : ℕ
esme_rinvpaswd = 0x0000_000E

pub record CredentialsStore : Type 0 where
  pub path : Text
  pub credentials : Dict Text

-- `if (sid && pwd) tmp[*sid] = *pwd`
unfoldable pub add_pair : Option Text → Option Text → Dict Text → Dict Text
add_pair (some sid) (some pwd) tmp = insert sid pwd tmp
add_pair _ _ tmp = tmp

-- The loop of `load`.
unfoldable pub add_entries : List (Option Entry) → Dict Text → Dict Text
add_entries [] tmp = tmp
add_entries (none ∷ arr) tmp = add_entries arr tmp
add_entries (some t ∷ arr) tmp = add_entries arr (add_pair t.system_id t.password tmp)

unfoldable pub read_table : Document → Dict Text
read_table no_array = []
read_table (array arr) = add_entries arr []

-- Whether the call returned, and the store after it.
unfoldable pub load : Option Document → CredentialsStore → Bool × CredentialsStore
load none s = (false, s)
load (some tbl) s = (true, record s { credentials = read_table tbl })

-- The constructor, which throws where `load` does.
unfoldable pub open_store : Text → Option Document → Option CredentialsStore
open_store toml_path tbl =
    let (returned, s) = load tbl (record { path = toml_path; credentials = [] }) in
    if returned then some s else none

abbrev pub reload : Option Document → CredentialsStore → Bool × CredentialsStore
reload tbl s = load tbl s

-- `authenticate` behind its `find`.
abbrev pub check_password : Text → Option Text → Bool × ℕ
check_password password none = (false, esme_rinvsysid)
check_password password (some expected) =
    if expected =t= password then (true, ok_code) else (false, esme_rinvpaswd)

unfoldable pub authenticate : Text → Text → CredentialsStore → Bool × ℕ
authenticate system_id password s = check_password password (find system_id s.credentials)

-- The D-Bus method: uuid and address are only logged.
unfoldable pub authenticate_call : Text → Text → Text → Text → CredentialsStore → Bool × ℕ
authenticate_call uuid system_id password source_ip s = authenticate system_id password s

-- The D-Bus method: an exception of `reload` goes to the caller as an error.
unfoldable pub reload_call : Option Document → CredentialsStore → Bool × CredentialsStore
reload_call tbl s = reload tbl s
