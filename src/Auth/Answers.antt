-- ===== src/Auth/Answers.antt =====
-- What the store answers, by the file that it read last.
use opensmsc.Base.Dict.{Dict, find, find-insert}
use opensmsc.Auth.Store.{
  CredentialsStore, Document, Entry, add_entries, add_pair, array, authenticate, authenticate_call,
  load, no_array, open_store, read_table, check_password, reload_call,
}
use opensmsc.Base.{
  Bool-cases, List, Option, Text, [], ap, false, if◌then◌else◌, inl, inr, none, refl, some, sym,
  true, ◌=t=◌, ◌∙◌, ◌∷◌, ◌≡◌,
}

abbrev or_first : Option Text → Option Text → Option Text
or_first (some p) q = some p
or_first none q = q

-- A table with both values gives its password to its system_id.
abbrev pub pair_password : Text → Option Text → Option Text → Option Text
pair_password sid (some s) (some p) = if s =t= sid then some p else none
pair_password sid _ _ = none

abbrev pub entry_password : Text → Option Entry → Option Text
entry_password sid none = none
entry_password sid (some t) = pair_password sid t.system_id t.password

-- The password of a system_id in a file: that of the last complete table with it.
unfoldable pub last_password : Text → List (Option Entry) → Option Text
last_password sid [] = none
last_password sid (e ∷ arr) = or_first (last_password sid arr) (entry_password sid e)

unfoldable pub file_password : Text → Document → Option Text
file_password sid no_array = none
file_password sid (array arr) = last_password sid arr

or_first_assoc : (a b c : Option Text) → or_first (or_first a b) c ≡ or_first a (or_first b c)
or_first_assoc none b c = refl
or_first_assoc (some p) b c = refl

or_first-none : (a : Option Text) → or_first a none ≡ a
or_first-none none = refl
or_first-none (some p) = refl

find-add_pair :
    (sid : Text) (s p : Option Text) (tmp : Dict Text)
    → find sid (add_pair s p tmp) ≡ or_first (pair_password sid s p) (find sid tmp)
unfolding add_pair
find-add_pair sid (some s) (some p) tmp =
    rw (find-insert s sid p tmp)
      (elim (Bool-cases (s =t= sid)) [ inl e ↦ rw e refl | inr e ↦ rw e refl ])
find-add_pair sid (some s) none tmp = refl
find-add_pair sid none p tmp = refl

find-add_entries :
    (sid : Text) (arr : List (Option Entry)) (tmp : Dict Text)
    → find sid (add_entries arr tmp) ≡ or_first (last_password sid arr) (find sid tmp)
unfolding add_entries last_password
find-add_entries sid [] tmp = refl
find-add_entries sid (none ∷ arr) tmp =
    rw (or_first-none (last_password sid arr)) (find-add_entries sid arr tmp)
find-add_entries sid (some t ∷ arr) tmp =
    find-add_entries sid arr (add_pair t.system_id t.password tmp)
    ∙ ap (or_first (last_password sid arr)) (find-add_pair sid t.system_id t.password tmp)
    ∙ sym (
        or_first_assoc (last_password sid arr) (pair_password sid t.system_id t.password)
          (find sid tmp))

pub find-read_table : (sid : Text) (d : Document) → find sid (read_table d) ≡ file_password sid d
unfolding read_table file_password find
find-read_table sid no_array = refl
find-read_table sid (array arr) =
    find-add_entries sid arr [] ∙ or_first-none (last_password sid arr)

-- The store after a series of reloads, of which some may fail.
unfoldable pub reload_all : List (Option Document) → CredentialsStore → CredentialsStore
reload_all [] s = s
reload_all (tbl ∷ tbls) s = reload_all tbls (reload_call tbl s).1

-- The file that was parsed last.
abbrev pub last_read : List (Option Document) → Document → Document
last_read [] d = d
last_read (none ∷ tbls) d = last_read tbls d
last_read (some tbl ∷ tbls) d = last_read tbls tbl

pub reload_all_credentials :
    (tbls : List (Option Document)) (d : Document) (s : CredentialsStore)
    → s.credentials ≡ read_table d
    → (reload_all tbls s).credentials ≡ read_table (last_read tbls d)
unfolding reload_all reload_call load
reload_all_credentials [] d s e = e
reload_all_credentials (none ∷ tbls) d s e = reload_all_credentials tbls d s e
reload_all_credentials (some tbl ∷ tbls) d s e =
    reload_all_credentials tbls tbl (record s { credentials = read_table tbl }) refl

checked :
    (password : Text) (o : Option Text)
    → check_password password o ≡ (elim o [
      | none ↦ (false, 15)
      | some expected ↦ if expected =t= password then (true, 0) else (false, 14)
    ])
checked password none = refl
checked password (some expected) = refl

pub find-store :
    (path : Text) (d : Document) (tbls : List (Option Document)) (s : CredentialsStore) (sid : Text)
    → open_store path (some d) ≡ some s
    → find sid (reload_all tbls s).credentials ≡ file_password sid (last_read tbls d)
unfolding open_store load
find-store path d tbls s sid h =
    let e : read_table d ≡ s.credentials =
      ap (λ o. elim o [ none ↦ [] | some c ↦ c.credentials ]) h in
    rw (reload_all_credentials tbls d s (sym e)) (find-read_table sid (last_read tbls d))

-- A store that was opened on a file and reloaded any number of times, whether or not the file could be
-- parsed, answers from the file that was parsed last: status 15 for a system_id without a complete table
-- there, 14 where the password differs from that of the last such table, and success otherwise.
pub authenticate_lem :
    (path : Text) (d : Document) (tbls : List (Option Document)) (s : CredentialsStore)
    (uuid sid password ip : Text)
    → open_store path (some d) ≡ some s
    → authenticate_call uuid sid password ip (reload_all tbls s)
      ≡ (elim (file_password sid (last_read tbls d)) [
        | none ↦ (false, 15)
        | some expected ↦ if expected =t= password then (true, 0) else (false, 14)
      ])
unfolding authenticate_call authenticate
authenticate_lem path d tbls s uuid sid password ip h =
    rw (find-store path d tbls s sid h) (checked password (file_password sid (last_read tbls d)))
