-- ===== src/Examples/Skills.antt =====
-- Examples on the revocations, the resolution of skills and the restore journal.
use Prim.Native.Char.{Char, code}
use vectorhawkd.Base.{
  ℕ, zero, ◌≡◌, refl, ◌⊎◌, String, Bool, true, false, not, ◌||◌, ◌&&◌, Option, none, some, List, [],
  ◌∷◌, ◌++◌, arith, any, keep, leb, ltb, eqb, if◌then◌else◌, ◌==◌, Result, ok, err, is_ok,
}
use vectorhawkd.Base
use vectorhawkd.Base.Json.{Json, null}
use vectorhawkd.Base.Texts
use vectorhawkd.Base.Paths.{from_text, join}
use vectorhawkd.Revocation.{Row, RevocationEntry, norm, replace_all, is_revoked}
use vectorhawkd.Revocation.Sync.{names, replace_all-is_revoked, replace_all-duplicate}
use vectorhawkd.Resolver.{Host, Policy, resolve_skill, default_active}
use vectorhawkd.Resolver.Permit.{IsPermitted, resolve_skill-IsPermitted}
use vectorhawkd.Journal.{
  Bytes, JournalEntry, JournalOp, JournalSource, missing, JournalError, salvage, append,
  read_entries_unlocked,
}
use vectorhawkd.Journal.Log.{append_lem}
use vectorhawkd.Journal.Objects.{quoted, char, escaped, last, done}
use vectorhawkd.Journal.Salvage.{Part, bytes_of, entries_of, salvage_lem}

abbrev is_space : Char → Bool
is_space c = eqb (code c) 32

abbrev bad_release : Row
bad_release = record { artifact_type = "skill"; artifact_key = "review"; version = "1.0.0" }

abbrev revoked_skill : String → Option String → RevocationEntry
revoked_skill key version = record {
  artifact_type = "skill";
  artifact_key = key;
  version = version;
}

abbrev two_entries : List RevocationEntry
two_entries = revoked_skill "review" none ∷ (revoked_skill "draft" (some "2.0.0") ∷ [])

replace_all-is_revoked_example :
    ((replace_all is_space (bad_release ∷ []) two_entries).1 ≡ ok tt)
    × ((t k : String) (v : Option String)
        → is_revoked is_space (replace_all is_space (bad_release ∷ []) two_entries).0 t k v
          ≡ names is_space two_entries t k v)
unfolding norm Texts.trim_start Texts.trim_end
replace_all-is_revoked_example =
    replace_all-is_revoked is_space (bad_release ∷ []) two_entries (refl, (refl, tt))

replace_all-duplicate_example :
    let entries = revoked_skill "review" none ∷ (revoked_skill "review" (some "") ∷ []) in
    ((replace_all is_space (bad_release ∷ []) entries).0 ≡ bad_release ∷ [])
    × (is_ok (replace_all is_space (bad_release ∷ []) entries).1 ≡ false)
unfolding norm Texts.trim_start Texts.trim_end
replace_all-duplicate_example =
    replace_all-duplicate is_space (bad_release ∷ []) [] [] [] (revoked_skill "review" none)
      (revoked_skill "review" (some "")) refl

-- Versions as numbers, of which the text "2" is one.
abbrev read_version : String → Option ℕ
read_version text = if text == "2" then some 2 else none

abbrev strict : Policy read_version ltb
strict = record (default_active read_version ltb "review") { minimum_allowed_version = some 2 }

abbrev machine : Host read_version ltb
machine = record {
  bundle = λ path. none;
  rows = ok (("review", ("2", "skills")) ∷ []);
  policy_of = λ skill. ok strict;
}

resolve_skill-IsPermitted_example :
    IsPermitted read_version ltb machine "review" "2" (join (from_text "skills") "active")
unfolding resolve_skill Base.lookup default_active
resolve_skill-IsPermitted_example =
    resolve_skill-IsPermitted read_version ltb machine "review" "review" "2" none
      (join (from_text "skills") "active") refl

abbrev note : JournalEntry
note = record {
  op = JournalOp.file_replace;
  ts = "2026-07-19T12:00:00Z";
  source = JournalSource.native;
  slug = none;
  client = none;
  target_path = "/home/skills";
  backup_path = none;
  detail = null;
}

abbrev reads_note : Bytes → Option JournalEntry
reads_note text = some note

-- A space, an object whose one string holds a closing brace and an escaped quote, and a tail.
abbrev one_part : List Part
one_part = (32 ∷ [], quoted (char 125 (escaped 34 last)) done) ∷ []

salvage_lem_example :
    salvage reads_note zero (bytes_of one_part (123 ∷ []))
    ≡ entries_of reads_note one_part (salvage reads_note zero (123 ∷ []))
salvage_lem_example =
    salvage_lem reads_note one_part (123 ∷ []) ((refl, tt), ((refl, refl, tt), tt), tt)

-- A serde_json that knows one journal.
abbrev one_array : Bytes → Option (List Json)
one_array text = some (null ∷ [])

abbrev one_value : Json → Option JournalEntry
one_value value = some note

abbrev rendered : List JournalEntry → Bytes
rendered entries = 91 ∷ (93 ∷ [])

abbrev never_blank : Bytes → Bool
never_blank text = false

abbrev as_null : JournalEntry → Json
as_null e = null

append_lem_example :
    let after = append one_array one_value reads_note rendered never_blank true true missing note in
    ((true && true ≡ true)
      → (after.1 ≡ ok tt)
        × (read_entries_unlocked one_array one_value reads_note rendered never_blank after.0
            ≡ note ∷ []))
    × ((true && true ≡ false) → (after.0 ≡ missing) × ((e : JournalError) × (after.1 ≡ err e)))
unfolding read_entries_unlocked
append_lem_example =
    append_lem one_array one_value reads_note rendered never_blank as_null missing note true true
      (refl, refl, (refl, tt))
