-- ===== src/Journal.antt =====
-- crates/scenery-core/src/restore_journal.rs: the journal of the changes that an uninstall must
-- undo, and the reading of a file that may be damaged.
pub mod Objects
pub mod Salvage
pub mod Log
use vectorhawkd.Base.{
  ℕ, zero, suc, ◌+◌, ◌-◌, String, Bool, true, false, not, ◌&&◌, Option, none, some, List, [], ◌∷◌,
  ◌++◌, take, keep, eqb, if◌then◌else◌, Result, ok, err,
}
use vectorhawkd.Base.Json.{Json, Fields}

-- The file's text as its bytes.
abbrev pub Bytes : Type 0
Bytes = List ℕ

pub data JournalOp : Type 0 where
  config_edit file_replace file_delete artifact_push : JournalOp

pub data JournalSource : Type 0 where
  brokered managed native adopted : JournalSource

unfoldable pub should_restore : JournalSource → Bool
should_restore JournalSource.native = true
should_restore JournalSource.adopted = true
should_restore _ = false

pub record JournalEntry : Type 0 where
  pub op : JournalOp
  pub ts : String
  pub source : JournalSource
  pub slug : Option String
  pub client : Option String
  pub target_path : String
  pub backup_path : Option String
  pub detail : Json

-- The time of the call is an argument.
unfoldable pub new : (now_iso : String) → JournalOp → JournalSource → String → JournalEntry
new now_iso op source target_path = record {
  op = op;
  ts = now_iso;
  source = source;
  slug = none;
  client = none;
  target_path = target_path;
  backup_path = none;
  detail = Json.object Fields.end;
}

unfoldable pub with_slug : JournalEntry → String → JournalEntry
with_slug e slug = record e { slug = some slug }

unfoldable pub with_client : JournalEntry → String → JournalEntry
with_client e client = record e { client = some client }

unfoldable pub with_backup_path : JournalEntry → String → JournalEntry
with_backup_path e path = record e { backup_path = some path }

unfoldable pub with_detail : JournalEntry → Json → JournalEntry
with_detail e detail = record e { detail = detail }

unfoldable pub with_ts : JournalEntry → String → JournalEntry
with_ts e ts = record e { ts = ts }

-- The loop of `matching_brace` over the bytes that are left, `idx` the index of the first. A
-- brace at `start` keeps `depth` above 0 until the loop ends.
unfoldable pub scan : (depth : ℕ) (in_string escape : Bool) (idx : ℕ) → Bytes → Option ℕ
scan depth in_string escape idx [] = none
scan depth true true idx (b ∷ bytes) = scan depth true false (suc idx) bytes
scan depth true false idx (b ∷ bytes) =
    let escaped = scan depth true true (suc idx) bytes in
    let ended = scan depth false false (suc idx) bytes in
    let inside = scan depth true false (suc idx) bytes in
    if eqb b b'\\' then escaped else if eqb b b'"' then ended else inside
scan depth false escape idx (b ∷ bytes) =
    let quoted = scan depth true escape (suc idx) bytes in
    let opened = scan (suc depth) false escape (suc idx) bytes in
    let closed = scan (depth - 1) false escape (suc idx) bytes in
    let plain = scan depth false escape (suc idx) bytes in
    if eqb b b'"'
    then quoted
    else if eqb b b'{'
    then opened
    else if eqb b b'}'
    then (if eqb (depth - 1) 0 then some idx else closed)
    else plain

-- On the bytes from `start` on; the index counts from there.
unfoldable pub matching_brace : Bytes → Option ℕ
unfolding scan
matching_brace bytes = scan 0 false false 0 bytes

abbrev pub push : Option JournalEntry → List JournalEntry → List JournalEntry
push none entries = entries
push (some e) entries = e ∷ entries

module _ (parse_entry : Bytes → Option JournalEntry) where
  -- The loop of the slow path over the bytes that are left, `skip` those to pass over.
  unfoldable pub salvage : (skip : ℕ) → Bytes → List JournalEntry
  salvage skip [] = []
  salvage (suc skip) (b ∷ rest) = salvage skip rest
  salvage zero (b ∷ rest) =
      let next = salvage zero rest in
      let found : List JournalEntry = elim (matching_brace (b ∷ rest)) [
        | none ↦ next
        | some end ↦ push (parse_entry (take (suc end) (b ∷ rest))) (salvage end rest)
      ] in
      if eqb b b'{' then found else next

module _ (parse_value : Json → Option JournalEntry) where
  unfoldable pub readable : List Json → List JournalEntry
  readable [] = []
  readable (v ∷ values) = push (parse_value v) (readable values)

pub data File : Type 0 where
  missing unreadable : File
  holds : Bytes → File

abbrev exists : File → Bool
exists missing = false
exists _ = true

pub data JournalError : Type 0 where
  lock_failed write_failed : JournalError

-- `parse_array`, `parse_value` and `parse_entry` are serde_json's readers of a file as an array
-- of values, of a value as an entry and of a text as an entry; `render` writes entries; `is_blank`
-- tells a text of white space.
module _ (parse_array : Bytes → Option (List Json)) (parse_value : Json → Option JournalEntry)
    (parse_entry : Bytes → Option JournalEntry) (render : List JournalEntry → Bytes)
    (is_blank : Bytes → Bool) where
  unfoldable pub parse_lenient : Bytes → List JournalEntry
  unfolding salvage readable
  parse_lenient text =
      let slow = salvage parse_entry zero text in
      if is_blank text
      then []
      else elim (parse_array text) [ none ↦ slow | some values ↦ readable parse_value values ]

  -- `read_to_string` refuses a file that may not be read or is not UTF-8.
  unfoldable pub read_entries_unlocked : File → List JournalEntry
  unfolding parse_lenient
  read_entries_unlocked (holds text) = parse_lenient text
  read_entries_unlocked _ = []

  -- The file is replaced by a rename, or stays as it was.
  abbrev pub write_entries_unlocked :
      (written : Bool) → File → List JournalEntry → File × Result JournalError (Unit {0})
  write_entries_unlocked written file entries =
      if written then (holds (render entries), ok tt) else (file, err write_failed)

  -- `locked` says whether the lock was taken, the directory made first, and `written` whether the
  -- write went through.
  unfoldable pub append :
      (locked written : Bool) → File → JournalEntry → File × Result JournalError (Unit {0})
  unfolding read_entries_unlocked
  append locked written file entry =
      if not locked
      then (file, err lock_failed)
      else write_entries_unlocked written file (read_entries_unlocked file ++ entry ∷ [])

  unfoldable pub read_all :
      (lock_exists locked : Bool) → File → Result JournalError (List JournalEntry)
  unfolding read_entries_unlocked
  read_all lock_exists locked file =
      if not lock_exists && not (exists file)
      then ok []
      else if not locked
      then err lock_failed
      else ok (read_entries_unlocked file)

  abbrev pub outcome_of :
      List JournalEntry
      → File × Result JournalError (Unit {0})
      → File × Result JournalError (List JournalEntry)
  outcome_of removed (file, ok done) = (file, ok removed)
  outcome_of removed (file, err e) = (file, err e)

  abbrev pub rewrite :
      (written : Bool)
      → File
      → (removed kept : List JournalEntry) → File × Result JournalError (Unit {0})
  rewrite written file [] kept = (file, ok tt)
  rewrite written file (e ∷ removed) kept = write_entries_unlocked written file kept

  unfoldable pub remove_where :
      (pred : JournalEntry → Bool) (locked written : Bool)
      → File
      → File × Result JournalError (List JournalEntry)
  unfolding read_entries_unlocked
  remove_where pred locked written file =
      if not (exists file)
      then (file, ok [])
      else if not locked
      then (file, err lock_failed)
      else (let entries = read_entries_unlocked file in
          let removed = keep pred entries in
          let kept = keep (λ e. not (pred e)) entries in
          outcome_of removed (rewrite written file removed kept))
