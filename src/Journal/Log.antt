-- ===== src/Journal/Log.antt =====
-- The journal as a list of entries: what a later reading gives after each operation.
use vectorhawkd.Base.{
  ◌≡◌, sym, ap, refl, ◌⊎◌, Bool, true, false, not, ◌&&◌, All, Option, some, List, [], ◌∷◌, ◌++◌,
  keep, ok, err, Bool-cases, inl, inr,
}
use vectorhawkd.Base.Json.{Json}
use vectorhawkd.Journal.{
  Bytes, JournalEntry, File, holds, missing, unreadable, JournalError, parse_lenient,
  read_entries_unlocked, append, remove_where, rewrite, outcome_of, readable, lock_failed,
  write_failed,
}

-- A list from which a test picks nothing.
keep_rest :
    (pred : JournalEntry → Bool) (entries : List JournalEntry)
    → keep pred entries ≡ []
    → keep (λ e. not (pred e)) entries ≡ entries
keep_rest pred [] h = refl
keep_rest pred (e ∷ entries) h = elim (Bool-cases (pred e)) [
  | inl picked ↦ let f = rw picked at h in cc
  | inr left ↦ rw left (ap (λ r. e ∷ r) (keep_rest pred entries (rw left at h)))
]

module _ (to_value : JournalEntry → Json) where
  abbrev pub to_values : List JournalEntry → List Json
  to_values [] = []
  to_values (e ∷ entries) = to_value e ∷ to_values entries

  readable-to_values :
      (parse_value : Json → Option JournalEntry) (entries : List JournalEntry)
      → All (λ e. parse_value (to_value e) ≡ some e) entries
      → readable parse_value (to_values entries) ≡ entries
  unfolding readable
  readable-to_values parse_value [] back = refl
  readable-to_values parse_value (e ∷ entries) (one, more) =
      rw one (ap (λ r. e ∷ r) (readable-to_values parse_value entries more))

module _ (parse_array : Bytes → Option (List Json)) (parse_value : Json → Option JournalEntry)
    (parse_entry : Bytes → Option JournalEntry) (render : List JournalEntry → Bytes)
    (is_blank : Bytes → Bool) (to_value : JournalEntry → Json) where
  -- serde_json reads back what it wrote: the text of the entries is that of an array of their
  -- values, it is not blank, and each value reads as its entry.
  abbrev pub IsReadBack : List JournalEntry → Type 0
  IsReadBack entries =
      (parse_array (render entries) ≡ some (to_values to_value entries))
      × (is_blank (render entries) ≡ false)
      × All (λ e. parse_value (to_value e) ≡ some e) entries

  parse_lenient-render :
      (entries : List JournalEntry)
      → IsReadBack entries
      → parse_lenient parse_array parse_value parse_entry render is_blank (render entries) ≡ entries
  unfolding parse_lenient
  parse_lenient-render entries (parses, solid, back) =
      rw (solid, parses) (readable-to_values to_value parse_value entries back)

  abbrev pub entries_in : File → List JournalEntry
  entries_in file = read_entries_unlocked parse_array parse_value parse_entry render is_blank file

  -- An append whose lock is taken and whose write goes through adds the entry at the end of what
  -- could be read; any other leaves the file as it was and is an error. The written text is one
  -- that serde_json reads back.
  pub append_lem :
      (file : File) (entry : JournalEntry) (locked written : Bool)
      → IsReadBack (entries_in file ++ entry ∷ [])
      → (let after =
            append parse_array parse_value parse_entry render is_blank locked written file entry in
          ((locked && written ≡ true)
            → (after.1 ≡ ok tt) × (entries_in after.0 ≡ entries_in file ++ entry ∷ []))
          × ((locked && written ≡ false)
              → (after.0 ≡ file) × ((e : JournalError) × (after.1 ≡ err e))))
  unfolding append read_entries_unlocked
  append_lem file entry false written back = (λ h. cc, λ h. (refl, (lock_failed, refl)))
  append_lem file entry true false back = (λ h. cc, λ h. (refl, (write_failed, refl)))
  append_lem file entry true true back =
      (λ h. (refl, parse_lenient-render (entries_in file ++ entry ∷ []) back), λ h. cc)

  rewrite_lem :
      (file : File) (removed kept : List JournalEntry) (written : Bool)
      → (removed ≡ [] → kept ≡ entries_in file)
      → IsReadBack kept
      → (let after = outcome_of parse_array parse_value parse_entry render is_blank removed (
            rewrite parse_array parse_value parse_entry render is_blank written file removed
              kept) in
          ((after.1 ≡ ok removed) × (entries_in after.0 ≡ kept))
          ⊎ ((after.0 ≡ file) × ((e : JournalError) × (after.1 ≡ err e))))
  unfolding read_entries_unlocked
  rewrite_lem file [] kept written h back = inl (refl, sym (h refl))
  rewrite_lem file (e ∷ removed) kept true h back = inl (refl, parse_lenient-render kept back)
  rewrite_lem file (e ∷ removed) kept false h back = inr (refl, (write_failed, refl))

  -- A removal that succeeds returns the entries that the test picks, oldest first, and leaves a
  -- journal of the others; one that fails leaves the journal as it was. The text that would be
  -- written is one that serde_json reads back.
  pub remove_where_lem :
      (pred : JournalEntry → Bool) (file : File) (locked written : Bool)
      → IsReadBack (keep (λ e. not (pred e)) (entries_in file))
      → (let after =
            remove_where parse_array parse_value parse_entry render is_blank pred locked written
              file in
          ((after.1 ≡ ok (keep pred (entries_in file)))
            × (entries_in after.0 ≡ keep (λ e. not (pred e)) (entries_in file)))
          ⊎ ((after.0 ≡ file) × ((e : JournalError) × (after.1 ≡ err e))))
  unfolding remove_where read_entries_unlocked
  remove_where_lem pred missing locked written back = inl (refl, refl)
  remove_where_lem pred unreadable true written back = inl (refl, refl)
  remove_where_lem pred unreadable false written back = inr (refl, (lock_failed, refl))
  remove_where_lem pred (holds text) false written back = inr (refl, (lock_failed, refl))
  remove_where_lem pred (holds text) true written back =
      rewrite_lem (holds text) (keep pred (entries_in (holds text)))
        (keep (λ e. not (pred e)) (entries_in (holds text))) written
        (keep_rest pred (entries_in (holds text))) back
