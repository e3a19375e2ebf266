-- ===== src/Revocation/Sync.antt =====
-- What the cache holds after a snapshot's list replaced it.
use Prim.Native.Char.{Char}
use vectorhawkd.Base.{
  ◌≡◌, ◌∙◌, refl, String, Bool, true, false, ◌||◌, Option, List, [], ◌∷◌, ◌++◌, any, Result, ok,
  err, is_ok, Bool-cases, inl, inr,
}
use vectorhawkd.Revocation.{
  RevocationEntry, Table, SyncError, committed, same_row, norm, entry_row, insert_row, insert_all,
  replace_all, is_revoked,
}
use vectorhawkd.Revocation.Gate.{stops}

or_swap : (a b c : Bool) → (b || (a || c)) ≡ ((a || b) || c)
or_swap true true c = refl
or_swap true false c = refl
or_swap false true c = refl
or_swap false false c = refl

or_none : (a : Bool) → (a || false) ≡ a
or_none true = refl
or_none false = refl

or_absorb : (a b : Bool) → b ≡ true → (a || b) ≡ true
or_absorb true b h = refl
or_absorb false b h = h

module _ (is_whitespace : Char → Bool) where
  -- Each entry's row differs from those of the table and of the entries before it.
  abbrev pub IsNew : Table → List RevocationEntry → Type 0
  IsNew table [] = Unit
  IsNew table (e ∷ entries) =
      (any (same_row (entry_row is_whitespace e)) table ≡ false)
      × IsNew (entry_row is_whitespace e ∷ table) entries

  -- Some entry names the artifact, for all versions or for the given one.
  abbrev pub names : List RevocationEntry → String → String → Option String → Bool
  names entries t k v =
      any (λ e. stops t k (norm is_whitespace v) (entry_row is_whitespace e)) entries

  insert_all-new :
      (table : Table) (entries : List RevocationEntry)
      → IsNew table entries
      → (next : Table) × (insert_all is_whitespace table entries ≡ ok next)
        × ((t k : String) (v : Option String)
            → is_revoked is_whitespace next t k v
              ≡ (names entries t k v || is_revoked is_whitespace table t k v))
  unfolding insert_all insert_row is_revoked
  insert_all-new table [] new = (table, refl, λ t k v. refl)
  insert_all-new table (e ∷ entries) (fresh, new) =
      let ih = insert_all-new (entry_row is_whitespace e ∷ table) entries new in
      (
        ih.0,
        rw fresh ih.1,
        λ t k v. rw (ih.2 t k v) (
            or_swap (stops t k (norm is_whitespace v) (entry_row is_whitespace e))
              (names entries t k v) (any (stops t k (norm is_whitespace v)) table)),
      )

  -- After a snapshot's list, whose rows all differ, exactly the artifacts that the list names
  -- are held back, whatever the cache held before.
  pub replace_all-is_revoked :
      (table : Table) (entries : List RevocationEntry)
      → IsNew [] entries
      → ((replace_all is_whitespace table entries).1 ≡ ok tt)
        × ((t k : String) (v : Option String)
            → is_revoked is_whitespace (replace_all is_whitespace table entries).0 t k v
              ≡ names entries t k v)
  unfolding replace_all is_revoked
  replace_all-is_revoked table entries new =
      let all = insert_all-new [] entries new in
      (rw all.1, λ t k v. rw all.1 (all.2 t k v ∙ or_none (names entries t k v)))

  keeps_old :
      (table : Table) (r : Result SyncError Table)
      → is_ok r ≡ false
      → ((committed table r).0 ≡ table) × (is_ok (committed table r).1 ≡ false)
  keeps_old table (ok next) h = cc
  keeps_old table (err e) h = (refl, refl)

  insert_all-taken :
      (table : Table) (between after : List RevocationEntry) (f : RevocationEntry)
      → any (same_row (entry_row is_whitespace f)) table ≡ true
      → is_ok (insert_all is_whitespace table (between ++ f ∷ after)) ≡ false
  unfolding insert_all insert_row
  insert_all-taken table [] after f taken = rw taken
  insert_all-taken table (e ∷ between) after f taken =
      elim (Bool-cases (any (same_row (entry_row is_whitespace e)) table)) [
        | inl stop ↦ rw stop
        | inr fresh ↦ rw fresh (
            insert_all-taken (entry_row is_whitespace e ∷ table) between after f (
              or_absorb (same_row (entry_row is_whitespace f) (entry_row is_whitespace e)) _ taken))
      ]

  insert_all-duplicate :
      (table : Table) (before between after : List RevocationEntry) (e f : RevocationEntry)
      → same_row (entry_row is_whitespace f) (entry_row is_whitespace e) ≡ true
      → is_ok (insert_all is_whitespace table (before ++ e ∷ (between ++ f ∷ after))) ≡ false
  unfolding insert_all insert_row
  insert_all-duplicate table [] between after e f same =
      elim (Bool-cases (any (same_row (entry_row is_whitespace e)) table)) [
        | inl stop ↦ rw stop
        | inr fresh ↦
            rw fresh
              (insert_all-taken (entry_row is_whitespace e ∷ table) between after f (rw same))
      ]
  insert_all-duplicate table (b ∷ before) between after e f same =
      elim (Bool-cases (any (same_row (entry_row is_whitespace b)) table)) [
        | inl stop ↦ rw stop
        | inr fresh ↦
            rw fresh (
              insert_all-duplicate (entry_row is_whitespace b ∷ table) before between after e f
                same)
      ]

  -- A list in which two entries have the same row, as `None` and an empty version do, is refused
  -- whole: the cache stays as it was.
  pub replace_all-duplicate :
      (table : Table) (before between after : List RevocationEntry) (e f : RevocationEntry)
      → same_row (entry_row is_whitespace f) (entry_row is_whitespace e) ≡ true
      → ((replace_all is_whitespace table (before ++ e ∷ (between ++ f ∷ after))).0 ≡ table)
        × (is_ok (replace_all is_whitespace table (before ++ e ∷ (between ++ f ∷ after))).1 ≡ false)
  unfolding replace_all is_revoked
  replace_all-duplicate table before between after e f same =
      keeps_old table _ (insert_all-duplicate [] before between after e f same)
