-- ===== src/Journal/Salvage.antt =====
-- What the salvage of a damaged file keeps.
use vectorhawkd.Base.{
  ℕ, zero, suc, ◌-◌, ◌≡◌, ◌∙◌, ap, refl, Bool, true, false, Option, some, List, [], ◌∷◌, ◌++◌, take,
  length, eqb, arith,
}
use vectorhawkd.Journal.Objects.{Inner, IsInner, bytes_of_object, matching_brace-object}
use vectorhawkd.Journal.{Bytes, JournalEntry, scan, matching_brace, salvage, push}

-- A brace that is found is found whatever follows.
scan-append :
    (depth : ℕ) (in_string escape : Bool) (idx : ℕ) (xs ys : Bytes) (n : ℕ)
    → scan depth in_string escape idx xs ≡ some n
    → scan depth in_string escape idx (xs ++ ys) ≡ some n
unfolding scan
scan-append depth in_string escape idx [] ys n e = cc
scan-append depth true true idx (b ∷ xs) ys n e = scan-append depth true false (suc idx) xs ys n e
scan-append depth true false idx (b ∷ xs) ys n e = ground (
  arith,
  e,
  scan-append depth true true (suc idx) xs ys n,
  scan-append depth false false (suc idx) xs ys n,
  scan-append depth true false (suc idx) xs ys n,
)
scan-append depth false escape idx (b ∷ xs) ys n e = ground (
  arith,
  e,
  scan-append depth true escape (suc idx) xs ys n,
  scan-append (suc depth) false escape (suc idx) xs ys n,
  scan-append (depth - 1) false escape (suc idx) xs ys n,
  scan-append depth false escape (suc idx) xs ys n,
)

matching_brace-append :
    (xs ys : Bytes) (n : ℕ) → matching_brace xs ≡ some n → matching_brace (xs ++ ys) ≡ some n
unfolding matching_brace
matching_brace-append xs ys n e = scan-append 0 false false 0 xs ys n e

take-append : (xs ys : Bytes) → take (length xs) (xs ++ ys) ≡ xs
take-append [] ys = refl
take-append (x ∷ xs) ys = ap (λ r. x ∷ r) (take-append xs ys)

-- No byte is an opening brace.
abbrev pub IsPlain : Bytes → Type 0
IsPlain [] = Unit
IsPlain (b ∷ bytes) = (eqb b b'{' ≡ false) × IsPlain bytes

-- A text from an opening brace to the one that is found for it.
abbrev IsObject : Bytes → Type 0
IsObject [] = ⊥
IsObject (b ∷ bytes) = (eqb b b'{' ≡ true) × (matching_brace (b ∷ bytes) ≡ some (length bytes))

-- A part of the file: what stands before an object, and the inside of the object.
abbrev pub Part : Type 0
Part = Bytes × Inner

abbrev pub bytes_of : List Part → Bytes → Bytes
bytes_of [] tail = tail
bytes_of ((before, inside) ∷ parts) tail = before ++ (bytes_of_object inside ++ bytes_of parts tail)

abbrev pub AreParts : List Part → Type 0
AreParts [] = Unit
AreParts ((before, inside) ∷ parts) = IsPlain before × IsInner inside × AreParts parts

module _ (parse_entry : Bytes → Option JournalEntry) where
  salvage-skip :
      (xs ys : Bytes) → salvage parse_entry (length xs) (xs ++ ys) ≡ salvage parse_entry zero ys
  unfolding salvage
  salvage-skip [] ys = refl
  salvage-skip (x ∷ xs) ys = salvage-skip xs ys

  salvage-plain :
      (xs ys : Bytes)
      → IsPlain xs
      → salvage parse_entry zero (xs ++ ys) ≡ salvage parse_entry zero ys
  unfolding salvage
  salvage-plain [] ys plain = refl
  salvage-plain (x ∷ xs) ys (other, plain) = rw other (salvage-plain xs ys plain)

  salvage-object :
      (object tail : Bytes)
      → IsObject object
      → salvage parse_entry zero (object ++ tail)
        ≡ push (parse_entry object) (salvage parse_entry zero tail)
  unfolding salvage
  salvage-object [] tail h = absurd h
  salvage-object (b ∷ object) tail (brace, ends) = rw (
    brace,
    matching_brace-append (b ∷ object) tail (length object) ends,
    take-append object tail,
    salvage-skip object tail,
  )

  abbrev pub entries_of : List Part → List JournalEntry → List JournalEntry
  entries_of [] rest = rest
  entries_of ((before, inside) ∷ parts) rest =
      push (parse_entry (bytes_of_object inside)) (entries_of parts rest)

  -- From a file that begins with whole objects, with no opening brace before or between them, the
  -- salvage keeps every one of them that reads as an entry, in order, whatever tail follows the
  -- last. An object may hold strings, with any braces and escapes in them, and other objects.
  pub salvage_lem :
      (parts : List Part) (tail : Bytes)
      → AreParts parts
      → salvage parse_entry zero (bytes_of parts tail)
        ≡ entries_of parts (salvage parse_entry zero tail)
  salvage_lem [] tail h = refl
  salvage_lem ((before, inside) ∷ parts) tail (plain, whole, more) =
      let object = bytes_of_object inside in
      salvage-plain before (object ++ bytes_of parts tail) plain
      ∙ (salvage-object object (bytes_of parts tail) (refl, matching_brace-object inside whole)
          ∙ ap (push (parse_entry object)) (salvage_lem parts tail more))
