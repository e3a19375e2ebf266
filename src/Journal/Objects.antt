-- ===== src/Journal/Objects.antt =====
-- Texts of JSON objects, and that `matching_brace` finds their ends.
use vectorhawkd.Base.{
  ℕ, suc, ◌+◌, ◌-◌, ◌≡◌, ◌∙◌, ap, refl, Bool, true, false, some, [], ◌∷◌, length, eqb, arith,
}
use vectorhawkd.Journal.{Bytes, scan, matching_brace}

-- The inside of a JSON string: plain bytes, and bytes behind a backslash.
pub data Quoted : Type 0 where
  last : Quoted
  char escaped : ℕ → Quoted → Quoted

-- The inside of an object: bytes outside of strings, strings and objects.
pub data Inner : Type 0 where
  done : Inner
  byte : ℕ → Inner → Inner
  quoted : Quoted → Inner → Inner
  object : Inner → Inner → Inner

abbrev pub IsQuoted : Quoted → Type 0
IsQuoted last = Unit
IsQuoted (char b q) = (eqb b b'\\' ≡ false) × (eqb b b'"' ≡ false) × IsQuoted q
IsQuoted (escaped b q) = IsQuoted q

abbrev pub IsInner : Inner → Type 0
IsInner done = Unit
IsInner (byte b i) = (eqb b b'"' ≡ false) × (eqb b b'{' ≡ false) × (eqb b b'}' ≡ false) × IsInner i
IsInner (quoted q i) = IsQuoted q × IsInner i
IsInner (object o i) = IsInner o × IsInner i

-- The bytes of the insides, with what follows them.
abbrev pub quoted_onto : Quoted → Bytes → Bytes
quoted_onto last rest = rest
quoted_onto (char b q) rest = b ∷ quoted_onto q rest
quoted_onto (escaped b q) rest = b'\\' ∷ (b ∷ quoted_onto q rest)

abbrev pub inner_onto : Inner → Bytes → Bytes
inner_onto done rest = rest
inner_onto (byte b i) rest = b ∷ inner_onto i rest
inner_onto (quoted q i) rest = b'"' ∷ quoted_onto q (b'"' ∷ inner_onto i rest)
inner_onto (object o i) rest = b'{' ∷ inner_onto o (b'}' ∷ inner_onto i rest)

-- The text of an object.
abbrev pub bytes_of_object : Inner → Bytes
bytes_of_object i = b'{' ∷ inner_onto i (b'}' ∷ [])

abbrev quoted_size : Quoted → ℕ
quoted_size last = 0
quoted_size (char b q) = 1 + quoted_size q
quoted_size (escaped b q) = 2 + quoted_size q

abbrev size : Inner → ℕ
size done = 0
size (byte b i) = 1 + size i
size (quoted q i) = 2 + quoted_size q + size i
size (object o i) = 2 + size o + size i

length-quoted_onto :
    (q : Quoted) (rest : Bytes) → length (quoted_onto q rest) ≡ quoted_size q + length rest
length-quoted_onto last rest = omega arith
length-quoted_onto (char b q) rest = omega (arith, length-quoted_onto q rest)
length-quoted_onto (escaped b q) rest = omega (arith, length-quoted_onto q rest)

length-inner_onto : (i : Inner) (rest : Bytes) → length (inner_onto i rest) ≡ size i + length rest
length-inner_onto done rest = omega arith
length-inner_onto (byte b i) rest = omega (arith, length-inner_onto i rest)
length-inner_onto (quoted q i) rest =
    omega (arith, length-quoted_onto q (b'"' ∷ inner_onto i rest), length-inner_onto i rest)
length-inner_onto (object o i) rest =
    omega (arith, length-inner_onto o (b'}' ∷ inner_onto i rest), length-inner_onto i rest)

-- The loop at another index that is the same number.
scan_at :
    (depth : ℕ) (in_string : Bool) (bytes : Bytes) (i j : ℕ)
    → i ≡ j
    → scan depth in_string false i bytes ≡ scan depth in_string false j bytes
scan_at depth in_string bytes i j same = ap (λ k. scan depth in_string false k bytes) same

-- The loop leaves a string at its quote.
scan_quoted :
    (depth idx : ℕ) (q : Quoted) (rest : Bytes)
    → IsQuoted q
    → scan depth true false idx (quoted_onto q (b'"' ∷ rest))
      ≡ scan depth false false (idx + quoted_size q + 1) rest
unfolding scan
scan_quoted depth idx last rest ok = scan_at depth false rest (suc idx) (idx + 0 + 1) (omega arith)
scan_quoted depth idx (char b q) rest (no_escape, no_quote, more) =
    rw (no_escape, no_quote)
      (scan_quoted depth (suc idx) q rest more
        ∙ scan_at depth false rest _ (idx + (1 + quoted_size q) + 1) (omega arith))
scan_quoted depth idx (escaped b q) rest more =
    scan_quoted depth (suc (suc idx)) q rest more
    ∙ scan_at depth false rest _ (idx + (2 + quoted_size q) + 1) (omega arith)

-- A brace that closes an inner object.
scan_close :
    (depth idx : ℕ) (rest : Bytes)
    → scan (suc (suc depth)) false false idx (b'}' ∷ rest)
      ≡ scan (suc depth) false false (suc idx) rest
unfolding scan
scan_close depth idx rest =
    let less : suc (suc depth) - 1 ≡ suc depth = omega arith in
    let open_still : eqb (suc depth) 0 ≡ false = ground arith in rw less (rw open_still refl)

-- Within an object the loop passes over its inside.
scan_inner :
    (depth idx : ℕ) (i : Inner) (rest : Bytes)
    → IsInner i
    → scan (suc depth) false false idx (inner_onto i rest)
      ≡ scan (suc depth) false false (idx + size i) rest
unfolding scan
scan_inner depth idx done rest ok = scan_at (suc depth) false rest idx (idx + 0) (omega arith)
scan_inner depth idx (byte b i) rest (no_quote, no_open, no_close, more) =
    rw (no_quote, no_open, no_close)
      (scan_inner depth (suc idx) i rest more
        ∙ scan_at (suc depth) false rest _ (idx + (1 + size i)) (omega arith))
scan_inner depth idx (quoted q i) rest (plain, more) =
    scan_quoted (suc depth) (suc idx) q (inner_onto i rest) plain
    ∙ (scan_inner depth (suc idx + quoted_size q + 1) i rest more
        ∙ scan_at (suc depth) false rest _ (idx + (2 + quoted_size q + size i)) (omega arith))
scan_inner depth idx (object o i) rest (inside, more) =
    scan_inner (suc depth) (suc idx) o (b'}' ∷ inner_onto i rest) inside
    ∙ (scan_close depth (suc idx + size o) (inner_onto i rest)
        ∙ (scan_inner depth (suc (suc idx + size o)) i rest more
            ∙ scan_at (suc depth) false rest _ (idx + (2 + size o + size i)) (omega arith)))

-- The brace that closes an object is found.
pub matching_brace-object :
    (i : Inner)
    → IsInner i
    → matching_brace (bytes_of_object i) ≡ some (length (inner_onto i (b'}' ∷ [])))
unfolding matching_brace scan
matching_brace-object i inside =
    scan_inner 0 1 i (b'}' ∷ []) inside ∙ ap some (omega (arith, length-inner_onto i (b'}' ∷ [])))
