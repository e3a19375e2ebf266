-- ===== src/Aggregator/Names/Sanitize.antt =====
-- What `sanitize_id` returns.
use Prim.Native.Char.{Char}
use Prim.Native.String.{[], ◌∷◌}
use text.Mathlib.TextLemmas.{cons-append}
use vectorhawkd.Base.Texts.{trim_start, trim_end}
use vectorhawkd.Base.{
  String, Bool, ◌≡◌, ◌≢◌, refl, some, arith, ◌==◌, eq_iff, Bool-cases, inl, inr, false, true, ◌&&◌,
}
use vectorhawkd.Aggregator.Names.{
  namespace_tool, parse_tool_name, split_separator, is_underscore, is_dash, replace_char,
  replace_chars, sanitize_id,
}
use vectorhawkd.Aggregator.Names.RoundTrip.{IsSeparable, parse_tool_name-namespace_tool}

-- No character of the text is an underscore.
abbrev pub NoUnderscore : String → Type 0
NoUnderscore [] = Unit
NoUnderscore (c ∷ s) = (is_underscore c ≡ false) × NoUnderscore s

trim_start-NoUnderscore : (s : String) → NoUnderscore s → NoUnderscore (trim_start is_dash s)
unfolding trim_start
trim_start-NoUnderscore [] h = tt
trim_start-NoUnderscore (c ∷ s) h = ground (arith, trim_start-NoUnderscore s h.1)

trim_end-NoUnderscore : (s : String) → NoUnderscore s → NoUnderscore (trim_end is_dash s)
unfolding trim_end
trim_end-NoUnderscore [] h = tt
trim_end-NoUnderscore (c ∷ s) h = elim (Bool-cases (is_dash c && trim_end is_dash s == "")) [
  | inl dropped ↦ rw dropped tt
  | inr kept ↦ rw kept (h.0, trim_end-NoUnderscore s h.1)
]

pub NoUnderscore-IsSeparable : (s : String) → NoUnderscore s → IsSeparable s
unfolding split_separator
NoUnderscore-IsSeparable [] h = refl
NoUnderscore-IsSeparable (c ∷ []) h = rw cons-append (ground arith)
NoUnderscore-IsSeparable (c ∷ (d ∷ s)) h =
    let ih = NoUnderscore-IsSeparable (d ∷ s) h.1 in
    rw cons-append (rw cons-append (ground (arith, rw cons-append at ih)))

-- The last character of the text is no dash.
abbrev pub EndsNoDash : String → Type 0
EndsNoDash [] = Unit
EndsNoDash (c ∷ []) = is_dash c ≡ false
EndsNoDash (c ∷ (d ∷ s)) = EndsNoDash (d ∷ s)

-- The first character of the text is no dash.
abbrev pub StartsNoDash : String → Type 0
StartsNoDash [] = Unit
StartsNoDash (c ∷ s) = is_dash c ≡ false

trim_start-StartsNoDash : (s : String) → StartsNoDash (trim_start is_dash s)
unfolding trim_start
trim_start-StartsNoDash [] = tt
trim_start-StartsNoDash (c ∷ s) = ground (arith, trim_start-StartsNoDash s)

trim_end-StartsNoDash : (s : String) → StartsNoDash s → StartsNoDash (trim_end is_dash s)
unfolding trim_end
trim_end-StartsNoDash [] h = tt
trim_end-StartsNoDash (c ∷ s) h = ground arith

EndsNoDash-cons : (c : Char) (s : String) → s ≢ "" → EndsNoDash s → EndsNoDash (c ∷ s)
EndsNoDash-cons c [] n h = absurd (n refl)
EndsNoDash-cons c (d ∷ s) n h = h

trim_end-EndsNoDash : (s : String) → EndsNoDash (trim_end is_dash s)
unfolding trim_end
trim_end-EndsNoDash [] = tt
trim_end-EndsNoDash (c ∷ s) = elim (Bool-cases (trim_end is_dash s == "")) [
  | inl empty ↦ elim (Bool-cases (is_dash c)) [
    | inl dash ↦ rw (dash, empty) tt
    | inr other ↦ rw other (rw ((eq_iff (trim_end is_dash s) "").0 empty) other)
  ]
  | inr rest ↦
      let later =
        EndsNoDash-cons c (trim_end is_dash s)
          (λ e. ground (arith, rest, eq_iff (trim_end is_dash s) "")) (trim_end-EndsNoDash s) in
      elim (Bool-cases (is_dash c)) [
        | inl dash ↦ rw (dash, rest) later
        | inr other ↦ rw other later
      ]
]

module _ (is_alphanumeric : Char → Bool)
    (plain : (c : Char) → is_underscore c ≡ true → is_alphanumeric c ≡ false) where
  replace_char-plain : (c : Char) → is_underscore (replace_char is_alphanumeric c) ≡ false
  replace_char-plain c = elim (Bool-cases (is_alphanumeric c)) [
    | inl letter ↦ rw letter (ground (arith, letter, plain c))
    | inr other ↦ rw other refl
  ]

  replace_chars-NoUnderscore : (s : String) → NoUnderscore (replace_chars is_alphanumeric s)
  unfolding replace_chars
  replace_chars-NoUnderscore [] = tt
  replace_chars-NoUnderscore (c ∷ s) = (replace_char-plain c, replace_chars-NoUnderscore s)

  -- A sanitized id holds no underscore and neither begins nor ends with a dash, if no underscore
  -- is alphanumeric.
  pub sanitize_id-clean :
      (to_lowercase : String → String) (name : String)
      → NoUnderscore (sanitize_id to_lowercase is_alphanumeric name)
        × StartsNoDash (sanitize_id to_lowercase is_alphanumeric name)
        × EndsNoDash (sanitize_id to_lowercase is_alphanumeric name)
  unfolding sanitize_id
  sanitize_id-clean to_lowercase name =
      let raw = replace_chars is_alphanumeric (to_lowercase name) in
      (
        trim_end-NoUnderscore (trim_start is_dash raw)
            (trim_start-NoUnderscore raw (replace_chars-NoUnderscore (to_lowercase name))),
        trim_end-StartsNoDash (trim_start is_dash raw) (trim_start-StartsNoDash raw),
        trim_end-EndsNoDash (trim_start is_dash raw),
      )

  -- A tool of a server whose id was sanitized and is not empty parses back from its surfaced name.
  pub parse_tool_name-sanitize_id :
      (to_lowercase : String → String) (name tool : String)
      → sanitize_id to_lowercase is_alphanumeric name ≢ ""
      → tool ≢ ""
      → parse_tool_name (namespace_tool (sanitize_id to_lowercase is_alphanumeric name) tool)
        ≡ some (sanitize_id to_lowercase is_alphanumeric name, tool)
  parse_tool_name-sanitize_id to_lowercase name tool =
      parse_tool_name-namespace_tool _ tool
        (NoUnderscore-IsSeparable _ (sanitize_id-clean to_lowercase name).0)
