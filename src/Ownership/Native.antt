-- ===== src/Ownership/Native.antt =====
-- What `is_anthropic_native_in` protects.
use vectorhawkd.Base.{
  String, ◌≡◌, refl, ◌↔◌, ◌⊎◌, inl, inr, Bool, true, false, ◌||◌, not, Option, none, some, arith,
  Bool-cases, Option-cases, or_iff, ap, eq_iff, if◌then◌else◌,
}
use vectorhawkd.Base.Json.{
  Json, null, boolean, number, string, array, object, Fields, end, field, get, as_str,
}
use vectorhawkd.Base.Paths.{FilePath, from_text, join, join_path, starts_with}
use vectorhawkd.Ownership.{
  is_official, is_protected_by, is_protected_by_any, is_anthropic_native_in, below_location,
  marketplace_install_location, protected_or_unknown, marketplace_repo, is_text, ◌>>=◌,
  anthropic_official_repo,
}

-- The record of a marketplace names the repository of Anthropic as its source.
abbrev pub IsOfficial : Json → Type 0
IsOfficial entry =
    (source : Json) × (get "source" entry ≡ some source)
    × (get "repo" source ≡ some (string "anthropics/claude-plugins-official"))

-- The path lies where the record says that the marketplace was installed.
abbrev pub IsInstalledAbove : FilePath → Json → Type 0
IsInstalledAbove path entry =
    (location : String) × (get "installLocation" entry ≡ some (string location))
    × (starts_with path (from_text location) ≡ true)

-- The path lies in the tree of an official marketplace, where it was installed or where it is
-- cloned by convention.
abbrev pub IsProtectedBy : FilePath → FilePath → String → Json → Type 0
IsProtectedBy path dir name entry =
    IsOfficial entry
    × (IsInstalledAbove path entry ⊎ (starts_with path (join_path dir (from_text name)) ≡ true))

-- Some of the known marketplaces protects the path.
abbrev pub IsProtected : FilePath → FilePath → Fields → Type 0
IsProtected path dir end = ⊥
IsProtected path dir (field name entry rest) =
    IsProtectedBy path dir name entry ⊎ IsProtected path dir rest

text_of :
    (found : Option Json) (text : String)
    → is_text text (found >>= as_str) ≡ true
    → found ≡ some (string text)
text_of none text h = cc
text_of (some null) text h = cc
text_of (some (boolean b)) text h = cc
text_of (some (number n)) text h = cc
text_of (some (string s)) text h = ap (λ t. some (string t)) ((eq_iff s text).0 h)
text_of (some (array items)) text h = cc
text_of (some (object fields)) text h = cc

is_official_iff : (entry : Json) → (is_official entry ≡ true) ↔ IsOfficial entry
unfolding is_official marketplace_repo
is_official_iff entry = elim (Option-cases (get "source" entry)) [
  | inl absent ↦ (λ h. ground (arith, absent, h), λ h. cc)
  | inr (source, there) ↦ (
    λ h. (source, there, text_of (get "repo" source) anthropic_official_repo (rw there at h)),
    λ h. rw (h.1, h.2) refl,
  )
]

abbrev location_of : Option Json → Option FilePath
location_of found = found >>= λ v. as_str v >>= λ text. some (from_text text)

located :
    (path : FilePath) (found : Option Json)
    → below_location path (location_of found) ≡ true
    → (location : String) × (found ≡ some (string location))
      × (starts_with path (from_text location) ≡ true)
located path none h = cc
located path (some null) h = cc
located path (some (boolean b)) h = cc
located path (some (number n)) h = cc
located path (some (string s)) h = (s, refl, h)
located path (some (array items)) h = cc
located path (some (object fields)) h = cc

IsInstalledAbove-iff :
    (path : FilePath) (entry : Json)
    → (below_location path (marketplace_install_location entry) ≡ true)
      ↔ IsInstalledAbove path entry
unfolding marketplace_install_location
IsInstalledAbove-iff path entry =
    (λ h. located path (get "installLocation" entry) h, λ h. rw h.1 h.2)

is_protected_by_iff :
    (path dir : FilePath) (name : String) (entry : Json)
    → (is_protected_by path dir name entry ≡ true) ↔ IsProtectedBy path dir name entry
unfolding is_protected_by
is_protected_by_iff path dir name entry =
    let split =
      or_iff (below_location path (marketplace_install_location entry))
        (starts_with path (join_path dir (from_text name))) in
    let installed = IsInstalledAbove-iff path entry in
    let official = is_official_iff entry in
    elim (Bool-cases (is_official entry)) [
      | inl good ↦ (
        λ h. (
          official.0 good,
          elim (split.0 (rw good at h)) [ inl a ↦ inl (installed.0 a) | inr b ↦ inr b ],
        ),
        λ h. rw good (split.1 (elim h.1 [ inl a ↦ inl (installed.1 a) | inr b ↦ inr b ])),
      )
      | inr bad ↦ (λ h. ground arith, λ h. ground (arith, official.1 h.0))
    ]

is_protected_by_any_iff :
    (path dir : FilePath) (known : Fields)
    → (is_protected_by_any path dir known ≡ true) ↔ IsProtected path dir known
unfolding is_protected_by_any
is_protected_by_any_iff path dir end = (λ h. cc, λ h. absurd h)
is_protected_by_any_iff path dir (field name entry rest) =
    let ih = is_protected_by_any_iff path dir rest in
    let first = is_protected_by_iff path dir name entry in
    let split = or_iff (is_protected_by path dir name entry) (is_protected_by_any path dir rest) in
    (
      λ h. elim (split.0 h) [ inl p ↦ inl (first.0 p) | inr p ↦ inr (ih.0 p) ],
      λ h. split.1 (elim h [ inl p ↦ inl (first.1 p) | inr p ↦ inr (ih.1 p) ]),
    )

-- What is not known is taken to be protected.
abbrev pub IsProtectedOrUnknown : FilePath → FilePath → Option Fields → Type 0
IsProtectedOrUnknown path dir none = Unit
IsProtectedOrUnknown path dir (some known) = IsProtected path dir known

protected_or_unknown_iff :
    (path dir : FilePath) (known : Option Fields)
    → (protected_or_unknown path dir known ≡ true) ↔ IsProtectedOrUnknown path dir known
protected_or_unknown_iff path dir none = (λ h. tt, λ h. refl)
protected_or_unknown_iff path dir (some known) = is_protected_by_any_iff path dir known

-- What is native, in words of the marketplaces.
abbrev pub IsNative : FilePath → FilePath → Option Fields → Type 0
IsNative path plugins known =
    (starts_with path (join plugins "cache") ≡ true)
    ⊎ ((starts_with path (join plugins "data") ≡ true)
        ⊎ ((starts_with path (join plugins "marketplaces") ≡ true)
            × IsProtectedOrUnknown path (join plugins "marketplaces") known))

gates_iff :
    (c d m k : Bool)
    → ((if c || d then true else if not m then false else k) ≡ true)
      ↔ ((c ≡ true) ⊎ ((d ≡ true) ⊎ ((m ≡ true) × (k ≡ true))))
gates_iff true d m k = (λ h. inl refl, λ h. refl)
gates_iff false true m k = (λ h. inr (inl refl), λ h. refl)
gates_iff false false true k = (λ h. inr (inr (refl, h)), λ h. ground arith)
gates_iff false false false k = (λ h. cc, λ h. ground arith)

-- A path is native exactly if it lies in one of the plumbing directories, or in the
-- marketplaces' directory and either the marketplaces are unknown or an official one, by the
-- recorded repository, was installed at or by convention lies at a directory above the path.
pub is_anthropic_native_in_iff :
    (path plugins : FilePath) (known : Option Fields)
    → (is_anthropic_native_in path plugins known ≡ true) ↔ IsNative path plugins known
unfolding is_anthropic_native_in
is_anthropic_native_in_iff path plugins known =
    let dir = join plugins "marketplaces" in
    let inner = protected_or_unknown_iff path dir known in
    let gates =
      gates_iff (starts_with path (join plugins "cache")) (starts_with path (join plugins "data"))
        (starts_with path dir) (protected_or_unknown path dir known) in
    (
      λ h. elim (gates.0 h) [
        | inl p ↦ inl p
        | inr (inl p) ↦ inr (inl p)
        | inr (inr (p, q)) ↦ inr (inr (p, inner.0 q))
      ],
      λ h. gates.1 (elim h [
        | inl p ↦ inl p
        | inr (inl p) ↦ inr (inl p)
        | inr (inr (p, q)) ↦ inr (inr (p, inner.1 q))
      ]),
    )
