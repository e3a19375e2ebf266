-- ===== src/Manifest/Prompt.antt =====
-- crates/scenery-manifest/src/lib.rs: how the source of a prompt is read from YAML, as a text or
-- as a tagged object. A text or an object is all that the visitor accepts.
use vectorhawkd.Base.{◌≡◌, refl, String, Option, some, ◌==◌, if◌then◌else◌, Result, ok, err, ◌>>=◌}
use vectorhawkd.Manifest.{Yaml, Entries, empty, entry, PromptSource}

pub data DeError : Type 0 where
  invalid_type : DeError
  unknown_field missing_field unknown_variant : String → DeError

-- What the loop over the object's entries has seen.
pub record Seen : Type 0 where
  pub kind : Option String
  pub path : Option String
  pub body : Option String

abbrev text_of : Yaml → Result DeError String
text_of (Yaml.string s) = ok s
text_of _ = err invalid_type

-- One round of the loop: a later value of a key replaces an earlier one.
unfoldable pub visit_entry : Seen → (key : String) → Yaml → Result DeError Seen
visit_entry seen key value =
    if key == "kind"
    then (text_of value >>= λ s. ok (record seen { kind = some s }))
    else if key == "path"
    then (text_of value >>= λ s. ok (record seen { path = some s }))
    else if key == "body"
    then (text_of value >>= λ s. ok (record seen { body = some s }))
    else err (unknown_field key)

unfoldable pub visit_entries : Seen → Entries → Result DeError Seen
unfolding visit_entry
visit_entries seen empty = ok seen
visit_entries seen (entry key value rest) =
    text_of key >>= λ k. visit_entry seen k value >>= λ next. visit_entries next rest

abbrev or_missing : String → Option String → Result DeError String
or_missing field Option.none = err (missing_field field)
or_missing field (some value) = ok value

-- The match on the kind after the loop.
unfoldable pub source_of : Seen → Result DeError PromptSource
source_of seen = elim (seen.kind) [
  | Option.none ↦ err (missing_field "kind")
  | some kind ↦
      if kind == "file"
      then (or_missing "path" (seen.path) >>= λ p. ok (PromptSource.file p))
      else if kind == "inline"
      then (or_missing "body" (seen.body) >>= λ b. ok (PromptSource.inline b))
      else err (unknown_variant kind)
]

abbrev pub nothing_seen : Seen
nothing_seen = record { kind = Option.none; path = Option.none; body = Option.none }

unfoldable pub deserialize : Yaml → Result DeError PromptSource
unfolding visit_entries source_of
deserialize (Yaml.string value) = ok (PromptSource.file value)
deserialize (Yaml.mapping entries) = visit_entries nothing_seen entries >>= source_of
deserialize _ = err invalid_type

-- The tagged object that the type's documentation gives for a source.
unfoldable pub tagged_object : PromptSource → Yaml
tagged_object (PromptSource.file path) = Yaml.mapping (
    entry (Yaml.string "kind") (Yaml.string "file")
      (entry (Yaml.string "path") (Yaml.string path) empty))
tagged_object (PromptSource.inline body) = Yaml.mapping (
    entry (Yaml.string "kind") (Yaml.string "inline")
      (entry (Yaml.string "body") (Yaml.string body) empty))

-- The tagged object of a source is read back as that source.
pub deserialize-tagged_object :
    (source : PromptSource) → deserialize (tagged_object source) ≡ ok source
unfolding deserialize tagged_object
deserialize-tagged_object (PromptSource.file path) = refl
deserialize-tagged_object (PromptSource.inline body) = refl
