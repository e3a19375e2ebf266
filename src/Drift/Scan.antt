-- ===== src/Drift/Scan.antt =====
-- The path of a server's marker, which is that of a file and the server's slug in one text.
use Prim.Native.String.{String, [], ◌∷◌, ◌++◌}
use text.Mathlib.TextLemmas.{nil-append, cons-append}
use vectorhawkd.Base.{◌≡◌, refl, true, not, none, some, arith, ok}
use vectorhawkd.Base.Paths.{from_text}
use vectorhawkd.Base.Texts.{all_chars}
use vectorhawkd.Drift.{split_mcp_path, at_last_colon, is_colon}

abbrev pub NoColon : String → Type 0
NoColon s = all_chars (λ c. not (is_colon c)) s ≡ true

at_last_colon_none : (slug : String) → NoColon slug → at_last_colon slug ≡ none
at_last_colon_none [] clear = refl
at_last_colon_none (c ∷ slug) clear = ground (arith, at_last_colon_none slug)

at_last_colon-append :
    (path slug : String) → NoColon slug → at_last_colon (path ++ (":" ++ slug)) ≡ some (path, slug)
at_last_colon-append [] slug clear =
    rw (nil-append (":" ++ slug), cons-append ":" "" slug)
      (rw (nil-append slug) (rw (at_last_colon_none slug clear) refl))
at_last_colon-append (c ∷ path) slug clear =
    rw (cons-append c path (":" ++ slug))
      (rw (at_last_colon-append path slug clear, at_last_colon) refl)

-- The path that a server's marker is given splits into the file and the slug, if the slug has no
-- colon; colons in the file's path do no harm.
pub split_mcp_path-append :
    (file slug : String)
    → NoColon slug
    → split_mcp_path (file ++ (":" ++ slug)) ≡ ok (from_text file, slug)
unfolding split_mcp_path
split_mcp_path-append file slug clear =
    rw (at_last_colon-append file slug clear, split_mcp_path) refl
