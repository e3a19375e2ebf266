-- ===== src/Takeover/Cmdline.antt =====
-- `cmdline_is_daemon_run`: the raw argv of a process, fields separated by NUL bytes.
use Prim.Native.Char.{code}
use vectorhawkd.Base.{
  ℕ, ◌≡◌, ◌≢◌, refl, ap, ◌∙◌, String, Bool, true, false, ◌&&◌, ◌||◌, List, [], ◌∷◌, ◌++◌, arith,
  eqb, All, if◌then◌else◌,
}

-- The bytes of an ASCII literal.
abbrev pub bytes : String → List ℕ
bytes String.[] = []
bytes (String.◌∷◌ c s) = code c ∷ bytes s

abbrev pub bytes_eq : List ℕ → List ℕ → Bool
bytes_eq [] [] = true
bytes_eq (x ∷ xs) (y ∷ ys) = eqb x y && bytes_eq xs ys
bytes_eq _ _ = false

abbrev pub push_field : ℕ → List (List ℕ) → List (List ℕ)
push_field b [] = (b ∷ []) ∷ []
push_field b (field ∷ fields) = (b ∷ field) ∷ fields

-- `raw.split(|&b| b == 0)`: never empty.
unfoldable pub split : List ℕ → List (List ℕ)
split [] = [] ∷ []
split (b ∷ bs) = let rest = split bs in if eqb b 0 then [] ∷ rest else push_field b rest

-- `argv0.rsplit(|&b| b == b'/').next()`: what stands behind the last slash.
unfoldable pub basename_from : List ℕ → List ℕ → List ℕ
basename_from acc [] = acc
basename_from acc (b ∷ bs) = basename_from (if eqb b b'/' then [] else acc ++ b ∷ []) bs

unfoldable pub basename : List ℕ → List ℕ
unfolding basename_from
basename argv0 = basename_from [] argv0

abbrev pub is_binary : List ℕ → Bool
is_binary name = bytes_eq name (bytes "scenery") || bytes_eq name (bytes "scn")

abbrev pub is_run_argv : List (List ℕ) → Bool
is_run_argv (argv0 ∷ (argv1 ∷ (argv2 ∷ rest))) =
    is_binary (basename argv0) && bytes_eq argv1 (bytes "daemon") && bytes_eq argv2 (bytes "run")
is_run_argv _ = false

unfoldable pub cmdline_is_daemon_run : List ℕ → Bool
unfolding split basename
cmdline_is_daemon_run raw = is_run_argv (split raw)

-- The argv that a process was started with, as the kernel hands it out.
abbrev pub join : List ℕ → List (List ℕ) → List ℕ
join field [] = field
join field (next ∷ fields) = field ++ (0 ∷ join next fields)

abbrev pub NoNul : List ℕ → Type 0
NoNul bs = All (λ b. b ≢ 0) bs

split-field : (field rest : List ℕ) → NoNul field → split (field ++ (0 ∷ rest)) ≡ field ∷ split rest
unfolding split
split-field [] rest h = refl
split-field (b ∷ bs) rest h = ground (arith, h.0, split-field bs rest h.1)

split-last : (field : List ℕ) → NoNul field → split field ≡ field ∷ []
unfolding split
split-last [] h = refl
split-last (b ∷ bs) h = ground (arith, h.0, split-last bs h.1)

split-join :
    (field : List ℕ) (fields : List (List ℕ))
    → NoNul field
    → All NoNul fields
    → split (join field fields) ≡ field ∷ fields
split-join field [] h hs = split-last field h
split-join field (next ∷ fields) h hs =
    split-field field (join next fields) h ∙ ap (λ r. field ∷ r) (split-join next fields hs.0 hs.1)

-- The test is on the positions of argv: with no NUL inside a field, it holds exactly if there
-- are three fields at least, the first names the binary behind its last slash, the second is
-- `daemon` and the third is `run`.
pub cmdline_is_daemon_run-join :
    (field : List ℕ) (fields : List (List ℕ))
    → NoNul field
    → All NoNul fields
    → cmdline_is_daemon_run (join field fields) ≡ is_run_argv (field ∷ fields)
unfolding cmdline_is_daemon_run
cmdline_is_daemon_run-join field fields h hs = ap is_run_argv (split-join field fields h hs)
