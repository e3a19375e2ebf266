-- ===== src/Drift/Resolve/Settled.antt =====
-- What is settled once a resolution has been applied.
use vectorhawkd.Base.{
  ◌≡◌, refl, ap, ◌∙◌, inl, inr, String, true, false, Option, none, some, List, [], ◌∷◌, ◌==◌, arith,
  any, any-keep-not, keep, not, Bool-cases, Option-cases, eq_refl, Result, ok, ◌>>=◌, >>=-HasValue,
  if◌then◌else◌,
}
use vectorhawkd.Base.Paths.{from_text}
use vectorhawkd.Drift.{
  ManagedPathMarker, DriftError, DriftStatus, status_of, Host, current_hash_for, classify,
  is_dir_kind,
}
use vectorhawkd.Drift.Files.{Disk, exists, remove_dir_all, exists-remove_dir_all}
use vectorhawkd.Drift.Act.{
  drop_marker, find_marker_by_slug_kind, is_of, remove_path_for, check_native,
}
use vectorhawkd.Drift.Resolve.{
  World, set_hash, found_marker, there, update_hash, accepted, accept_marker, accept_local,
  restore_marker, restore_canonical,
}

found_marker_sound :
    (w : World) (slug kind : String) {m : ManagedPathMarker}
    → found_marker w slug kind ≡ ok m
    → find_marker_by_slug_kind (w.markers) slug kind ≡ some m
found_marker_sound w slug kind h =
    elim (Option-cases (find_marker_by_slug_kind (w.markers) slug kind)) [
      | inl absent ↦ absurd (ground (arith, absent))
      | inr (m, found) ↦ ground (arith, found)
    ]

there_sound : (found : Option String) {hash : String} → there found ≡ ok hash → found ≡ some hash
there_sound none h = cc
there_sound (some x) h = cc

set_hash-is_of :
    (path hash slug kind : String) (m : ManagedPathMarker)
    → is_of slug kind (set_hash path hash m) ≡ is_of slug kind m
set_hash-is_of path hash slug kind m = elim (Bool-cases (m.path == path)) [
  | inl same ↦ rw same refl
  | inr other ↦ rw other refl
]

-- The change of the hash leaves the first marker of a slug and kind where it was.
find-update_hash :
    (path hash slug kind : String) (markers : List ManagedPathMarker) {m : ManagedPathMarker}
    → find_marker_by_slug_kind markers slug kind ≡ some m
    → find_marker_by_slug_kind (update_hash path hash markers) slug kind
      ≡ some (set_hash path hash m)
unfolding find_marker_by_slug_kind update_hash
find-update_hash path hash slug kind [] found = cc
find-update_hash path hash slug kind (first ∷ markers) {m} found =
    rw (set_hash-is_of path hash slug kind first) (elim (Bool-cases (is_of slug kind first)) [
      | inl same ↦
          let one : first ≡ m = ground (arith, same) in
          rw same (ap (λ x. some (set_hash path hash x)) one)
      | inr other ↦ rw other (find-update_hash path hash slug kind markers (rw other at found))
    ])

update_hash-others :
    (path hash : String) (markers : List ManagedPathMarker)
    → keep (λ x. not (x.path == path)) (update_hash path hash markers)
      ≡ keep (λ x. not (x.path == path)) markers
unfolding update_hash
update_hash-others path hash [] = refl
update_hash-others path hash (first ∷ markers) = elim (Bool-cases (first.path == path)) [
  | inl same ↦ rw (same, same) (update_hash-others path hash markers)
  | inr other ↦ rw (other, other) (ap (λ ms. first ∷ ms) (update_hash-others path hash markers))
]

removed_dir :
    (host : Host) (disk : Disk) (m : ManagedPathMarker) {disk' : Disk}
    → remove_path_for host disk m ≡ ok disk'
    → is_dir_kind (m.kind) ≡ true
    → exists disk' (from_text (m.path)) ≡ false
unfolding remove_path_for
removed_dir host disk m {disk'} removed dir =
    let at = from_text (m.path) in
    let (u, checked, last) =
      >>=-HasValue (check_native host at)
        (λ _. ok (if exists disk at then remove_dir_all disk at else disk)) (rw dir at removed) in
    elim (Bool-cases (exists disk at)) [
      | inl there ↦
          let same : remove_dir_all disk at ≡ disk' = ground (arith, there) in
          rw (← same) (exists-remove_dir_all disk at)
      | inr gone ↦ let same : disk ≡ disk' = ground (arith, gone) in rw (← same) gone
    ]

ok_injective : {a b : World} → ◌≡◌ {A = Result DriftError World} (ok a) (ok b) → a ≡ b
ok_injective e = cc

-- The marker of a slug and kind, once the local state has been accepted.
abbrev pub IsAccepted : Host → World → (slug kind : String) → World → Type 0
IsAccepted host w slug kind w' =
    (m : ManagedPathMarker) × (m' : ManagedPathMarker) × (find_marker_by_slug_kind (w.markers) slug
        kind
      ≡ some m)
    × (find_marker_by_slug_kind (w'.markers) slug kind ≡ some m')
    × ((hash : String) × (m' ≡ record m { source_sha256 = hash }))
    × (keep (λ x. not (x.path == m.path)) (w'.markers)
        ≡ keep (λ x. not (x.path == m.path)) (w.markers))
    × ((classify host (w'.disk) m').status ≡ DriftStatus.clean)
    × (w'.disk ≡ w.disk)

-- Where the local state of an item is accepted, its marker is the same but for the hash, the
-- markers of other paths and the disk are as they were, and the next scan finds the item clean.
pub accept_local-IsAccepted :
    (host : Host) (w : World) (slug kind : String) {w' : World}
    → accept_local host w slug kind ≡ ok w'
    → IsAccepted host w slug kind w'
unfolding accept_local classify current_hash_for
accept_local-IsAccepted host w slug kind {w'} done =
    let (m, got, rest) = >>=-HasValue (found_marker w slug kind) (accept_marker host w) done in
    let (hash, known, last) =
      >>=-HasValue (current_hash_for host (w.disk) m >>= there) (λ hash. ok (accepted w m hash))
        rest in
    let (found, hashed, present) = >>=-HasValue (current_hash_for host (w.disk) m) there known in
    let renewed = record m { source_sha256 = hash } in
    let same_hash : current_hash_for host (w.disk) renewed ≡ ok (some hash) =
      hashed ∙ ap ok (there_sound found present) in
    let kept =
      find-update_hash (m.path) hash slug kind (w.markers) (found_marker_sound w slug kind got) in
    let one : set_hash (m.path) hash m ≡ renewed = rw (eq_refl (m.path)) refl in
    rw (← ok_injective last) (
      m,
      renewed,
      found_marker_sound w slug kind got,
      kept ∙ ap some one,
      (hash, refl),
      update_hash-others (m.path) hash (w.markers),
      ap (status_of hash) same_hash ∙ rw (eq_refl hash) refl,
      refl,
    )

-- Where the canonical state of an item is to be restored, no marker of its path is left, and
-- nothing is left below the path of a skill or plugin.
pub restore_canonical_settled :
    (host : Host) (w : World) (slug kind : String) {w' : World}
    → restore_canonical host w slug kind ≡ ok w'
    → (m : ManagedPathMarker) × (find_marker_by_slug_kind (w.markers) slug kind ≡ some m)
      × (any (λ other. other.path == m.path) (w'.markers) ≡ false)
      × (is_dir_kind (m.kind) ≡ true → exists (w'.disk) (from_text (m.path)) ≡ false)
unfolding restore_canonical drop_marker
restore_canonical_settled host w slug kind {w'} done =
    let (m, got, rest) = >>=-HasValue (found_marker w slug kind) (restore_marker host w) done in
    let (disk, removed, last) =
      >>=-HasValue (remove_path_for host (w.disk) m)
        (λ disk. ok (record w { disk = disk; markers = drop_marker (m.path) (w.markers) })) rest in
    rw (← ok_injective last) (
      m,
      found_marker_sound w slug kind got,
      any-keep-not (λ other. other.path == m.path) (w.markers),
      removed_dir host (w.disk) m removed,
    )
