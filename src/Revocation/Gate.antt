-- ===== src/Revocation/Gate.antt =====
-- Which artifacts the install gate holds back after each operation.
use Prim.Native.Char.{Char}
use vectorhawkd.Base.{
  ◌≡◌, refl, String, Bool, true, false, ◌&&◌, ◌||◌, Option, [], ◌∷◌, ◌==◌, eq_iff, arith, any,
  Bool-cases, or_iff, and_iff, inl, inr,
}
use vectorhawkd.Revocation.{
  Row, Table, same_row, norm, row_of, upsert_revocation, is_revoked, is_any_version_revoked,
}

-- Whether a row of the table stops the artifact at a version that is normalised.
abbrev pub stops : String → String → String → Row → Bool
stops artifact_type artifact_key version r =
    (r.artifact_type == artifact_type)
    && ((r.artifact_key == artifact_key) && ((r.version == "") || (r.version == version)))

pub same_row-≡ : (r s : Row) → same_row r s ≡ true → r ≡ s
same_row-≡ r s h =
    let outer = (and_iff (r.artifact_type == s.artifact_type) _).0 h in
    let inner = (and_iff (r.artifact_key == s.artifact_key) _).0 outer.1 in
    let p = (eq_iff r.artifact_type s.artifact_type).0 outer.0 in
    let q = (eq_iff r.artifact_key s.artifact_key).0 inner.0 in
    let w = (eq_iff r.version s.version).0 inner.1 in
    λ i. record { artifact_type = p i; artifact_key = q i; version = w i }

absorb : (a b : Bool) → (a || b) ≡ (a || (a || b))
absorb true b = refl
absorb false b = refl

absorb_inner : (a b c : Bool) → b ≡ (c || b) → (a || b) ≡ (c || (a || b))
absorb_inner true b true e = refl
absorb_inner true b false e = refl
absorb_inner false b c e = e

-- A row that stands in the table adds nothing.
any-same_row :
    (new : Row) (table : Table) (t k v : String)
    → any (same_row new) table ≡ true
    → any (stops t k v) table ≡ (stops t k v new || any (stops t k v) table)
any-same_row new [] t k v h = cc
any-same_row new (r ∷ table) t k v h = elim ((or_iff (same_row new r) _).0 h) [
  | inl same ↦ rw (same_row-≡ new r same) (absorb (stops t k v r) (any (stops t k v) table))
  | inr later ↦
      absorb_inner (stops t k v r) (any (stops t k v) table) (stops t k v new)
        (any-same_row new table t k v later)
]

-- A revoked artifact has a revoked version.
pub is_revoked-any_version :
    (is_whitespace : Char → Bool) (table : Table) (t k : String) (v : Option String)
    → is_revoked is_whitespace table t k v ≡ true
    → is_any_version_revoked table t k ≡ true
unfolding is_revoked is_any_version_revoked
is_revoked-any_version is_whitespace [] t k v h = cc
is_revoked-any_version is_whitespace (r ∷ table) t k v h =
    ground (arith, is_revoked-any_version is_whitespace table t k v)

module _ (is_whitespace : Char → Bool) where
  -- After a revocation is recorded, an artifact is held back exactly if it was before or the
  -- new row names it, for all versions or for its own.
  pub is_revoked-upsert_revocation :
      (table : Table) (t t' k k' : String) (v v' : Option String)
      → is_revoked is_whitespace (upsert_revocation is_whitespace table t' k' v') t k v ≡ (
          stops t k (norm is_whitespace v) (row_of is_whitespace t' k' v')
          || is_revoked is_whitespace table t k v)
  unfolding is_revoked upsert_revocation
  is_revoked-upsert_revocation table t t' k k' v v' =
      let new = row_of is_whitespace t' k' v' in
      elim (Bool-cases (any (same_row new) table)) [
        | inl there ↦ rw there (any-same_row new table t k (norm is_whitespace v) there)
        | inr fresh ↦ rw fresh
      ]
