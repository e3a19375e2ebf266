-- ===== src/Revocation.antt =====
-- crates/scenery-core/src/revocation.rs: the local cache of revoked artifacts. The table
-- `artifact_revocations` is the list of its rows; its primary key is the whole row but the
-- time. A database that cannot be opened is not modelled.
pub mod Gate
pub mod Sync
use vectorhawkd.Base.{
  String, Bool, true, false, not, ◌&&◌, ◌||◌, Option, none, some, List, [], ◌∷◌, ◌==◌, any, keep,
  if◌then◌else◌, Result, ok, err, ◌>>=◌,
}
use vectorhawkd.Base.Texts.{trim}
use Prim.Native.Char.{Char}

-- A row of the table; "" is the version that stands for all of them.
pub record Row : Type 0 where
  pub artifact_type : String
  pub artifact_key : String
  pub version : String

pub record RevocationEntry : Type 0 where
  pub artifact_type : String
  pub artifact_key : String
  pub version : Option String

pub data SyncError : Type 0 where
  duplicate_row : Row → SyncError

abbrev pub Table : Type 0
Table = List Row

abbrev pub same_row : Row → Row → Bool
same_row r s =
    (r.artifact_type == s.artifact_type)
    && ((r.artifact_key == s.artifact_key) && (r.version == s.version))

abbrev pub committed : Table → Result SyncError Table → Table × Result SyncError (Unit {0})
committed table (ok next) = (next, ok tt)
committed table (err e) = (table, err e)

-- `is_whitespace` is the test of `str::trim`, of Rust's standard library.
module _ (is_whitespace : Char → Bool) where
  unfoldable pub norm : Option String → String
  norm none = ""
  norm (some version) = trim is_whitespace version

  -- The row of a revocation.
  abbrev pub row_of : String → String → Option String → Row
  row_of type_of key_of version = record {
    artifact_type = type_of;
    artifact_key = key_of;
    version = norm version;
  }

  unfoldable pub upsert_revocation : Table → String → String → Option String → Table
  unfolding norm
  upsert_revocation table artifact_type artifact_key version =
      let new = row_of artifact_type artifact_key version in
      if any (same_row new) table then table else new ∷ table

  unfoldable pub clear_revocation : Table → String → String → Option String → Table
  unfolding norm
  clear_revocation table artifact_type artifact_key version =
      keep (λ r. not (same_row (row_of artifact_type artifact_key version) r)) table

  abbrev pub entry_row : RevocationEntry → Row
  entry_row e = row_of (e.artifact_type) (e.artifact_key) (e.version)

  -- `INSERT` of a row whose primary key is taken is an error.
  unfoldable pub insert_row : Table → Row → Result SyncError Table
  insert_row table new =
      if any (same_row new) table then err (duplicate_row new) else ok (new ∷ table)

  unfoldable pub insert_all : Table → List RevocationEntry → Result SyncError Table
  unfolding insert_row
  insert_all table [] = ok table
  insert_all table (e ∷ entries) = do next ← insert_row table (entry_row e); insert_all next entries

  -- One transaction: the table is as it was where a statement fails.
  unfoldable pub replace_all : Table → List RevocationEntry → Table × Result SyncError (Unit {0})
  unfolding insert_all
  replace_all table entries = committed table (insert_all [] entries)

  unfoldable pub is_revoked : Table → String → String → Option String → Bool
  unfolding norm
  is_revoked table artifact_type artifact_key version =
      any
        (λ r.
          (r.artifact_type == artifact_type)
          && ((r.artifact_key == artifact_key)
              && ((r.version == "") || (r.version == norm version))))
        table

unfoldable pub is_any_version_revoked : Table → String → String → Bool
is_any_version_revoked table artifact_type artifact_key =
    any (λ r. (r.artifact_type == artifact_type) && (r.artifact_key == artifact_key)) table
