-- ===== src/Migration.antt =====
-- src/projection/src/migration.cpp: forward migrations of an SQLite schema, each in a transaction of
-- its own. What a statement does to the content of a database is SQLite's: the parameter `exec`, with
-- `none` where the statement fails. Whether the calls to the database work is decided by the
-- argument `disks`: for the migration at place i in the list, `disks i 0` is for the begin of its
-- transaction, 1 for the version bump, 2 for the commit, 3 for a rollback and 4 + k for its k-th
-- statement. A call that does not work changes nothing, so that a rollback that does not work, whose
-- result the source ignores, leaves the transaction open. The messages of the errors are not kept.
pub mod Steps
pub mod Progress
pub mod Success
mod Tests
use pimio.Core.Error.{ErrorCode, internal, conflict, corrupt_data}
use pimio.JobQueue.{Disk}
use pimio.Base.{
  ℕ, ◌+◌, Bool, true, false, Option, none, some, not, ◌||◌, List, [], ◌∷◌, if◌then◌else◌, Text, ℤ,
  pos, int_leb, int_ltb, int_eq, is_negative,
}

pub record Migration : Type 0 where
  pub version : ℤ
  pub name : Text
  pub statements : List Text

-- Where migrations end: the `true` of the source, or its error; a negative version that the database
-- holds makes it return `false` and set no error.
pub data Outcome : Type 0 where
  migrated : Outcome
  refused : ErrorCode → Outcome
  silent : Outcome

-- A database and, inside a transaction, what a rollback brings back.
pub record Database (S : Type 0) : Type 0 where
  pub content : S
  pub user_version : ℤ
  pub saved : Option (S × ℤ)

-- The constructor sorts by version.
pub insert_migration : Migration → List Migration → List Migration
insert_migration m [] = m ∷ []
insert_migration m (n ∷ rest) =
    if int_ltb n.version m.version then n ∷ insert_migration m rest else m ∷ n ∷ rest

unfoldable pub migration_runner : List Migration → List Migration
unfolding insert_migration
migration_runner [] = []
migration_runner (m ∷ rest) = insert_migration m (migration_runner rest)

-- `latestVersion`; the first clause is the empty list's.
abbrev pub last_version : ℤ → List Migration → ℤ
last_version v [] = v
last_version v (m ∷ rest) = last_version m.version rest

unfoldable pub latest_version : List Migration → ℤ
latest_version = last_version (pos 0)

-- The first loop of `migrate`, from a position on.
abbrev pub is_contiguous : ℕ → List Migration → Bool
is_contiguous index [] = true
is_contiguous index (m ∷ rest) =
    if not (int_eq m.version (pos (index + 1))) then false else is_contiguous (index + 1) rest

abbrev pub is_skipped : ℤ → ℤ → Migration → Bool
is_skipped current target m = int_leb m.version current || int_ltb target m.version

module _ {S : Type 0} where
  abbrev pub begin_ : Database S → Database S
  begin_ db = record db { saved = some (db.content, db.user_version) }

  abbrev pub restore : Option (S × ℤ) → Database S → Database S
  restore none db = db
  restore (some (content, version)) db = record {
    content = content;
    user_version = version;
    saved = none;
  }

  -- What is there once the open transaction, if there is one, is undone.
  abbrev pub committed : Database S → Database S
  committed db = restore db.saved db

  abbrev pub rollback : Bool → Database S → Database S
  rollback works db = if works then committed db else db

  abbrev pub commit : Database S → Database S
  commit db = record db { saved = none }

  module _ (exec : Text → S → Option S) where
    -- `execute` on the content, and the loop over a migration's statements.
    abbrev pub executed : Option S → Database S → Database S × Bool
    executed none db = (db, false)
    executed (some content) db = (record db { content = content }, true)

    abbrev pub execute : Bool → Text → Database S → Database S × Bool
    execute works statement db =
        if works then executed (exec statement db.content) db else (db, false)

    -- The loop leaves at the first statement that fails.
    abbrev pub go_on : (Database S → Database S × Bool) → Database S × Bool → Database S × Bool
    go_on rest (db, true) = rest db
    go_on rest (db, false) = (db, false)

    pub run_statements : Disk → ℕ → List Text → Database S → Database S × Bool
    run_statements disk n [] db = (db, true)
    run_statements disk n (q ∷ qs) db =
        go_on (run_statements disk (n + 1) qs) (execute (disk n) q db)

    -- The body of the loop for a migration that is not skipped, in its parts: the version bump and
    -- the commit, the end of the statements, and the transaction.
    abbrev pub finish_migration :
        Disk → Migration → Database S × Bool → Database S × Option ErrorCode
    finish_migration disk m (db, false) = (rollback (disk 3) db, some internal)
    finish_migration disk m (db, true) =
        if not (disk 1)
        then (rollback (disk 3) db, some internal)
        else let bumped = record db { user_version = m.version } in
          if not (disk 2) then (rollback (disk 3) bumped, some internal) else (commit bumped, none)

    unfoldable pub apply_migration : Disk → Migration → Database S → Database S × Option ErrorCode
    unfolding run_statements
    apply_migration disk m db =
        if not (disk 0)
        then (db, some internal)
        else finish_migration disk m (run_statements disk 4 m.statements (begin_ db))

    abbrev pub continue_ :
        (Database S → Database S × Outcome) → Database S × Option ErrorCode → Database S × Outcome
    continue_ next (db, none) = next db
    continue_ next (db, some e) = (db, refused e)

    pub apply_all : (ℕ → Disk) → ℕ → ℤ → ℤ → List Migration → Database S → Database S × Outcome
    unfolding apply_migration
    apply_all disks i current target [] db = (db, migrated)
    apply_all disks i current target (m ∷ rest) db =
        if is_skipped current target m
        then apply_all disks (i + 1) current target rest db
        else continue_ (apply_all disks (i + 1) current target rest)
            (apply_migration (disks i) m db)

    -- `reads` is whether `readVersion` can read the version.
    unfoldable pub migrate :
        Bool → (ℕ → Disk) → ℤ → List Migration → Database S → Database S × Outcome
    unfolding latest_version apply_all
    migrate reads disks target_version migrations db =
        if not (is_contiguous 0 migrations)
        then (db, refused internal)
        else let latest = latest_version migrations in
          let target = if is_negative target_version then latest else target_version in
          if int_ltb latest target
          then (db, refused internal)
          else if not reads
          then (db, refused corrupt_data)
          else if is_negative db.user_version
          then (db, silent)
          else if int_ltb target db.user_version
          then (db, refused conflict)
          else apply_all disks 0 db.user_version target migrations db
