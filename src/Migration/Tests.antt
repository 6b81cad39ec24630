-- ===== src/Migration/Tests.antt =====
-- Migrations of src/projection/src/migration.cpp over a database whose content is the list of the
-- statements that it has run.
use pimio.JobQueue.{Disk}
use pimio.Migration.{Migration, Database, migrated, migrate}
use pimio.Migration.Steps.{contents}
use pimio.Migration.Progress.{Migrates, goal, applied, migrate-Migrates}
use pimio.Migration.Success.{migrate_succeeds}
use pimio.Base.{
  ℕ, ◌≡◌, refl, true, Option, none, some, List, [], ◌∷◌, ◌++◌, if◌then◌else◌, Text, codes, text_eq,
  pos, negsuc, arith,
}

-- A statement "bad" fails; every other one is added to the content.
abbrev logged : Text → List Text → Option (List Text)
logged q s = if text_eq q (codes "bad") then none else some (s ++ q ∷ [])

abbrev migration : ℕ → Text → Migration
migration v q = record { version = pos v; name = []; statements = q ∷ [] }

abbrev two : List Migration
two = migration 1 (codes "one") ∷ migration 2 (codes "two") ∷ []

abbrev broken : List Migration
broken = migration 1 (codes "one") ∷ migration 2 (codes "bad") ∷ []

abbrev at_one : Database (List Text)
at_one = record { content = codes "one" ∷ []; user_version = pos 1; saved = none }

abbrev works : ℕ → Disk
works i n = true

migrate-Migrates_example :
    Migrates logged works
      (negsuc 0)
      broken
      at_one
      (migrate logged true works (negsuc 0) broken at_one)
migrate-Migrates_example = migrate-Migrates logged true works (negsuc 0) broken at_one refl

migrate_succeeds_example : migrate logged true works (negsuc 0) two at_one ≡ (
  record {
    content = codes "one" ∷ codes "two" ∷ [];
    user_version = pos (goal logged (negsuc 0) two);
    saved = none;
  },
  migrated,
)
unfolding applied contents text_eq
migrate_succeeds_example =
    migrate_succeeds logged works (negsuc 0) two at_one 1 1 (codes "one" ∷ codes "two" ∷ [])
      (λ i n. refl) refl refl (omega arith) refl refl refl
