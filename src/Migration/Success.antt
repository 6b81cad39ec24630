-- ===== src/Migration/Success.antt =====
-- Migrations of src/projection/src/migration.cpp that meet no failure reach their goal.
use pimio.JobQueue.{Disk}
use pimio.Migration.{
  Migration, Database, migrated, is_skipped, is_contiguous, latest_version, apply_migration,
  apply_all, migrate, run_statements, begin_,
}
use pimio.Migration.Steps.{contents}
use pimio.Migration.Progress.{
  applied, goal, goal-target, latest-length, version_of, skipped_if, skip_rest, skip_done,
}
use pimio.Base.{
  ℕ, zero, suc, ◌+◌, ◌≤◌, ◌≡◌, refl, ap, ◌∙◌, inl, inr, true, false, Option, none, some, List, [],
  ◌∷◌, Text, ℤ, pos, int_ltb, take, drop, length, arith, Option-cases,
}

module _ {S : Type 0} (exec : Text → S → Option S) where
  impossible {ℓ} : {A : Type ℓ} {x : S} → none ≡ some x → A
  impossible e = cc

  some_inj : {x y : S} → some x ≡ some y → x ≡ y
  some_inj e = cc

  same_database :
      (db : Database S) (x : S) (v : ℤ)
      → db.content ≡ x
      → db.user_version ≡ v
      → db.saved ≡ none
      → db ≡ record { content = x; user_version = v; saved = none }
  same_database db x v e f h = cc (e, f, h)

  run_statements_ok :
      (disk : Disk) (n : ℕ) (qs : List Text) (db : Database S) (x : S)
      → ((i : ℕ) → disk i ≡ true)
      → contents exec qs db.content ≡ some x
      → run_statements exec disk n qs db ≡ (record db { content = x }, true)
  unfolding run_statements contents
  run_statements_ok disk n [] db x runs e = cc e
  run_statements_ok disk n (q ∷ qs) db x runs e = elim (Option-cases (exec q db.content)) [
    | inl none_ ↦ impossible (rw none_ at e)
    | inr (s, some_) ↦
        rw (runs n, some_)
          (run_statements_ok disk (n + 1) qs (record db { content = s }) x runs (rw some_ at e))
  ]

  apply_migration_ok :
      (disk : Disk) (m : Migration) (db : Database S) (x : S)
      → ((i : ℕ) → disk i ≡ true)
      → contents exec m.statements db.content ≡ some x
      → apply_migration exec disk m db
        ≡ (record { content = x; user_version = m.version; saved = none }, none)
  unfolding apply_migration
  apply_migration_ok disk m db x runs e =
      rw (runs 0, run_statements_ok disk 4 m.statements (begin_ db) x runs e, runs 1, runs 2) refl

  run_rest_ok :
      (disks : ℕ → Disk) (c t i d : ℕ) (rest : List Migration) (db : Database S) (x : S)
      → ((i n : ℕ) → disks i n ≡ true)
      → c ≤ i
      → t ≡ i + d
      → d ≤ length rest
      → is_contiguous i rest ≡ true
      → db.user_version ≡ pos i
      → db.saved ≡ none
      → applied exec (take d rest) db.content ≡ some x
      → apply_all exec disks i (pos c) (pos t) rest db
        ≡ (record { content = x; user_version = pos t; saved = none }, migrated)
  unfolding apply_all applied
  run_rest_ok disks c t i zero rest db x runs low e room k v h a =
      skip_rest exec disks c t i rest db (omega arith) k
      ∙ ap (λ d. (d, migrated))
          (same_database db x (pos t) (some_inj a) (v ∙ ap pos (omega arith)) h)
  run_rest_ok disks c t i (suc d) [] db x runs low e room k v h a = absurd (omega arith)
  run_rest_ok disks c t i (suc d) (m ∷ rest) db x runs low e room k v h a =
      let (mv, left) = version_of i m rest k in
      let taken : is_skipped (pos c) (pos t) m ≡ false = skipped_if c t i m mv ∙ ground arith in
      elim (Option-cases (contents exec m.statements db.content)) [
        | inl none_ ↦ impossible (rw none_ at a)
        | inr (s, some_) ↦
            let after : Database S = record {
              content = s;
              user_version = m.version;
              saved = none;
            } in
            rw (taken, apply_migration_ok (disks i) m db s (runs i) some_)
              (run_rest_ok disks c t (i + 1) d rest after x runs (omega arith) (omega arith)
                (omega arith) left mv refl (rw some_ at a))
      ]

  -- From a database at version c, outside a transaction, where the list reaches the goal and c is no
  -- later, if the version can be read, every call works, and the statements of the migrations after c
  -- up to the goal work one after the other with the content x as their end, then `migrate` reports
  -- success with the content x at the goal's version.
  pub migrate_succeeds :
      (disks : ℕ → Disk) (target : ℤ) (ms : List Migration) (db : Database S) (c d : ℕ) (x : S)
      → ((i n : ℕ) → disks i n ≡ true)
      → is_contiguous 0 ms ≡ true
      → goal exec target ms ≡ c + d
      → goal exec target ms ≤ length ms
      → db.user_version ≡ pos c
      → db.saved ≡ none
      → applied exec (take d (drop c ms)) db.content ≡ some x
      → migrate exec true disks target ms db
        ≡ (record { content = x; user_version = pos (goal exec target ms); saved = none }, migrated)
  unfolding migrate latest_version
  migrate_succeeds disks target ms db c d x runs k e room v h a =
      let t = goal exec target ms in
      let newest : latest_version ms ≡ pos (length ms) =
        latest-length 0 ms k ∙ ap pos (omega arith) in
      let (same, left, size) = skip_done exec disks c t 0 c ms db (omega arith) k (omega arith) in
      let run =
        run_rest_ok disks c t c d (drop c ms) db x runs (omega arith) e (omega arith) left v h a in
      let fits : int_ltb (pos (length ms)) (pos t) ≡ false = ground arith in
      let low : int_ltb (pos t) (pos c) ≡ false = ground arith in
      rw (k, goal-target exec target ms k, newest, fits) (simp (v, low) (same ∙ run))
