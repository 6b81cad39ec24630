-- ===== src/Migration/Steps.antt =====
-- One migration of src/projection/src/migration.cpp: all of it or nothing.
use pimio.Core.Error.{ErrorCode, internal}
use pimio.JobQueue.{Disk}
use pimio.Migration.{
  Migration, Database, begin_, committed, rollback, execute, executed, go_on, run_statements,
  finish_migration, apply_migration,
}
use pimio.Base.{
  ◌⊎◌, inl, inr, Bool-cases, ℕ, ◌+◌, ◌≡◌, refl, ◌∙◌, Bool, true, false, not, Option, none, some,
  List, [], ◌∷◌, Text, if_cases,
}

module _ {S : Type 0} (exec : Text → S → Option S) where
  abbrev pub then_ : Option S → (S → Option S) → Option S
  then_ none next = none
  then_ (some s) next = next s

  -- The content after statements, if they all work.
  unfoldable pub contents : List Text → S → Option S
  contents [] s = some s
  contents (q ∷ qs) s = then_ (exec q s) (contents qs)

  -- What the loop over the statements leaves.
  abbrev Ran : List Text → Database S → Database S × Bool → Type 0
  Ran qs db (next, true) =
      (contents qs db.content ≡ some next.content)
      × (next.user_version ≡ db.user_version)
      × (next.saved ≡ db.saved)
  Ran qs db (next, false) = next.saved ≡ db.saved

  executed-Ran :
      (q : Text) (o : Option S) (db : Database S)
      → exec q db.content ≡ o
      → Ran (q ∷ []) db (executed exec o db)
  unfolding contents
  executed-Ran q none db e = refl
  executed-Ran q (some s) db e = (rw e refl, refl, refl)

  execute-Ran :
      (works : Bool) (q : Text) (db : Database S) → Ran (q ∷ []) db (execute exec works q db)
  execute-Ran true q db = executed-Ran q (exec q db.content) db refl
  execute-Ran false q db = refl

  contents-cons :
      (q : Text) (qs : List Text) (s t : S)
      → contents (q ∷ []) s ≡ some t
      → contents (q ∷ qs) s ≡ contents qs t
  unfolding contents
  contents-cons q qs s t e = go (exec q s) e
    where
      go : (o : Option S) → then_ o some ≡ some t → then_ o (contents qs) ≡ contents qs t
      go none h = cc
      go (some u) h = cc

  go_on-Ran :
      (q : Text) (qs : List Text) (rest : Database S → Database S × Bool) (db : Database S)
      (z : Database S × Bool)
      → ((next : Database S) → Ran qs next (rest next))
      → Ran (q ∷ []) db z
      → Ran (q ∷ qs) db (go_on exec rest z)
  go_on-Ran q qs rest db (next, false) all one = one
  go_on-Ran q qs rest db (next, true) all one = chain (rest next) (all next)
    where
      chain : (z : Database S × Bool) → Ran qs next z → Ran (q ∷ qs) db z
      chain (last, false) h = h ∙ one.2
      chain (last, true) h =
          (contents-cons q qs db.content next.content one.0 ∙ h.0, h.1 ∙ one.1, h.2 ∙ one.2)

  run_statements-Ran :
      (disk : Disk) (n : ℕ) (qs : List Text) (db : Database S)
      → Ran qs db (run_statements exec disk n qs db)
  unfolding run_statements contents
  run_statements-Ran disk n [] db = (refl, refl, refl)
  run_statements-Ran disk n (q ∷ qs) db =
      go_on-Ran q qs (run_statements exec disk (n + 1) qs) db (execute exec (disk n) q db)
        (run_statements-Ran disk (n + 1) qs) (execute-Ran (disk n) q db)

  -- A migration that ends without an error has run all its statements and set its version; one that
  -- ends with an error has committed nothing, and leaves its transaction open only if the rollback did
  -- not work.
  abbrev pub Step : Disk → Migration → Database S → Database S × Option ErrorCode → Type 0
  Step disk m db (next, none) =
      (contents m.statements db.content ≡ some next.content)
      × (next.user_version ≡ m.version)
      × (next.saved ≡ none)
  Step disk m db (next, some e) =
      (committed next ≡ db) × (e ≡ internal) × ((next.saved ≡ none) ⊎ (disk 3 ≡ false))

  undone :
      (db next : Database S)
      → db.saved ≡ none
      → next.saved ≡ (begin_ db).saved
      → committed next ≡ db
  undone db next h e = rw e (cc h)

  rolled_back :
      (disk : Disk) (m : Migration) (db next : Database S)
      → db.saved ≡ none
      → next.saved ≡ (begin_ db).saved
      → Step disk m db (rollback (disk 3) next, some internal)
  rolled_back disk m db next h e = elim (Bool-cases (disk 3)) [
    | inl works ↦ let back = undone db next h e in rw (works, back) (rw h refl, refl, inl h)
    | inr fails ↦ rw fails (undone db next h e, refl, inr refl)
  ]

  finish-Step :
      (disk : Disk) (m : Migration) (db : Database S) (z : Database S × Bool)
      → db.saved ≡ none
      → Ran m.statements (begin_ db) z
      → Step disk m db (finish_migration exec disk m z)
  finish-Step disk m db (next, false) h r = rolled_back disk m db next h r
  finish-Step disk m db (next, true) h r =
      if_cases (Step disk m db) (not (disk 1)) _ _ (λ _. rolled_back disk m db next h r.2)
        λ _.
          let bumped = record next { user_version = m.version } in
          if_cases (Step disk m db) (not (disk 2)) _ _ (λ _. rolled_back disk m db bumped h r.2)
            (λ _. (r.0, refl, refl))

  pub apply_migration-Step :
      (disk : Disk) (m : Migration) (db : Database S)
      → db.saved ≡ none
      → Step disk m db (apply_migration exec disk m db)
  unfolding apply_migration
  apply_migration-Step disk m db h =
      if_cases (Step disk m db) (not (disk 0)) _ _ (λ _. (rw h refl, refl, inl h))
        λ _. finish-Step disk m db _ h (run_statements-Ran disk 4 m.statements (begin_ db))
