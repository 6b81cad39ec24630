-- ===== src/Migration/Progress.antt =====
-- How far a migration run of src/projection/src/migration.cpp gets, and what it has done by then.
use pimio.Core.Error.{ErrorCode, internal, conflict, corrupt_data}
use pimio.JobQueue.{Disk}
use pimio.Migration.{
  Migration, Database, Outcome, migrated, refused, is_skipped, is_contiguous, latest_version,
  committed, last_version, apply_all, continue_, migrate,
}
use pimio.Migration.Steps.{contents, then_, Step, apply_migration-Step}
use pimio.Base.{
  ℕ, zero, suc, ◌+◌, ◌≤◌, ◌<◌, ◌≡◌, refl, sym, ap, ◌∙◌, ◌⊎◌, inl, inr, Bool, true, false, not, ◌||◌,
  Option, none, some, List, [], ◌∷◌, if◌then◌else◌, Text, ◌≢◌, ℤ, pos, negsuc, int_ltb, int_eq,
  int_eq→≡, is_negative, take, drop, length, arith, leb, ltb, Bool-cases, if_cases,
}

pub version_of :
    (i : ℕ) (m : Migration) (rest : List Migration)
    → is_contiguous i (m ∷ rest) ≡ true
    → (m.version ≡ pos (i + 1)) × (is_contiguous (i + 1) rest ≡ true)
version_of i m rest h = elim (Bool-cases (int_eq m.version (pos (i + 1)))) [
  | inl e ↦ (int_eq→≡ m.version (i + 1) e, rw e at h)
  | inr e ↦ ground (arith, h)
]

pub skipped_if :
    (c t i : ℕ) (m : Migration)
    → m.version ≡ pos (i + 1)
    → is_skipped (pos c) (pos t) m ≡ (leb (i + 1) c || ltb t (i + 1))
skipped_if c t i m e = rw e

pub latest-length :
    (i : ℕ) (ms : List Migration)
    → is_contiguous i ms ≡ true
    → last_version (pos i) ms ≡ pos (i + length ms)
latest-length i [] h = ap pos (omega arith)
latest-length i (m ∷ rest) h =
    let (v, left) = version_of i m rest h in
    rw v (latest-length (i + 1) rest left ∙ ap pos (omega arith))

module _ {S : Type 0} (exec : Text → S → Option S) where
  -- The content after the statements of migrations, if they all work.
  unfoldable pub applied : List Migration → S → Option S
  applied [] s = some s
  applied (m ∷ ms) s = then_ exec (contents exec m.statements s) (applied ms)

  -- A run over `ms`, from version `from` on towards version t: it has committed a number of the
  -- migrations wholly and of the others nothing, and says whether that is all. A transaction is left
  -- open only where a rollback did not work.
  pub record Reaches (disks : ℕ → Disk) (from t : ℕ) (ms : List Migration) (before : S)
      (z : Database S × Outcome) : Type 0 where
    pub steps : ℕ
    pub version : (committed z.0).user_version ≡ pos (from + steps)
    pub closed : (z.0.saved ≡ none) ⊎ ((z.1 ≢ migrated) × (i : ℕ) × (disks i 3 ≡ false))
    pub content_ : applied (take steps ms) before ≡ some (committed z.0).content
    pub ending :
        ((z.1 ≡ migrated) × (from + steps ≡ t)) ⊎ ((z.1 ≡ refused internal) × (from + steps < t))

  pub skip_rest :
      (disks : ℕ → Disk) (c t i : ℕ) (rest : List Migration) (db : Database S)
      → t ≤ i
      → is_contiguous i rest ≡ true
      → apply_all exec disks i (pos c) (pos t) rest db ≡ (db, migrated)
  unfolding apply_all
  skip_rest disks c t i [] db h k = refl
  skip_rest disks c t i (m ∷ rest) db h k =
      let (v, left) = version_of i m rest k in
      let all : is_skipped (pos c) (pos t) m ≡ true = skipped_if c t i m v ∙ ground arith in
      rw all (skip_rest disks c t (i + 1) rest db (omega arith) left)

  stays :
      (disks : ℕ → Disk) (from t : ℕ) (ms : List Migration) (db : Database S)
      → db.user_version ≡ pos from
      → db.saved ≡ none
      → from ≡ t
      → Reaches disks from t ms db.content (db, migrated)
  unfolding applied
  stays disks from t ms db v h e = record {
    steps = 0;
    version = rw h (v ∙ ap pos (omega arith));
    closed = inl h;
    content_ = rw h refl;
    ending = inl (refl, omega (arith, e));
  }

  stops_short :
      (disks : ℕ → Disk) (i from t : ℕ) (ms : List Migration) (db after : Database S)
      → db.user_version ≡ pos from
      → from < t
      → committed after ≡ db
      → (after.saved ≡ none) ⊎ (disks i 3 ≡ false)
      → Reaches disks from t ms db.content (after, refused internal)
  unfolding applied
  stops_short disks i from t ms db after v short undone open_ = record {
    steps = 0;
    version = ap (λ (d : Database S). d.user_version) undone ∙ v ∙ ap pos (omega arith);
    closed = left_open open_;
    content_ = ap (λ (d : Database S). some d.content) (sym undone);
    ending = inr (refl, omega (arith, short));
  }
    where
      left_open :
          (after.saved ≡ none) ⊎ (disks i 3 ≡ false)
          → (after.saved ≡ none) ⊎ ((refused internal ≢ migrated) × (i : ℕ) × (disks i 3 ≡ false))
      left_open (inl e) = inl e
      left_open (inr e) = inr (λ q. cc, i, e)

  one_more :
      (disks : ℕ → Disk) (i t : ℕ) (m : Migration) (rest : List Migration) (before after : S)
      (z : Database S × Outcome)
      → contents exec m.statements before ≡ some after
      → Reaches disks (i + 1) t rest after z
      → Reaches disks i t (m ∷ rest) before z
  unfolding applied
  one_more disks i t m rest before after z done r = record {
    steps = suc r.steps;
    version = r.version ∙ ap pos (omega arith);
    closed = r.closed;
    content_ = rw done r.content_;
    ending = ground (arith, r.ending);
  }

  continue-Reaches :
      (disks : ℕ → Disk) (i t : ℕ) (m : Migration) (rest : List Migration) (db : Database S)
      (next : Database S → Database S × Outcome) (z : Database S × Option ErrorCode)
      → m.version ≡ pos (i + 1)
      → db.user_version ≡ pos i
      → db.saved ≡ none
      → i < t
      → ((after : Database S)
          → after.user_version ≡ pos (i + 1)
          → after.saved ≡ none
          → Reaches disks (i + 1) t rest after.content (next after))
      → Step exec (disks i) m db z
      → Reaches disks i t (m ∷ rest) db.content (continue_ exec next z)
  continue-Reaches disks i t m rest db next (after, none) v u h short all step =
      one_more disks i t m rest db.content after.content (next after) step.0
        (all after (step.1 ∙ v) step.2)
  continue-Reaches disks i t m rest db next (after, some e) v u h short all step =
      rw step.1 (stops_short disks i i t (m ∷ rest) db after u short step.0 step.2)

  run_rest :
      (disks : ℕ → Disk) (c t i : ℕ) (rest : List Migration) (db : Database S)
      → c ≤ i
      → i ≤ t
      → t ≤ i + length rest
      → is_contiguous i rest ≡ true
      → db.user_version ≡ pos i
      → db.saved ≡ none
      → Reaches disks i t rest db.content (apply_all exec disks i (pos c) (pos t) rest db)
  unfolding apply_all
  run_rest disks c t i [] db low high room k v h = stays disks i t [] db v h (omega arith)
  run_rest disks c t i (m ∷ rest) db low high room k v h =
      let (mv, left) = version_of i m rest k in
      elim (Bool-cases (leb t i)) [
        | inl e ↦
            rw (skip_rest disks c t i (m ∷ rest) db (ground arith) k)
              (stays disks i t (m ∷ rest) db v h (ground arith))
        | inr e ↦
            let taken : is_skipped (pos c) (pos t) m ≡ false =
              skipped_if c t i m mv ∙ ground arith in
            rw taken (
              continue-Reaches disks i t m rest db
                (apply_all exec disks (i + 1) (pos c) (pos t) rest) _ mv v h (ground arith)
                (λ after w g.
                  run_rest disks c t (i + 1) rest after (omega arith) (ground arith) (omega arith)
                    left w g)
                (apply_migration-Step exec (disks i) m db h))
      ]

  pub skip_done :
      (disks : ℕ → Disk) (c t i d : ℕ) (ms : List Migration) (db : Database S)
      → c ≡ i + d
      → is_contiguous i ms ≡ true
      → d ≤ length ms
      → (apply_all exec disks i (pos c) (pos t) ms db
          ≡ apply_all exec disks c (pos c) (pos t) (drop d ms) db)
        × (is_contiguous c (drop d ms) ≡ true)
        × (length ms ≡ d + length (drop d ms))
  unfolding apply_all
  skip_done disks c t i zero ms db e k room =
      let same : i ≡ c = omega arith in
      (
        ap (λ j. apply_all exec disks j (pos c) (pos t) ms db) same,
        ap (λ j. is_contiguous j ms) (sym same) ∙ k,
        omega arith,
      )
  skip_done disks c t i (suc d) [] db e k room = absurd (omega arith)
  skip_done disks c t i (suc d) (m ∷ ms) db e k room =
      let (v, left) = version_of i m ms k in
      let all : is_skipped (pos c) (pos t) m ≡ true = skipped_if c t i m v ∙ ground arith in
      let (same, rest, size) =
        skip_done disks c t (i + 1) d ms db (omega arith) left (omega arith) in
      (rw all same, rest, omega (arith, size))

  -- The version that a run aims at.
  abbrev pub goal : ℤ → List Migration → ℕ
  goal (pos t) ms = t
  goal (negsuc n) ms = length ms

  pub goal-target :
      (target : ℤ) (ms : List Migration)
      → is_contiguous 0 ms ≡ true
      → (if is_negative target then latest_version ms else target) ≡ pos (goal target ms)
  unfolding latest_version
  goal-target (pos t) ms k = refl
  goal-target (negsuc n) ms k = latest-length 0 ms k ∙ ap pos (omega arith)

  -- What `migrate` does from a database outside a transaction.
  pub data Migrates (disks : ℕ → Disk) (target : ℤ) (ms : List Migration) (db : Database S)
      (z : Database S × Outcome) : Type 0 where
    stops : z.0 ≡ db → z.1 ≢ migrated → Migrates disks target ms db z
    runs :
        (from : ℕ)
        → db.user_version ≡ pos from
        → from ≤ goal target ms
        → goal target ms ≤ length ms
        → Reaches disks from (goal target ms) (drop from ms) db.content z
        → Migrates disks target ms db z

  run_all :
      (disks : ℕ → Disk) (target : ℤ) (ms : List Migration) (db : Database S) (v : ℤ)
      → db.user_version ≡ v
      → db.saved ≡ none
      → is_contiguous 0 ms ≡ true
      → goal target ms ≤ length ms
      → is_negative v ≡ false
      → int_ltb (pos (goal target ms)) v ≡ false
      → Migrates disks target ms db (apply_all exec disks 0 v (pos (goal target ms)) ms db)
  run_all disks target ms db (negsuc n) e h k room p low = cc
  run_all disks target ms db (pos c) e h k room p low =
      let t = goal target ms in
      let from : c ≤ t = ground arith in
      let (same, left, size) = skip_done disks c t 0 c ms db (omega arith) k (omega arith) in
      runs c e from room
        (rw same (run_rest disks c t c (drop c ms) db (omega arith) from (omega arith) left e h))

  not_migrated : (e : ErrorCode) → refused e ≢ migrated
  not_migrated e h = cc

  -- `migrate` of a database that is in no transaction either stops at a check, with the database as it
  -- was and no success; or the database is at a version that the list reaches and no later than the
  -- goal, and then the run commits a number of the next migrations, each wholly, with the version set to
  -- the last of them, and of the others nothing, and reports success exactly if that is the goal. It
  -- leaves a transaction open only if it has no success and a rollback did not work; what is committed
  -- is then what is there without that transaction. A negative target is the newest version.
  pub migrate-Migrates :
      (reads : Bool) (disks : ℕ → Disk) (target : ℤ) (ms : List Migration) (db : Database S)
      → db.saved ≡ none
      → Migrates disks target ms db (migrate exec reads disks target ms db)
  unfolding migrate latest_version
  migrate-Migrates reads disks target ms db h =
      if_cases P (not (is_contiguous 0 ms)) _ _ (λ _. stops refl (not_migrated internal))
        λ k.
          let listed : is_contiguous 0 ms ≡ true = ground (arith, k) in
          rw (goal-target target ms listed, newest listed)
            (if_cases P (int_ltb (pos (length ms)) (pos (goal target ms))) _ _
              (λ _. stops refl (not_migrated internal))
              λ room.
                if_cases P (not reads) _ _ (λ _. stops refl (not_migrated corrupt_data))
                  λ _.
                    if_cases P (is_negative db.user_version) _ _ (λ _. stops refl (λ e. cc))
                      λ sign.
                        if_cases P (int_ltb (pos (goal target ms)) db.user_version) _ _
                          (λ _. stops refl (not_migrated conflict))
                          λ low.
                            run_all disks target ms db db.user_version refl h listed
                              (ground (arith, room)) sign low)
    where
      P : Database S × Outcome → Type 0
      P = Migrates disks target ms db

      newest : is_contiguous 0 ms ≡ true → latest_version ms ≡ pos (length ms)
      newest listed = latest-length 0 ms listed ∙ ap pos (omega arith)
