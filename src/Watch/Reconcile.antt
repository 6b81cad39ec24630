-- ===== src/Watch/Reconcile.antt =====
-- src/watch/src/reconcile_worker.cpp: what a ScanRoot or ReconcileRoot job does. The payload is a JSON
-- object as the list of its members; the projection is a state with a function that rebuilds it from
-- the store, and no projection is a null pointer.
use pimio.Core.Error.{Error, no_error, is_error, internal}
use pimio.Scan.Run.{cancelled_error}
use pimio.Store.{DurableStore}
use pimio.Watch.Service.{LibraryRoot}
use pimio.Scan.Index.{Environment, ScanState, ScanResult}
use pimio.Scan.Run.{scan}
use pimio.Scan.Ends.{IsAcyclic, collect_entries-ends}
use mathlib.Core.Option.{map}
use pimio.Base.{
  ℕ, ◌<◌, ◌≡◌, ◌⊎◌, inl, inr, Bool-cases, refl, Bool, true, false, not, ◌||◌, Option, none, some,
  List, [], Text, codes, is_empty, text_eq, find_at, put_at, if◌then◌else◌,
}

pub data JsonValue : Type 0 where
  string : Text → JsonValue
  boolean : Bool → JsonValue
  undefined : JsonValue

abbrev pub JsonObject : Type 0
JsonObject = List (Text × JsonValue)

-- QJsonObject::value, QJsonValue::toString and toBool(false).
abbrev pub value : Option JsonValue → JsonValue
value none = undefined
value (some v) = v

abbrev pub to_text : JsonValue → Text
to_text (string t) = t
to_text _ = []

abbrev pub to_bool : JsonValue → Bool
to_bool (boolean b) = b
to_bool _ = false

unfoldable pub make_root_job_payload : LibraryRoot → JsonObject
unfolding put_at
make_root_job_payload root =
    put_at (codes "followSymlinks") (boolean root.follow_symlinks)
      (put_at (codes "rootPath") (string root.absolute_path) [])

unfoldable pub root_from_job_payload : JsonObject → LibraryRoot
unfolding find_at
root_from_job_payload payload = record {
  absolute_path = to_text (value (find_at (codes "rootPath") payload));
  follow_symlinks = to_bool (value (find_at (codes "followSymlinks") payload));
}

-- The payload that WatchService gives a job.
unfoldable pub watch_payload : LibraryRoot → Bool → Bool → JsonObject
watch_payload root overflow periodic =
    put_at (codes "triggeredByPeriodicFallback") (boolean periodic)
      (put_at (codes "triggeredByOverflow") (boolean overflow) (make_root_job_payload root))

abbrev pub missing_path : Error
missing_path = record { code = internal; message = []; context = codes "{}" }

abbrev pub error_of : Option Error → Error
error_of none = no_error
error_of (some e) = e

-- What a job leaves; no `result` is a caller's result that was not written.
pub record Reconciled (D : DurableStore) (P : Type 0) : Type 0 where
  pub store : DurableStore.State D
  pub projection : Option P
  pub result : Option ScanResult
  pub error : Error

module _ (D : DurableStore) {P : Type 0}
    (rebuild_from : DurableStore.State D → P → P × Option Error) where
  unfoldable pub rebuild : DurableStore.State D → Option P → Option P × Error
  rebuild store none = (none, no_error)
  rebuild store (some p) = (some (rebuild_from store p).0, error_of (rebuild_from store p).1)

module _ (D : DurableStore) {P : Type 0}
    (rebuild_from : DurableStore.State D → P → P × Option Error) (v : Environment)
    (batch_size : ℕ) where
  -- The part behind the call of `scan`.
  unfoldable pub after_scan : Option P → ScanState D × Error → Reconciled D P
  unfolding is_error rebuild
  after_scan projection (s, scan_error) =
      if is_error scan_error
      then record {
        store = s.store;
        projection = projection;
        result = some s.result;
        error = scan_error;
      }
      else if v.is_cancelled s.readings
      then record {
        store = s.store;
        projection = projection;
        result = some s.result;
        error = cancelled_error;
      }
      else (let (q, e) = rebuild D rebuild_from s.store projection in
          record { store = s.store; projection = q; result = some s.result; error = e })

  unfoldable pub run_reconcile_job :
      ℕ → JsonObject → Option P → DurableStore.State D → Option (Reconciled D P)
  unfolding root_from_job_payload after_scan
  run_reconcile_job fuel payload projection store =
      let root = root_from_job_payload payload in
      if is_empty root.absolute_path
      then some
          (record { store = store; projection = projection; result = none; error = missing_path })
      else map (after_scan projection) (scan D v root batch_size fuel store)

-- The three ways in which a job that scanned ends.
abbrev pub Ends :
    (D : DurableStore) (P : Type 0) (rebuild_from : DurableStore.State D → P → P × Option Error)
    → Environment
    → Option P
    → ScanState D
    → Error
    → Reconciled D P
    → Type 0
Ends D P rebuild_from v projection s e o =
    ((is_error e ≡ true) × (o.error ≡ e) × (o.projection ≡ projection))
    ⊎ (((is_error e ≡ false)
          × (v.is_cancelled s.readings ≡ true)
          × (o.error ≡ cancelled_error)
          × (o.projection ≡ projection))
        ⊎ ((is_error e ≡ false)
            × (v.is_cancelled s.readings ≡ false)
            × (o.projection ≡ (rebuild D rebuild_from s.store projection).0)
            × (o.error ≡ (rebuild D rebuild_from s.store projection).1)))

module _ (D : DurableStore) {P : Type 0}
    (rebuild_from : DurableStore.State D → P → P × Option Error) (v : Environment)
    (batch_size : ℕ) where
  after_scan-Ends :
      (projection : Option P) (s : ScanState D) (e : Error)
      → let o = after_scan D rebuild_from v batch_size projection (s, e) in
        (o.store ≡ s.store) × (o.result ≡ some s.result) × Ends D P rebuild_from v projection s e o
  unfolding after_scan
  after_scan-Ends projection s e = elim (Bool-cases (is_error e)) [
    | inl failed ↦ rw failed (refl, refl, inl (refl, refl, refl))
    | inr fine ↦ elim (Bool-cases (v.is_cancelled s.readings)) [
      | inl gone ↦ rw (fine, gone) (refl, refl, inr (inl (refl, refl, refl, refl)))
      | inr goes ↦ rw (fine, goes) (refl, refl, inr (inr (refl, refl, refl, refl)))
    ]
  ]

  scan-ends :
      (height : Text → ℕ) (fuel : ℕ) (root : LibraryRoot) (store : DurableStore.State D)
      → IsAcyclic v.list_directory root.follow_symlinks height
      → height root.absolute_path < fuel
      → (r : ScanState D × Error) × (scan D v root batch_size fuel store ≡ some r)
  unfolding scan
  scan-ends height fuel root store acyclic deep =
      let (found, q) =
        collect_entries-ends v.list_directory root.follow_symlinks height acyclic fuel
          root.absolute_path [] deep in
      elim (Bool-cases
        (not (v.exists root.absolute_path) || not (v.is_directory root.absolute_path))) [
          | inl missing ↦ rw missing (_, refl)
          | inr there ↦ elim (Bool-cases (is_error (DurableStore.list_ids D store).1)) [
            | inl failed ↦ rw (there, failed) (_, refl)
            | inr listed ↦ rw (there, listed, q) (_, refl)
          ]
        ]

  job_scans :
      (fuel : ℕ) (root : LibraryRoot) (overflow periodic : Bool) (projection : Option P)
      (store : DurableStore.State D) (r : ScanState D × Error)
      → is_empty root.absolute_path ≡ false
      → scan D v root batch_size fuel store ≡ some r
      → run_reconcile_job D rebuild_from v batch_size fuel
          (watch_payload root overflow periodic)
          projection
          store
        ≡ some (after_scan D rebuild_from v batch_size projection r)
  unfolding run_reconcile_job watch_payload make_root_job_payload put_at text_eq
  job_scans fuel root overflow periodic projection store r full q = rw (full, q) refl

-- A job with the payload that the watch service gives it, for a root with a path and a tree whose
-- followed directories have no cycle, scans exactly that root and ends. It leaves the scan's store and
-- the counts of the scan. If the scan fails, its error is the job's and the projection is as it was; if
-- the job is cancelled by then, that is its error and the projection is as it was; otherwise the
-- projection, if there is one, was rebuilt from the scanned store, and an error of that is the job's.
pub job-Ends :
    (D : DurableStore) (P : Type 0) (rebuild_from : DurableStore.State D → P → P × Option Error)
    (v : Environment) (batch_size fuel : ℕ) (height : Text → ℕ) (root : LibraryRoot)
    (overflow periodic : Bool) (projection : Option P) (store : DurableStore.State D)
    → is_empty root.absolute_path ≡ false
    → IsAcyclic v.list_directory root.follow_symlinks height
    → height root.absolute_path < fuel
    → (s : ScanState D) × (e : Error) × (o : Reconciled D P) × (scan D v root batch_size fuel store
        ≡ some (s, e))
      × (run_reconcile_job D rebuild_from v batch_size fuel
            (watch_payload root overflow periodic)
            projection
            store
          ≡ some o)
      × (o.store ≡ s.store)
      × (o.result ≡ some s.result)
      × Ends D P rebuild_from v projection s e o
job-Ends D P rebuild_from v batch_size fuel height root overflow periodic projection store full
      acyclic deep =
    let ((s, e), q) = scan-ends D rebuild_from v batch_size height fuel root store acyclic deep in
    let ends = after_scan-Ends D rebuild_from v batch_size projection s e in
    (
      s,
      e,
      after_scan D rebuild_from v batch_size projection (s, e),
      q,
      job_scans D rebuild_from v batch_size fuel root overflow periodic projection store (s, e) full
          q,
      ends.0,
      ends.1,
      ends.2,
    )
