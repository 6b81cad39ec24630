-- ===== src/Lib.antt =====
-- A model of the core of pimio, a photo library: its jobs and watch pipeline, the scanner, the settings, the
-- readers of media files and the thumbnails, with the theorems that make them correct. Paths are from the
-- repository's root.
--
-- The parts and how they interact. A watch adapter reports raw file system events to WatchService
-- (src/watch/src/watch_service.cpp), which gives them to an EventCoalescer
-- (src/watch/src/event_coalescer.cpp). A timer asks the coalescer whether a batch is due; if it is, or if
-- the fallback interval has passed, the service puts a ReconcileRoot job into the durable job queue
-- (src/projection/src/job_queue_operations.cpp), an SQLite table. JobDispatcher
-- (src/projection/src/job_dispatcher.cpp) claims jobs from the queue, runs them on a thread pool and
-- writes the outcomes back. The table's schema is brought up to date by MigrationRunner
-- (src/projection/src/migration.cpp). The workers' readers of media files are beside the pipeline; of
-- them the reader of ISO base media files (src/metadata/src/iso_bmff_reader.cpp), the directories of TIFF
-- blocks (src/metadata/src/tiff_reader.cpp) and the media signatures
-- (src/metadata/src/media_signature.cpp) are here, and so is the disk cache of the thumbnails that
-- workers render (src/thumbnail/src/thumbnail_disk_cache.cpp). ThumbnailService
-- (src/thumbnail/src/thumbnail_service.cpp) takes the requests of the views
-- (src/core/src/media_request.cpp), looks them up in that cache and renders what is not there on a
-- thread pool; a view cancels what has scrolled away.
--
-- A ReconcileRoot job's worker (src/watch/src/reconcile_worker.cpp) runs the scanner
-- (src/scan/src/scanner.cpp) over a directory tree and then rebuilds the projection; the scanner
-- reads the tree, compares it with the records of the durable store
-- (src/core/include/pimio/core/durable_store.h) and stages and commits what changed. The only complete
-- store in the model is the one in memory (tests/support/src/memory_durable_store.cpp).
--
-- The files:
--   Base         what all share: texts, tests on numbers, lists, signed integers; the library's names.
--   Core         src/core/src/error.cpp and job.cpp: ErrorCode, Error, JobKind, JobPriority, JobState,
--                JobRecord; canRetry, runsBefore, isTerminal; the texts under which they are stored.
--   JobQueue     the table `job` as the list of its rows, with one function per method of JobQueue:
--                enqueue, claim, mark_succeeded, mark_failed, mark_cancelled, load, list_pending,
--                pending_count, recover_interrupted_jobs. Its children: Order is ORDER BY, Claim and
--                Batches are about `claim`, Grants counts the rows of one id, Coalescing is `enqueue`,
--                Steps has the writing calls as one data type, and Life, Keys and Retry are invariants
--                of their sequences; Dates compares the two orders of jobs, Reading is `load`.
--   Dispatcher   JobDispatcher: its state, its operations, the lambda that runs on the pool (`finish`)
--                and the completion that the event loop delivers (`complete`). Runs has them as one data
--                type, with the other clients of the queue; Slots, Flights, Writes, Handing, Signals,
--                Flags and Cancels are invariants of its runs.
--   Watch        Watch/Coalescer is EventCoalescer, Watch/Service is WatchService on top of the model of
--                the queue, Watch/Reconcile is runReconcileJob on top of the scanner.
--   Migration    MigrationRunner; Steps is one migration, Progress and Success are whole runs.
--   Metadata     IsoBmff has the boxes and their headers, Scans the walks up to readIsoBmff, Heif
--                readHeifImage; Boxes says where an accepted box lies, Tame which reads stay
--                inside the bytes, Walks that the walks end. Signature is signatureOf. Tiff is
--                readIfd with the integer values; Entries says what its entries are.
--   Thumbnail    DiskCache is ThumbnailDiskCache; Trims is about `trim`, Entries about the others.
--                Request is MediaRequest with its cache key, and Keys is about that key; QString::arg is a
--                parameter, with what its documentation says of a place. Service is
--                ThumbnailService: `request`, `cancel`, `cancel_all_except` and `destroy`, a step of
--                ThumbnailRunnable::run (`work`) and the posted lambda (`deliver`). Runs has them as one
--                data type; Tallies, Sound, Works and Calls are the invariant of its runs, Silence is
--                about cancelled items, Ends, Steps and Turns about how requests end, Keeps about
--                cancelAllExcept, Repeats about the service with its cache.
--   Store        the media record and the boundary DurableStore, as an interface with its laws; Memory is
--                the store in memory, Durable that it keeps the laws.
--   Scan         Scanner: Files has the helpers and collectEntries, Index the index of known records,
--                Steps the reconciliation of one file, Run the whole of `scan`. Sorting, Walk and Ends
--                are about the walk, Keeps and Survival about what a scan does not lose, Handled and Counts about
--                its result.
--   Settings     src/settings/src/settings.cpp: the parsing and the bounds; Setters has the setters,
--                resetToDefaults, reload and the constructor. Saved says what one write does to the
--                file, Writes and Reloads what the setters and reload do, Runs and Resets whole uses.
--   The modules named Tests apply the theorems to small inputs.
--
-- State is passed explicitly: an operation takes the state and returns the next one, with its result
-- where it has one. What the program gets from outside is an argument: the clock's readings, generated
-- ids, the adapter's answers, the workers' outcomes, and whether each SQL statement works. The last is
-- a `Disk`, a function from a statement's number within a call to a Boolean, so that a theorem for
-- every `Disk` covers every pattern of failures. A statement that does not work changes nothing, a
-- rollback included. SQL itself is written out on lists of rows. In Migration, what a statement does
-- to a database is a parameter.
--
-- The order in which QHash gives its keys is not defined; a hash is here a list in the order of insertion.
-- The thread pool and the event loop of ThumbnailService are any sequence of steps of runnables and
-- posted lambdas; a runnable's tests of the shared flag are steps of their own, and the calls of the cache
-- and the renderer are one step each. The pool's limit on its threads is not modelled. A callback that
-- calls the service is the events that follow it. A shared object is known by a number.
--
-- The files are the same throughout one scan. The walk over directories has fuel for their depth.
--
-- A floating-point number is a parameter of the settings, with the operations that the source uses.
--
-- Loops are structural recursion on the list they go over, but for the walks over boxes: they have
-- fuel for one call more than there are bytes, which both the box inside and the box after get less
-- one, and end with it since each of the two has fewer bytes before it. The offsets of a file are
-- 64-bit integers that wrap around. Numbers that the rest of the source keeps in machine integers
-- (attempts, counters, milliseconds) are unbounded here, and settings in milliseconds and attempt
-- counts are not negative. A date is its milliseconds since 1970, or nothing if it is invalid. A text
-- is the list of its code points: SQLite compares texts by them, and runsBefore by their UTF-16 units.
-- The messages of the errors that the queue and the migrations return are not kept, only their codes.
--
-- Not modelled: the opening of databases and the conversion of SQL values; JSON forms; the projection
-- tables, the Lore implementation of the durable store, the other metadata readers
-- (and of TIFF the EXIF fields), the thumbnail renderers, editing, and the
-- user interface, which are other parts of the program or calls of Qt, SQLite, the Lore library and
-- exiftool. The slots connected to the dispatcher's signals are not run.
pub mod Base
pub mod Core
pub mod JobQueue
pub mod Dispatcher
pub mod Watch
pub mod Migration
pub mod Metadata
pub mod Scan
pub mod Settings
pub mod Store
pub mod Thumbnail
