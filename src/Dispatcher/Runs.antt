-- ===== src/Dispatcher/Runs.antt =====
-- The runs of src/projection/src/job_dispatcher.cpp: sequences of its operations and of what its
-- threads, its event loop and the queue's other clients do.
use pimio.Core.Error.{Error}
use pimio.Core.Job.{JobRecord, JobKind}
use pimio.JobQueue.{Disk, enqueue, mark_cancelled}
use pimio.Dispatcher.{
  JobDispatcher, register_worker, set_max_concurrency, request_cancellation, start, poll, finish,
  complete, begin_stop, stop_round,
}
use pimio.Base.{ℕ, List, [], ◌∷◌, Text}

pub data Operation : Type 0 where
  registers : JobKind → Operation
  limits : ℕ → Operation
  starts : Disk → ℕ → Operation
  polls : Disk → ℕ → Operation
  finishes : ℕ → Error → Operation
  completes : Disk → Disk → ℕ → Operation
  requests_cancellation : Text → Operation
  begins_stop : Operation
  turns_stop : Disk → Disk → ℕ → Operation
  submits : Disk → JobRecord → Operation
  withdraws : Disk → Text → Operation

unfoldable pub operate : Operation → JobDispatcher → JobDispatcher
operate (registers kind) s = register_worker kind s
operate (limits n) s = set_max_concurrency n s
operate (starts disk now) s = start disk now s
operate (polls disk now) s = poll disk now s
operate (finishes n outcome) s = finish n outcome s
operate (completes disk disk' now) s = complete disk disk' now s
operate (requests_cancellation id) s = request_cancellation id s
operate begins_stop s = begin_stop s
operate (turns_stop disk disk' now) s = (stop_round disk disk' now s).0
operate (submits disk job) s = record s { queue = (enqueue disk job s.queue).0 }
operate (withdraws disk id) s = record s { queue = (mark_cancelled disk id s.queue).0 }

unfoldable pub serve : List Operation → JobDispatcher → JobDispatcher
unfolding operate
serve [] s = s
serve (o ∷ os) s = serve os (operate o s)
