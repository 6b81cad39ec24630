-- ===== src/Thumbnail/Service/Runs.antt =====
-- The runs of src/thumbnail/src/thumbnail_service.cpp: sequences of its operations and of what the
-- pool's threads and the event loop do.
use pimio.Thumbnail.Request.{QStringArg, MediaRequest}
use pimio.Thumbnail.Service.{
  ThumbnailService, Answers, set_max_concurrency, request, cancel, cancel_all_except, work, deliver,
}
use pimio.Base.{ℕ, List, [], ◌∷◌, ℤ}

pub data Event : Type 0 where
  limits : ℤ → Event
  requests : MediaRequest → Event
  cancels : ℕ → Event
  cancels_all_except : List ℕ → Event
  works : ℕ → Answers → Event
  delivers_posted : Event

unfoldable pub operate : QStringArg → Event → ThumbnailService → ThumbnailService
operate arg (limits n) s = set_max_concurrency n s
operate arg (requests r) s = (request r s).0
operate arg (cancels h) s = cancel h s
operate arg (cancels_all_except keep) s = cancel_all_except keep s
operate arg (works n a) s = work arg n a s
operate arg delivers_posted s = deliver s

unfoldable pub serve : QStringArg → List Event → ThumbnailService → ThumbnailService
unfolding operate
serve arg [] s = s
serve arg (e ∷ es) s = serve arg es (operate arg e s)
