-- ===== src/Jobs/Queue.antt =====
-- `MemoryQueue` (apps/api/src/queue/memory.queue.ts): an array that is pushed to at its end and
-- shifted at its front.
pub mod Order
use booking_zoom_connect.Prelude.{
  ℕ, zero, suc, ◌≡◌, refl, ap, sym, ◌∙◌, length, Option, none, some, List, [], ◌∷◌, ◌++◌,
}

-- `enqueue`
unfoldable pub enqueue : ℕ → List ℕ → List ℕ
enqueue job items = items ++ (job ∷ [])

-- `dequeue`
unfoldable pub dequeue : List ℕ → Option ℕ × List ℕ
dequeue [] = (none, [])
dequeue (job ∷ items) = (some job, items)

unfoldable pub enqueue_all : List ℕ → List ℕ → List ℕ
enqueue_all [] items = items
enqueue_all (j ∷ js) items = enqueue_all js (enqueue j items)

abbrev pub got : Option ℕ × List ℕ → List ℕ → List ℕ
got (none, _) rest = rest
got (some j, _) rest = j ∷ rest

-- The jobs that the given number of calls of `dequeue` return, an empty answer left out.
unfoldable pub dequeue_all : ℕ → List ℕ → List ℕ
dequeue_all zero items = []
dequeue_all (suc n) items = let (j, rest) = dequeue items in got (j, rest) (dequeue_all n rest)
