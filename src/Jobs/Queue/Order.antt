-- ===== src/Jobs/Queue/Order.antt =====
-- About `MemoryQueue` (apps/api/src/queue/memory.queue.ts): the order of the jobs.
use booking_zoom_connect.Prelude.{ℕ, ◌≡◌, refl, sym, ap, ◌∙◌, List, [], ◌∷◌, ◌++◌, length}
use booking_zoom_connect.Jobs.Queue.{enqueue, enqueue_all, dequeue, dequeue_all}

append-nil : (xs : List ℕ) → xs ++ [] ≡ xs
append-nil [] = refl
append-nil (x ∷ xs) = ap (λ l. x ∷ l) (append-nil xs)

append_assoc : (xs ys zs : List ℕ) → (xs ++ ys) ++ zs ≡ xs ++ (ys ++ zs)
append_assoc [] ys zs = refl
append_assoc (x ∷ xs) ys zs = ap (λ l. x ∷ l) (append_assoc xs ys zs)

enqueue_all-append : (js items : List ℕ) → enqueue_all js items ≡ items ++ js
unfolding enqueue_all enqueue
enqueue_all-append [] items = sym (append-nil items)
enqueue_all-append (j ∷ js) items =
    enqueue_all-append js (items ++ (j ∷ [])) ∙ append_assoc items (j ∷ []) js

dequeue_all-length : (items : List ℕ) → dequeue_all (length items) items ≡ items
unfolding dequeue_all dequeue
dequeue_all-length [] = refl
dequeue_all-length (j ∷ items) = ap (λ l. j ∷ l) (dequeue_all-length items)

-- Jobs that are put into the queue come out behind those that were in it, in the order in which
-- they were put in, each once.
pub first_in_first_out :
    (js items : List ℕ) → dequeue_all (length (items ++ js)) (enqueue_all js items) ≡ items ++ js
first_in_first_out js items =
    ap (dequeue_all (length (items ++ js))) (enqueue_all-append js items)
    ∙ dequeue_all-length (items ++ js)
