-- ===== src/Threadpool/Pool/Order.antt =====
-- Tasks of ThreadPool.h are taken in the order in which they were enqueued, each once.
use server_dev_lib.Base.{
  ℕ, ◌≡◌, ◌≢◌, refl, sym, ◌∙◌, List, [], ◌∷◌, ◌++◌, append-nil, append_assoc, arith,
}
use server_dev_lib.Base.Map.{nat_eq}
use server_dev_lib.Threadpool.Pool.{
  Pool, Act, Place, step, run, create_thread, publish_worker, find_self, test_loop, mark_empty,
  pop_task, take_task, finish_task, enqueue_task, shutdown_begin,
}

abbrev pub enqueued : List Act → List ℕ
enqueued [] = []
enqueued (Act.enqueue t ∷ acts) = t ∷ enqueued acts
enqueued (a ∷ acts) = enqueued acts

abbrev pub NoneClears : List Act → Type 0
NoneClears [] = Unit {0}
NoneClears (a ∷ acts) = (a ≢ Act.shutdown_clear) × NoneClears acts

abbrev passed : Pool → List ℕ
passed p = p.taken ++ p.tasks

pop_task-passed :
    (p : Pool) (i : ℕ) (ts : List ℕ) → p.tasks ≡ ts → passed (pop_task p i ts) ≡ passed p
unfolding pop_task
pop_task-passed p i [] e = refl
pop_task-passed p i (t ∷ ts) e = rw (append_assoc p.taken, e) refl

take_task-passed : (p : Pool) (i : ℕ) (at : Place) → passed (take_task p i at) ≡ passed p
unfolding take_task
take_task-passed p i Place.waiting = ground (arith, pop_task-passed p i p.tasks refl)
take_task-passed p i _ = refl

step-passed :
    (p : Pool) (a : Act)
    → a ≢ Act.shutdown_clear
    → passed (step p a) ≡ passed p ++ enqueued (a ∷ [])
unfolding step create_thread publish_worker find_self test_loop mark_empty finish_task enqueue_task
    shutdown_begin
step-passed p (Act.create i) h = ground (arith, append-nil (passed p))
step-passed p (Act.publish i) h = ground (arith, append-nil (passed p))
step-passed p (Act.find i) h = ground (arith, append-nil (passed p))
step-passed p (Act.test i) h = ground (arith, append-nil (passed p))
step-passed p (Act.mark i) h = ground (arith, append-nil (passed p))
step-passed p (Act.take i) h = take_task-passed p i (p.place i) ∙ sym (append-nil (passed p))
step-passed p (Act.finish i) h = ground (arith, append-nil (passed p))
step-passed p (Act.enqueue t) h = sym (append_assoc p.taken p.tasks (t ∷ []))
step-passed p Act.shutdown_flag h = ground (arith, append-nil (passed p))
step-passed p Act.shutdown_clear h = absurd (h refl)

enqueued-cons :
    (a : Act) (acts : List Act) → enqueued (a ∷ acts) ≡ enqueued (a ∷ []) ++ enqueued acts
enqueued-cons (Act.enqueue t) acts = refl
enqueued-cons _ acts = refl

-- Over any interleaving in which `Shutdown` does not reach its lock, the tasks that the workers have
-- taken, followed by those in the queue, are those that were there before, followed by the tasks
-- enqueued meanwhile: none is lost, repeated or overtaken.
pub run_fifo :
    (p : Pool) (acts : List Act)
    → NoneClears acts
    → (run p acts).taken ++ (run p acts).tasks ≡ (p.taken ++ p.tasks) ++ enqueued acts
unfolding run
run_fifo p [] h = sym (append-nil (passed p))
run_fifo p (a ∷ acts) h =
    run_fifo (step p a) acts h.1
    ∙ rw (step-passed p a h.0, append_assoc (passed p), ← enqueued-cons a acts) refl
