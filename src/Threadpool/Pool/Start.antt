-- ===== src/Threadpool/Pool/Start.antt =====
-- Workers of ThreadPool.h before any `Shutdown`: one that does not find itself, and the queue.
use server_dev_lib.Base.{ℕ, ◌≡◌, ◌≢◌, refl, ap, ◌∙◌, Bool, true, false, none, List, [], ◌∷◌, arith}
use server_dev_lib.Base.Map.{lookup, nat_eq}
use server_dev_lib.Threadpool.Pool.{
  Pool, Act, Place, step, run, move, create_thread, publish_worker, find_self, test_loop,
  mark_empty, take_task, finish_task, enqueue_task, shutdown_begin, shutdown_locked,
}

abbrev pub is_gone : Place → Bool
is_gone Place.absent = true
is_gone Place.returned = true
is_gone _ = false

-- No thread of the pool will do anything more.
abbrev AllGone : Pool → Type 0
AllGone p = (i : ℕ) → is_gone (p.place i) ≡ true

abbrev pub NoneCreates : List Act → Type 0
NoneCreates [] = Unit {0}
NoneCreates (Act.create i ∷ acts) = ⊥
NoneCreates (a ∷ acts) = NoneCreates acts

step-AllGone :
    (p : Pool) (a : Act)
    → NoneCreates (a ∷ [])
    → AllGone p
    → AllGone (step p a) × ((step p a).taken ≡ p.taken)
unfolding step publish_worker find_self test_loop mark_empty take_task finish_task enqueue_task
    shutdown_begin shutdown_locked
step-AllGone p (Act.create i) h g = absurd h
step-AllGone p (Act.publish i) h g = (g, refl)
step-AllGone p (Act.find i) h g = (λ j. ground (arith, g i, g j), ground (arith, g i))
step-AllGone p (Act.test i) h g = (λ j. ground (arith, g i, g j), ground (arith, g i))
step-AllGone p (Act.mark i) h g = (λ j. ground (arith, g i, g j), ground (arith, g i))
step-AllGone p (Act.take i) h g = (λ j. ground (arith, g i, g j), ground (arith, g i))
step-AllGone p (Act.finish i) h g = (λ j. ground (arith, g i, g j), ground (arith, g i))
step-AllGone p (Act.enqueue t) h g = (g, refl)
step-AllGone p Act.shutdown_flag h g = (λ j. ground (arith, g j), ground arith)
step-AllGone p Act.shutdown_clear h g = (λ j. ground (arith, g j), ground arith)

NoneCreates-cons :
    (a : Act) (acts : List Act) → NoneCreates (a ∷ acts) → NoneCreates (a ∷ []) × NoneCreates acts
NoneCreates-cons (Act.create i) acts h = absurd h
NoneCreates-cons _ acts h = (tt, h)

gone_takes_nothing :
    (p : Pool) (acts : List Act) → NoneCreates acts → AllGone p → (run p acts).taken ≡ p.taken
unfolding run
gone_takes_nothing p [] h g = refl
gone_takes_nothing p (a ∷ acts) h g =
    let (one, rest) = NoneCreates-cons a acts h in
    let (g', same) = step-AllGone p a one g in gone_takes_nothing (step p a) acts rest g' ∙ same

find-none :
    (p : Pool) (i : ℕ)
    → p.place i ≡ Place.starting
    → lookup i p.stat ≡ none
    → step p (Act.find i) ≡ move p i Place.returned
unfolding step find_self
find-none p i at unknown = rw (at, step, find_self, unknown) refl

-- A worker that looks itself up before the thread that made it has put its entry in the map returns
-- at once: on a pool where no thread is at work, no task is taken from then on, whatever happens, as
-- long as no other worker is made.
pub lost_worker_starves :
    (p : Pool) (i : ℕ) (acts : List Act)
    → ((j : ℕ) → is_gone (p.place j) ≡ true)
    → p.place i ≡ Place.absent
    → lookup i p.stat ≡ none
    → NoneCreates acts
    → (run p (Act.create i ∷ Act.find i ∷ Act.publish i ∷ acts)).taken ≡ p.taken
unfolding run step publish_worker
lost_worker_starves p i acts gone at unknown h =
    ap (λ (q : Pool). (run (step (step q (Act.find i)) (Act.publish i)) acts).taken) created
    ∙ ap (λ (q : Pool). (run (step q (Act.publish i)) acts).taken) (find-none made i here unknown)
    ∙ gone_takes_nothing lost acts h all_gone
  where
    made : Pool
    made = move p i Place.starting

    created : step p (Act.create i) ≡ made
    created = unfold step create_thread in rw at refl

    here : made.place i ≡ Place.starting
    here = ground arith

    lost : Pool
    lost = step (move made i Place.returned) (Act.publish i)

    all_gone : AllGone lost
    all_gone =
        (step-AllGone (move made i Place.returned) (Act.publish i) tt λ j. ground (arith, gone j)).0

abbrev pub NoneStops : List Act → Type 0
NoneStops [] = Unit {0}
NoneStops (a ∷ acts) = (a ≢ Act.shutdown_flag) × NoneStops acts

abbrev IsCalm : Pool → Type 0
IsCalm p = (p.stop ≡ false) × ((i : ℕ) → p.place i ≢ Place.broken)

step-IsCalm : (p : Pool) (a : Act) → a ≢ Act.shutdown_flag → IsCalm p → IsCalm (step p a)
unfolding step create_thread publish_worker find_self test_loop mark_empty take_task finish_task
    enqueue_task shutdown_locked
step-IsCalm p (Act.create i) h c = (ground arith, λ j. ground (arith, c.1 j))
step-IsCalm p (Act.publish i) h c = (ground arith, λ j. ground (arith, c.1 j))
step-IsCalm p (Act.find i) h c = (ground arith, λ j. ground (arith, c.1 j))
step-IsCalm p (Act.test i) h c = (ground arith, λ j. ground (arith, c.1 j))
step-IsCalm p (Act.mark i) h c = (ground arith, λ j. ground (arith, c.1 j))
step-IsCalm p (Act.take i) h c = (ground arith, λ j. ground (arith, c.1 j))
step-IsCalm p (Act.finish i) h c = (ground arith, λ j. ground (arith, c.1 j))
step-IsCalm p (Act.enqueue t) h c = c
step-IsCalm p Act.shutdown_flag h c = absurd (h refl)
step-IsCalm p Act.shutdown_clear h c = (ground arith, λ j. ground (arith, c.1 j))

-- Over any interleaving without `Shutdown`, from a running pool where no worker has taken the front of
-- an empty queue, none does.
pub run_no_break :
    (p : Pool) (acts : List Act) (i : ℕ)
    → p.stop ≡ false
    → ((j : ℕ) → p.place j ≢ Place.broken)
    → NoneStops acts
    → (run p acts).place i ≢ Place.broken
unfolding run
run_no_break p [] i going none_broken h = none_broken i
run_no_break p (a ∷ acts) i going none_broken h =
    let (going', none_broken') = step-IsCalm p a h.0 (going, none_broken) in
    run_no_break (step p a) acts i going' none_broken' h.1
