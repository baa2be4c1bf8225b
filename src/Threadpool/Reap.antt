-- ===== src/Threadpool/Reap.antt =====
-- How `Adjust` of include/server/threadpool/ThreadPool.h drops idle workers, once it has decided to.
mod Tests
use server_dev_lib.Base.{
  ℕ, ◌≡◌, refl, sym, ap, ◌∙◌, Bool, true, false, ◌&&◌, ◌||◌, Option, none, some, List, [], ◌∷◌,
  ◌==◌, if◌then◌else◌, arith, Bool-cases, inl, inr, ==_iff,
}
use server_dev_lib.Base.Map.{erase, nat_eq}
use server_dev_lib.Threadpool.Pool.{Stat, Pool, is_empty}

abbrev pub is_idle : Stat → Bool
is_idle Stat.empty = true
is_idle _ = false

-- The loop over `_workerStat` under the lock: the identifiers of `vec`, and the states.
unfoldable pub mark_idle : Bool → List (ℕ × Stat) → List ℕ × List (ℕ × Stat)
mark_idle no_tasks [] = ([], [])
mark_idle no_tasks ((i, s) ∷ stat) =
    let (vec, rest) = mark_idle no_tasks stat in
    if is_idle s && no_tasks then (i ∷ vec, (i, Stat.dead) ∷ rest) else (vec, (i, s) ∷ rest)

abbrev pub is_worker : ℕ → List ℕ → Bool
is_worker i [] = false
is_worker i (j ∷ workers) = (j == i) || is_worker i workers

-- The loop over `vec`. A worker that is erased takes its `std::thread` with it, which was not joined:
-- its destructor ends the program. `none` is that end.
unfoldable pub erase_workers : List ℕ → Pool → Option Pool
erase_workers [] p = some p
erase_workers (i ∷ vec) p =
    let rest = erase_workers vec (record p { stat = erase i p.stat }) in
    if is_worker i p.workers then none else rest

-- The branch of `Adjust` that drops workers.
unfoldable pub reap : Pool → Option Pool
unfolding mark_idle erase_workers
reap p =
    let (vec, stat) = mark_idle (is_empty p.tasks) p.stat in
    erase_workers vec (record p { stat = stat })

-- Whether a worker is idle.
unfoldable pub has_idle : List (ℕ × Stat) → Bool
has_idle [] = false
has_idle ((i, s) ∷ stat) = is_idle s || has_idle stat

-- Every state belongs to a worker.
unfoldable pub IsRegistered : List ℕ → List (ℕ × Stat) → Type 0
IsRegistered workers [] = Unit {0}
IsRegistered workers ((i, s) ∷ stat) = (is_worker i workers ≡ true) × IsRegistered workers stat

mark_idle-none :
    (no_tasks : Bool) (stat : List (ℕ × Stat))
    → (no_tasks && has_idle stat) ≡ false
    → mark_idle no_tasks stat ≡ ([], stat)
unfolding mark_idle has_idle
mark_idle-none no_tasks [] e = refl
mark_idle-none no_tasks ((i, s) ∷ stat) e =
    let busy : (is_idle s && no_tasks) ≡ false = ground (arith, e) in
    let rest : (no_tasks && has_idle stat) ≡ false = ground (arith, e) in
    rw busy (ap (λ r. (r.0, (i, s) ∷ r.1)) (mark_idle-none no_tasks stat rest))

-- The first identifier of `vec`, when there is one, is a worker's.
mark_idle-some :
    (no_tasks : Bool) (workers : List ℕ) (stat : List (ℕ × Stat))
    → IsRegistered workers stat
    → (no_tasks && has_idle stat) ≡ true
    → (i : ℕ) × (vec : List ℕ) × ((mark_idle no_tasks stat).0 ≡ i ∷ vec)
      × (is_worker i workers ≡ true)
unfolding mark_idle has_idle IsRegistered
mark_idle-some true workers [] h e = absurd cc
mark_idle-some false workers [] h e = absurd cc
mark_idle-some no_tasks workers ((i, s) ∷ stat) h e = elim (Bool-cases (is_idle s && no_tasks)) [
  | inl idle ↦ (i, (mark_idle no_tasks stat).0, rw idle refl, h.0)
  | inr busy ↦
      let later : (no_tasks && has_idle stat) ≡ true = ground (arith, e, busy) in
      let (j, vec, first, works) = mark_idle-some no_tasks workers stat h.1 later in
      (j, vec, rw busy first, works)
]

-- When every state belongs to a worker, dropping idle workers ends the program if a worker is idle and
-- no task waits, and does nothing otherwise.
pub reap_lem :
    (p : Pool)
    → IsRegistered p.workers p.stat
    → reap p ≡ (if is_empty p.tasks && has_idle p.stat then none else some p)
unfolding reap erase_workers
reap_lem p h = elim (Bool-cases (is_empty p.tasks && has_idle p.stat)) [
  | inl idle ↦
      let no_tasks = is_empty p.tasks in
      let (i, vec, first, works) = mark_idle-some no_tasks p.workers p.stat h idle in
      rw idle (
        ap (λ v. erase_workers v (record p { stat = (mark_idle no_tasks p.stat).1 })) first
        ∙ rw works refl)
  | inr none_idle ↦ rw none_idle (
      ap (λ r. erase_workers r.0 (record p { stat = r.1 }))
        (mark_idle-none (is_empty p.tasks) p.stat none_idle))
]
