-- ===== src/Threadpool/Timer/Calls.antt =====
-- What the thread in `Start` of Timer.h does until another thread calls `Stop`.
use server_dev_lib.Base.{
  ℕ, zero, suc, ◌+◌, ◌%◌, ◌^◌, ◌<◌, ◌≡◌, ap, ◌∙◌, true, false, some, List, [], ◌∷◌, ◌++◌,
  append_assoc, arith,
}
use server_dev_lib.Threadpool.Timer.{Timer, Outside, fire, round, start, create, stop_now}

-- What can be seen of a timer: `sleep_for`, and calls of its callables.
pub data Seen (C : Type 0) : Type 0 where
  slept : ℕ → Seen C
  called : C → Seen C

-- The timer after a sleep in which another thread calls `Stop`, or none does: `Stop` is called in the
-- last of the sleeps that are left.
abbrev asleep : {C : Type 0} → ℕ → Timer C → Timer C
asleep zero t = stop_now t
asleep (suc r) t = t

abbrev one_less : ℕ → ℕ
one_less zero = 0
one_less (suc r) = r

-- The world has what was seen, oldest first, and how many sleeps pass before the one with the call of
-- `Stop`.
abbrev pub stops_in : {C : Type 0} → Outside C (List (Seen C) × ℕ)
stops_in = record {
  call = λ f t w. (t, (w.0 ++ (Seen.called f ∷ []), w.1));
  sleep = λ i t w. (asleep w.1 t, (w.0 ++ (Seen.slept i ∷ []), one_less w.1));
}

-- `n` times a sleep and a call behind it.
unfoldable pub rounds_of : {C : Type 0} → ℕ → C → ℕ → List (Seen C)
rounds_of i f zero = []
rounds_of i f (suc n) = Seen.slept i ∷ Seen.called f ∷ rounds_of i f n

module _ {C : Type 0} (i : ℕ) (f : C) where
  -- The timer after `m` rounds.
  abbrev ticking : ℕ → Timer C
  ticking m = record { interval = i; stop = false; shoted_count = m % 2 ^ 64; cb = some f }

  counts_on : (m : ℕ) → (m % 2 ^ 64 + 1) % 2 ^ 64 ≡ (m + 1) % 2 ^ 64
  counts_on m = omega arith

  one_round : List (Seen C) → List (Seen C)
  one_round log = log ++ (Seen.slept i ∷ Seen.called f ∷ [])

  round-last :
      (m : ℕ) (log : List (Seen C))
      → round stops_in (ticking m, (log, 0))
        ≡ (record (ticking (m + 1)) { stop = true }, (one_round log, 0))
  unfolding round fire stop_now one_round
  round-last m log =
      ap
        (λ n. (
          record (ticking 0) { stop = true; shoted_count = n },
          ((log ++ (Seen.slept i ∷ [])) ++ (Seen.called f ∷ []), 0),
        ))
        (counts_on m)
      ∙ ap (λ l. (record (ticking (m + 1)) { stop = true }, (l, 0)))
          (append_assoc log (Seen.slept i ∷ []) (Seen.called f ∷ []))

  round-more :
      (r m : ℕ) (log : List (Seen C))
      → round stops_in (ticking m, (log, suc r)) ≡ (ticking (m + 1), (one_round log, r))
  unfolding round fire one_round
  round-more r m log =
      ap
        (λ n. (
          record (ticking 0) { shoted_count = n },
          ((log ++ (Seen.slept i ∷ [])) ++ (Seen.called f ∷ []), r),
        ))
        (counts_on m)
      ∙ ap (λ l. (ticking (m + 1), (l, r)))
          (append_assoc log (Seen.slept i ∷ []) (Seen.called f ∷ []))

  start_calls :
      (r fuel m : ℕ) (log : List (Seen C))
      → r + 1 < fuel
      → start stops_in fuel (ticking m, (log, r))
        ≡ some (record (ticking (m + (r + 1))) { stop = true }, (log ++ rounds_of i f (suc r), 0))
  unfolding start rounds_of one_round
  start_calls zero zero m log enough = absurd (omega arith)
  start_calls zero (suc zero) m log enough = absurd (omega arith)
  start_calls zero (suc (suc fuel)) m log enough = ap (start stops_in (suc fuel)) (round-last m log)
  start_calls (suc r) zero m log enough = absurd (omega arith)
  start_calls (suc r) (suc fuel) m log enough =
      let later : m + 1 + (r + 1) ≡ m + (suc r + 1) = omega arith in
      ap (start stops_in fuel) (round-more r m log)
      ∙ start_calls r fuel (m + 1) (one_round log) (omega arith)
      ∙ ap
          (λ n.
            some (record (ticking n) { stop = true }, (one_round log ++ rounds_of i f (suc r), 0)))
          later
      ∙ ap (λ l. some (record (ticking (m + (suc r + 1))) { stop = true }, (l, 0)))
          (append_assoc log (Seen.slept i ∷ Seen.called f ∷ []) (rounds_of i f (suc r)))

  -- The constructor with a callback, when another thread calls `Stop` in the sleep behind `r` full
  -- rounds, nothing else changes the timer, and the fuel is more than `r + 1`: it returns, and by then
  -- it has `r + 1` times slept for the interval and then called the callback, once more than before the
  -- `Stop`; it leaves the timer stopped, with these calls counted modulo 2 ^ 64.
  pub create_calls :
      (r fuel : ℕ)
      → r + 1 < fuel
      → create stops_in fuel i f ([], r)
        ≡ some (
          record { interval = i; stop = true; shoted_count = (r + 1) % 2 ^ 64; cb = some f },
          (rounds_of i f (r + 1), 0),
        )
  unfolding create
  create_calls r fuel enough =
      let next : suc r ≡ r + 1 = omega arith in
      start_calls r fuel 0 [] enough
      ∙ ap (λ n. some (record (ticking n) { stop = true }, (rounds_of i f (suc r), 0)))
          (let e : 0 + (r + 1) ≡ r + 1 = omega arith in e)
      ∙ ap (λ n. some (record (ticking (r + 1)) { stop = true }, (rounds_of i f n, 0))) next
