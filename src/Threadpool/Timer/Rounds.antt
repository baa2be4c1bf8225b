-- ===== src/Threadpool/Timer/Rounds.antt =====
-- How long `Start` of Timer.h runs.
use server_dev_lib.Base.{
  ℕ, zero, suc, ◌+◌, ◌%◌, ◌^◌, ◌≡◌, refl, ap, ◌∙◌, Bool, true, false, Option, none, some,
}
use server_dev_lib.Threadpool.Timer.{Timer, Outside, armed, fire, round, start, create, stop_now}

module _ {C W : Type 0} (outside : Outside C W) where
  looped : ℕ → Timer C × W → Bool → Option (Timer C × W)
  looped fuel s true = some s
  looped fuel s false = start outside fuel (round outside s)

  start-stopped :
      (fuel : ℕ) (s : Timer C × W) → s.0.stop ≡ true → start outside (suc fuel) s ≡ some s
  unfolding start looped
  start-stopped fuel s e = ap (looped fuel s) e

  start-going :
      (fuel : ℕ) (s : Timer C × W)
      → s.0.stop ≡ false
      → start outside (suc fuel) s ≡ start outside fuel (round outside s)
  unfolding start looped
  start-going fuel s e = ap (looped fuel s) e

  fire_on :
      ((f : C) (t : Timer C) (w : W) → t.stop ≡ false → (outside.call f t w).0.stop ≡ false)
      → (t : Timer C) (w : W) → t.stop ≡ false
      → (fire outside t w).0.stop ≡ false
  unfolding fire
  fire_on calm t w on = called t.cb
    where
      called :
          (cb : Option C)
          → (elim cb as (λ x. Timer C × W) [ none ↦ (t, w) | some f ↦ outside.call f t w ]).0.stop
            ≡ false
      called none = on
      called (some f) = calm f t w on

  -- `Start` in a timer that is not stopped does not return, however long it runs, when neither the
  -- callback nor another thread sets `_stop`.
  start_runs :
      ((t : Timer C) (w : W) → t.stop ≡ false → (outside.sleep t.interval t w).0.stop ≡ false)
      → ((f : C) (t : Timer C) (w : W) → t.stop ≡ false → (outside.call f t w).0.stop ≡ false)
      → (fuel : ℕ) (s : Timer C × W) → s.0.stop ≡ false
      → start outside fuel s ≡ none
  unfolding start round
  start_runs quiet calm zero s on = refl
  start_runs quiet calm (suc fuel) s on =
      let (t, w) = outside.sleep s.0.interval s.0 s.1 in
      start-going fuel s on
      ∙ start_runs quiet calm fuel (round outside s) (fire_on calm t w (quiet s.0 s.1 on))

  -- The constructor with a callback does not return, however long it runs, when neither the callback
  -- nor another thread sets `_stop`.
  create_hangs :
      (fuel interval : ℕ) (cb : C) (w : W)
      → ((t : Timer C) (w : W) → t.stop ≡ false → (outside.sleep t.interval t w).0.stop ≡ false)
      → ((f : C) (t : Timer C) (w : W) → t.stop ≡ false → (outside.call f t w).0.stop ≡ false)
      → create outside fuel interval cb w ≡ none
  unfolding create
  create_hangs fuel interval cb w quiet calm =
      start_runs quiet calm fuel (armed interval cb, w) refl

  counted : Timer C × W → Timer C × W
  counted (t, w) = (record t { shoted_count = (t.shoted_count + 1) % 2 ^ 64 }, w)

  fire-set : (f : C) (t : Timer C) (w : W) → t.cb ≡ some f → fire outside t w ≡ outside.call f t w
  unfolding fire
  fire-set f t w set = ap fired set
    where
      fired : Option C → Timer C × W
      fired none = (t, w)
      fired (some g) = outside.call g t w

  -- A timer with a callback that is stopped while its thread sleeps: the callback is called once more,
  -- on the stopped timer, before `Start` returns, when the call leaves `_stop` set.
  stop_is_late :
      (fuel : ℕ) (f : C) (t t' : Timer C) (w w' : W)
      → t.stop ≡ false
      → outside.sleep t.interval t w ≡ (stop_now t', w')
      → t'.cb ≡ some f
      → (outside.call f (stop_now t') w').0.stop ≡ true
      → let (t2, w2) = outside.call f (stop_now t') w' in
        start outside (suc (suc fuel)) (t, w)
        ≡ some (record t2 { shoted_count = (t2.shoted_count + 1) % 2 ^ 64 }, w2)
  unfolding round counted stop_now
  stop_is_late fuel f t t' w w' on slept set still =
      start-going (suc fuel) (t, w) on
      ∙ ap (λ s. start outside (suc fuel) (counted (fire outside s.0 s.1))) slept
      ∙ ap (λ s. start outside (suc fuel) (counted s)) (fire-set f (stop_now t') w' set)
      ∙ start-stopped fuel (counted (outside.call f (stop_now t') w')) still
