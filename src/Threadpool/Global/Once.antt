-- ===== src/Threadpool/Global/Once.antt =====
-- `GetGlobalThreadPool` makes one pool, whatever the order of the threads' statements.
use server_dev_lib.Base.{
  ℕ, ◌≤◌, ◌≡◌, ◌≢◌, ◌⊎◌, inl, inr, refl, sym, ap, ◌∙◌, subst, Option, none, some, Bool-cases, List,
  [], ◌∷◌, ◌==◌, ==_iff, arith,
}
use server_dev_lib.Threadpool.Global.{
  Statics, Pc, testing, locking, testing_again, making, unlocking, reading, returned, crashed,
  untouched, advance, update, run,
}

-- The one pool is there, or it is not yet made.
AtMostOne : Statics → Type 0
AtMostOne m = ((m.pool ≡ none) × (m.made ≡ 0)) ⊎ ((m.pool ≡ some 0) × (m.made ≡ 1))

-- What a place in the call knows of the statics.
abbrev Knows : ℕ → Pc → Statics → Type 0
Knows i testing m = 0 ≤ m.made
Knows i locking m = 0 ≤ m.made
Knows i testing_again m = m.owner ≡ some i
Knows i making m = (m.owner ≡ some i) × (m.pool ≡ none)
Knows i unlocking m = (m.owner ≡ some i) × (m.pool ≡ some 0)
Knows i reading m = m.pool ≡ some 0
Knows i (returned p) m = (p ≡ 0) × (m.pool ≡ some 0)
Knows i crashed m = m.pool ≢ m.pool

-- What the statement of another thread leaves to thread `j`: the mutex and, with it, the pool; and a
-- pool that is there.
record Frame (j : ℕ) (m m' : Statics) : Type 0 where
  held : m.owner ≡ some j → (m'.owner ≡ some j) × (m'.pool ≡ m.pool)
  there : m.pool ≡ some 0 → m'.pool ≡ some 0

Knows-Frame : (j : ℕ) (pc : Pc) (m m' : Statics) → Frame j m m' → Knows j pc m → Knows j pc m'
Knows-Frame j testing m m' f k = omega arith
Knows-Frame j locking m m' f k = omega arith
Knows-Frame j testing_again m m' f k = (f.held k).0
Knows-Frame j making m m' f (o, p) = let (o', p') = f.held o in (o', p' ∙ p)
Knows-Frame j unlocking m m' f (o, p) = ((f.held o).0, f.there p)
Knows-Frame j reading m m' f k = f.there k
Knows-Frame j (returned p) m m' f (z, k) = (z, f.there k)
Knows-Frame j crashed m m' f k = absurd (k refl)

unmoved : (j : ℕ) (m : Statics) → Frame j m m
unmoved j m = record { held = λ o. (o, refl); there = λ p. p }

-- What one statement of thread `i` does.
record Advanced (i : ℕ) (pc : Pc) (m : Statics) (out : Pc × Statics) : Type 0 where
  one : AtMostOne out.1
  own : Knows i out.0 out.1
  others : (j : ℕ) → j ≢ i → Frame j m out.1

stays :
    {pc : Pc} {i : ℕ} {m : Statics} (pc' : Pc)
    → AtMostOne m
    → Knows i pc' m
    → Advanced i pc m (pc', m)
stays pc' one k = record { one = one; own = k; others = λ j d. unmoved j _ }

-- A pool that is there is the first.
AtMostOne-first : (m : Statics) {p : ℕ} → AtMostOne m → m.pool ≡ some p → m.pool ≡ some 0
unfolding AtMostOne
AtMostOne-first m (inl (no_pool, zero)) e = absurd cc
AtMostOne-first m (inr (pool, one)) e = pool

AtMostOne-untouched : (m : Statics) → AtMostOne m → m.pool ≡ none → m.made ≡ 0
unfolding AtMostOne
AtMostOne-untouched m (inl (no_pool, zero)) e = zero
AtMostOne-untouched m (inr (pool, one)) e = absurd cc

advance-Advanced :
    (i : ℕ) (pc : Pc) (m : Statics) → AtMostOne m → Knows i pc m → Advanced i pc m (advance i pc m)
unfolding advance AtMostOne
advance-Advanced i testing m one k = stays _ one (tested m.pool refl)
  where
    tested : (p : Option ℕ) → m.pool ≡ p → Knows i (elim p [ none ↦ locking | some p ↦ reading ]) m
    tested none e = k
    tested (some p) e = AtMostOne-first m one e
advance-Advanced i locking m one k = locked m.owner refl
  where
    locked :
        (o : Option ℕ)
        → m.owner ≡ o
        → Advanced i locking m
            (elim o [ none ↦ (testing_again, record m { owner = some i }) | some j ↦ (locking, m) ])
    locked none e = record {
      one = one;
      own = refl;
      others = λ j d. record { held = λ o. absurd cc; there = λ p. p };
    }
    locked (some j) e = stays locking one k
advance-Advanced i testing_again m one k = stays _ one (tested m.pool refl)
  where
    tested : (p : Option ℕ) → m.pool ≡ p → Knows i (elim p [ none ↦ making | some p ↦ unlocking ]) m
    tested none e = (k, e)
    tested (some p) e = (k, AtMostOne-first m one e)
advance-Advanced i making m one (o, p) =
    let zero = AtMostOne-untouched m one p in
    record {
      one = inr (ap some zero, omega (arith, zero));
      own = (o, ap some zero);
      others = λ j d. record { held = λ o'. absurd (d cc); there = λ q. ap some zero };
    }
advance-Advanced i unlocking m one (o, p) = record {
  one = one;
  own = p;
  others = λ j d. record { held = λ o'. absurd (d cc); there = λ q. q };
}
advance-Advanced i reading m one k = stays _ one (found m.pool refl)
  where
    found :
        (p : Option ℕ) → m.pool ≡ p → Knows i (elim p [ none ↦ crashed | some p ↦ returned p ]) m
    found none e = absurd cc
    found (some p) e = (cc, k)
advance-Advanced i (returned p) m one k = record { one = one; own = k; others = λ j d. unmoved j m }
advance-Advanced i crashed m one k = record { one = one; own = k; others = λ j d. unmoved j m }

-- No thread knows anything wrong.
record Inv (pcs : ℕ → Pc) (m : Statics) : Type 0 where
  one : AtMostOne m
  each : (i : ℕ) → Knows i (pcs i) m

run-Inv :
    (order : List ℕ) (pcs : ℕ → Pc) (m : Statics)
    → Inv pcs m
    → let (pcs', m') = run order pcs m in Inv pcs' m'
unfolding run
run-Inv [] pcs m inv = inv
run-Inv (i ∷ order) pcs m inv =
    let (pc, m') = advance i (pcs i) m in
    let next = advance-Advanced i (pcs i) m inv.one (inv.each i) in
    run-Inv order (update pcs i pc) m' (record {
      one = next.one;
      each = λ j. elim (Bool-cases (j == i)) [
        | inl same ↦ rw same (subst (λ t. Knows t pc m') (sym ((==_iff j i).0 same)) next.own)
        | inr other ↦
            rw other (Knows-Frame j (pcs j) m m' (next.others j (ground arith)) (inv.each j))
      ];
    })

Knows-apart : (i : ℕ) (pc : Pc) (m : Statics) → Knows i pc m → pc ≢ crashed
Knows-apart i crashed m k = absurd (k refl)
Knows-apart i _ m k = λ e. cc

start-Inv : Inv (λ t. testing) untouched
unfolding AtMostOne
start-Inv = record { one = inl (refl, refl); each = λ i. omega arith }

-- Any number of threads call the function, and their statements run in any order: at most one pool is
-- made, and no call follows a null pointer.
one_pool :
    (order : List ℕ) (i : ℕ)
    → let (pcs, m) = run order (λ t. testing) untouched in (m.made ≤ 1) × (pcs i ≢ crashed)
unfolding AtMostOne
one_pool order i =
    let (pcs, m) = run order (λ t. testing) untouched in
    let inv = run-Inv order (λ t. testing) untouched start-Inv in
    (
      elim inv.one [ inl (no_pool, zero) ↦ omega arith | inr (pool, one) ↦ omega arith ],
      Knows-apart i (pcs i) m (inv.each i),
    )

-- Any number of threads call the function, and their statements run in any order: the pools of two calls
-- that have returned are the same, and it is the only one made.
pub same_pool :
    (order : List ℕ) (i j a b : ℕ)
    → let (pcs, m) = run order (λ t. testing) untouched in
      pcs i ≡ returned a → pcs j ≡ returned b → (a ≡ b) × (m.pool ≡ some a) × (m.made ≡ 1)
unfolding AtMostOne
same_pool order i j a b first second =
    let (pcs, m) = run order (λ t. testing) untouched in
    let inv = run-Inv order (λ t. testing) untouched start-Inv in
    let (a0, pool) = subst (λ pc. Knows i pc m) first (inv.each i) in
    let (b0, pool') = subst (λ pc. Knows j pc m) second (inv.each j) in
    (
      a0 ∙ sym b0,
      pool ∙ ap some (sym a0),
      elim inv.one [ inl (no_pool, zero) ↦ cc | inr (there, one) ↦ one ],
    )
