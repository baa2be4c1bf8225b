-- ===== src/Threadpool/Global/Tests.antt =====
-- Tests of the global pool, and its theorems at inputs that meet their hypotheses.
use server_dev_lib.Base.{ℕ, ◌≡◌, refl, some, List, [], ◌∷◌}
use server_dev_lib.Threadpool.Global.{testing, returned, untouched, advance, run}
use server_dev_lib.Threadpool.Global.Once.{same_pool}

-- Both threads see no pool; the second waits for the mutex, and finds the pool of the first.
abbrev race : List ℕ
race = 0 ∷ 1 ∷ 0 ∷ 1 ∷ 0 ∷ 0 ∷ 0 ∷ 0 ∷ 1 ∷ 1 ∷ 1 ∷ 1 ∷ []

both_return :
    let (pcs, m) = run race (λ t. testing) untouched in
    (pcs 0 ≡ returned 0) × (pcs 1 ≡ returned 0) × (pcs 2 ≡ testing)
unfolding run advance
both_return = (refl, refl, refl)

same_pool_example :
    let (pcs, m) = run race (λ t. testing) untouched in
    (◌≡◌ {A = ℕ} 0 0) × (m.pool ≡ some 0) × (m.made ≡ 1)
same_pool_example = same_pool race 0 1 0 0 both_return.0 both_return.1
