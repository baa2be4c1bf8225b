-- ===== src/Threadpool/Global.antt =====
-- `GetGlobalThreadPool` of include/server/threadpool/ThreadPool.h, a global object that is made when it
-- is first asked for, called by any number of threads. `Logger::GetLogger` of
-- include/server/logging/Logging.h has the same statements over a logger.
pub mod Once
mod Tests
use server_dev_lib.Base.{ℕ, ◌+◌, ◌≡◌, Option, none, some, List, [], ◌∷◌, ◌==◌, if◌then◌else◌}

-- The static variables of the function, with the thread that holds `mx` and the number of pools made;
-- a pool is named by how many were made before it.
pub record Statics : Type 0 where
  pub pool : Option ℕ
  pub owner : Option ℕ
  pub made : ℕ

-- Where a call stands: in front of the first test, of the lock, of the second test, of the creation,
-- of the unlocking and of `*pool`; or it has returned a pool, or followed a null pointer.
pub data Pc : Type 0 where
  testing locking testing_again making unlocking reading : Pc
  returned : ℕ → Pc
  crashed : Pc

-- The statics as the program starts.
abbrev pub untouched : Statics
untouched = record { pool = none; owner = none; made = 0 }

-- The next statement of the call of thread `i`; a thread that waits for the mutex stays where it is.
unfoldable pub advance : ℕ → Pc → Statics → Pc × Statics
advance i testing m = (elim m.pool [ none ↦ locking | some p ↦ reading ], m)
advance i locking m = elim m.owner [
  | none ↦ (testing_again, record m { owner = some i })
  | some j ↦ (locking, m)
]
advance i testing_again m = (elim m.pool [ none ↦ making | some p ↦ unlocking ], m)
advance i making m = (unlocking, record m { pool = some m.made; made = m.made + 1 })
advance i unlocking m = (reading, record m { owner = none })
advance i reading m = (elim m.pool [ none ↦ crashed | some p ↦ returned p ], m)
advance i (returned p) m = (returned p, m)
advance i crashed m = (crashed, m)

abbrev pub update : (ℕ → Pc) → ℕ → Pc → ℕ → Pc
update pcs i pc j = if j == i then pc else pcs j

-- The threads of a list, one after the other, each by one statement.
unfoldable pub run : List ℕ → (ℕ → Pc) → Statics → (ℕ → Pc) × Statics
unfolding advance
run [] pcs m = (pcs, m)
run (i ∷ order) pcs m = let (pc, m') = advance i (pcs i) m in run order (update pcs i pc) m'
