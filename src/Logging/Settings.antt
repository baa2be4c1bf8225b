-- ===== src/Logging/Settings.antt =====
-- The settings of include/server/logging: `GlobalConfig` of LogFile.h and the functions of Logging.h that
-- write it, and those that only store in the logger.
mod Tests
use server_dev_lib.Base.{
  ℕ, ◌*◌, ◌≡◌, ◌≢◌, refl, sym, ap, ◌∙◌, Bool, true, false, ◌||◌, Option, none, some, List, [], ◌∷◌,
  ◌++◌, ◌==◌, if◌then◌else◌, Bool-cases, inl, inr, arith,
}
use server_dev_lib.Base.Text.{codes}
use server_dev_lib.Logging.Stream.{LogLevel}

-- `LogFileConfig`, and the directories that were made.
pub record Config : Type 0 where
  pub logs_dir : List ℕ
  pub per_file_size : ℕ
  pub made : List (List ℕ)

-- `GlobalConfig`
unfoldable pub global_config : Config
global_config = record { logs_dir = codes "/tmp/"; per_file_size = 250 * 1024; made = [] }

unfoldable pub back : List ℕ → Option ℕ
back [] = none
back (c ∷ []) = some c
back (c ∷ d ∷ cs) = back (d ∷ cs)

-- `SetLogFileDir(dir)`, where `exists` says which directories there are; none is the `back()` of an empty
-- text.
unfoldable pub set_log_file_dir : (List ℕ → Bool) → List ℕ → Config → Option Config
unfolding back
set_log_file_dir exists dir g = elim (back dir) [
  | none ↦ none
  | some c ↦
      let dir' = if c == b'/' then dir else dir ++ (b'/' ∷ []) in
      some
        (record g { logs_dir = dir'; made = if exists dir' then g.made else g.made ++ (dir' ∷ []) })
]

-- `SetPerFileMaxSize(maxkb)`
unfoldable pub set_per_file_max_size : ℕ → Config → Config
set_per_file_max_size maxkb g = record g { per_file_size = maxkb }

-- `SetLogFileConfig(config)`
unfoldable pub set_log_file_config : (List ℕ → Bool) → Config → Config → Option Config
unfolding set_log_file_dir
set_log_file_config exists config g = elim (set_log_file_dir exists config.logs_dir g) [
  | none ↦ none
  | some g' ↦ some (record g' { per_file_size = config.per_file_size })
]

-- `_log_with_waiting`, `_waiting_ms` and `_level` of the logger
pub record Knobs : Type 0 where
  pub log_with_waiting : Bool
  pub waiting_ms : ℕ
  pub level : LogLevel

-- `SetLogLevel(level)` and `GetLogLevel()`
unfoldable pub set_log_level : LogLevel → Knobs → Knobs
set_log_level level k = record k { level = level }

unfoldable pub get_log_level : Knobs → LogLevel
get_log_level k = k.level

-- `LogWithWaiting(ms)`, which stores in the flag, and `LogWithWaiting()`
unfoldable pub log_with_waiting : ℕ → Knobs → Knobs
log_with_waiting ms k = record k { log_with_waiting = if ms == 0 then false else true }

unfoldable pub is_log_with_waiting : Knobs → Bool
is_log_with_waiting k = k.log_with_waiting

back-append : (xs : List ℕ) (c : ℕ) → back (xs ++ (c ∷ [])) ≡ some c
unfolding back
back-append [] c = refl
back-append (x ∷ []) c = refl
back-append (x ∷ y ∷ xs) c = back-append (y ∷ xs) c

-- What is known of the directory that is set.
record Sets (exists : List ℕ → Bool) (dir : List ℕ) (g : Config) : Type 0 where
  result : Config
  computed : set_log_file_dir exists dir g ≡ some result
  closed : back result.logs_dir ≡ some b'/'
  size : result.per_file_size ≡ g.per_file_size

back-some : (c : ℕ) (cs : List ℕ) → (d : ℕ) × (back (c ∷ cs) ≡ some d)
unfolding back
back-some c [] = (c, refl)
back-some c (d ∷ cs) = back-some d cs

set_log_file_dir-Sets :
    (exists : List ℕ → Bool) (c : ℕ) (cs : List ℕ) (g : Config) → Sets exists (c ∷ cs) g
unfolding set_log_file_dir
set_log_file_dir-Sets exists c cs g =
    let (d, last) = back-some c cs in
    elim (Bool-cases (d == b'/')) [
      | inl slash ↦ record {
        result = record g {
          logs_dir = c ∷ cs;
          made = if exists (c ∷ cs) then g.made else g.made ++ ((c ∷ cs) ∷ []);
        };
        computed = rw (last, set_log_file_dir, slash) refl;
        closed = let is_slash : d ≡ b'/' = ground arith in last ∙ ap some is_slash;
        size = refl;
      }
      | inr other ↦
          let dir' = (c ∷ cs) ++ (b'/' ∷ []) in
          record {
            result = record g {
              logs_dir = dir';
              made = if exists dir' then g.made else g.made ++ (dir' ∷ []);
            };
            computed = rw (last, set_log_file_dir, other) refl;
            closed = back-append (c ∷ cs) b'/';
            size = refl;
          }
    ]

-- A directory whose name is not empty, when it is there afterwards: the directory of the log files ends
-- in a slash, the size is kept, and setting the directory that is then set changes nothing.
set_log_file_dir_again :
    (exists after : List ℕ → Bool) (c : ℕ) (cs : List ℕ) (g : Config)
    → ((dir : List ℕ) → after dir ≡ true)
    → (g' : Config) × (set_log_file_dir exists (c ∷ cs) g ≡ some g')
      × (back g'.logs_dir ≡ some b'/')
      × (g'.per_file_size ≡ g.per_file_size)
      × (set_log_file_dir after g'.logs_dir g' ≡ some g')
unfolding set_log_file_dir
set_log_file_dir_again exists after c cs g there =
    let s = set_log_file_dir-Sets exists c cs g in
    (
      s.result,
      s.computed,
      s.closed,
      s.size,
      rw (s.closed, set_log_file_dir, there s.result.logs_dir) refl,
    )
