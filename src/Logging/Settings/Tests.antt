-- ===== src/Logging/Settings/Tests.antt =====
-- Tests of the settings.
use server_dev_lib.Base.{◌≡◌, refl, true, false, none, some, [], ◌∷◌}
use server_dev_lib.Base.Text.{codes}
use server_dev_lib.Logging.Stream.{LogLevel}
use server_dev_lib.Logging.Settings.{
  Config, global_config, set_log_file_dir, set_per_file_max_size, set_log_file_config, Knobs,
  set_log_level, get_log_level, log_with_waiting, is_log_with_waiting,
}

-- A directory that is not there is made, with its slash.
makes_directory :
    set_log_file_dir (λ dir. false) (codes "/var/log") global_config
    ≡ some (record global_config { logs_dir = codes "/var/log/"; made = codes "/var/log/" ∷ [] })
unfolding set_log_file_dir global_config
makes_directory = refl

rejects_empty : set_log_file_dir (λ dir. true) [] global_config ≡ none
unfolding set_log_file_dir
rejects_empty = refl

abbrev wanted : Config
wanted = record { logs_dir = codes "/logs/"; per_file_size = 7; made = [] }

configures :
    set_log_file_config (λ dir. true) wanted (set_per_file_max_size 3 global_config) ≡ some wanted
unfolding set_log_file_config set_per_file_max_size global_config
configures = refl

abbrev knobs : Knobs
knobs = record { log_with_waiting = false; waiting_ms = 0; level = LogLevel.info }

-- The milliseconds end in the flag.
waits :
    let k = log_with_waiting 500 (set_log_level LogLevel.warn knobs) in
    (is_log_with_waiting k ≡ true) × (k.waiting_ms ≡ 0) × (get_log_level k ≡ LogLevel.warn)
unfolding log_with_waiting set_log_level is_log_with_waiting get_log_level
waits = (refl, refl, refl)
