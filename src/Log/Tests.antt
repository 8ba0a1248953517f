-- ===== src/Log/Tests.antt =====
-- A log on a standard stream.
use cevent_sample.Prelude.{◌≡◌, refl, false, none, some, [], ◌∷◌, ret}
use cevent_sample.Log.{
  Logger, level_error, level_warn, stderr, strrchr, file_name, suffix_name, ce_log_write,
  write_line, colored_fputs, color, ce_loge,
}
use cevent_sample.Log.Levels.{line_of}

abbrev logger : Logger
logger = record { level = level_error; fp = some stderr; apple = false }

loge-silent : ce_loge logger (97 ∷ []) (98 ∷ []) 7 none ≡ ret none
unfolding ce_loge ce_log_write
loge-silent = refl

warn-written :
    ce_log_write logger level_warn (47 ∷ 97 ∷ []) (98 ∷ []) 7 (some (99 ∷ []))
    ≡ ret (some (line_of level_warn (47 ∷ 97 ∷ []) (98 ∷ []) 7 (99 ∷ [])))
unfolding ce_log_write write_line colored_fputs color
warn-written = refl

file_name-nested : file_name (97 ∷ 47 ∷ 98 ∷ 47 ∷ 99 ∷ []) ≡ 99 ∷ []
unfolding strrchr file_name suffix_name
file_name-nested = refl
