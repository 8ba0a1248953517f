-- ===== src/Assert/Tests.antt =====
-- An assertion that fails, with the log on a standard stream.
use cevent_sample.Prelude.{true, some}
use cevent_sample.Log.{Logger, level_none, stderr}

abbrev logger : Logger
logger = record { level = level_none; fp = some stderr; apple = true }
