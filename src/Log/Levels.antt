-- ===== src/Log/Levels.antt =====
-- Which lines are written: the test of the level, the kinds of files, and the colours.
use cevent_sample.Prelude.{
  ℕ, ◌≡◌, ◌<◌, refl, Bool, true, false, Option, none, some, List, leb, leb_of_le, leb_of_lt,
  if◌then◌else◌, ret, fault, take, arith,
}
use cevent_sample.Log.{
  Logger, Level, level_none, level_error, level_warn, level_info, level_debug, value, File,
  is_standard, Line, level_text, file_name, color, colored_fputs, write_line, ce_log_write, ce_loge,
  ce_logd,
}

-- A line that `CE_LOGE` makes is never written, whatever level is shown and whatever file is open.
pub errors_are_silent :
    (l : Logger) (c_file function : List ℕ) (number : ℕ) (format : Option (List ℕ))
    → ce_loge l c_file function number format ≡ ret none
unfolding ce_loge ce_log_write
errors_are_silent l c_file function number format = simp (leb_of_le 0 (value l.level) (omega arith))

-- what is written for a format
abbrev pub line_of : Level → List ℕ → List ℕ → ℕ → List ℕ → Line
line_of level c_file function number text = record {
  level_name = level_text level;
  text = take 4094 text;
  file = file_name c_file;
  function = function;
  number = number;
}

fputs_below :
    (apple : Bool) (level : Level) (line : Line)
    → value level < 4
    → colored_fputs apple level line ≡ ret (some line)
unfolding colored_fputs color
fputs_below true level line h = refl
fputs_below false level_none line h = refl
fputs_below false level_error line h = refl
fputs_below false level_warn line h = refl
fputs_below false level_info line h = refl
fputs_below false level_debug line h = absurd (omega arith)

-- With a standard stream open, a line below the level of debug is dropped exactly if its level is at most the
-- one shown, and otherwise written with its text, of 4094 bytes at most, and the name of its file.
pub ce_log_write_lem :
    (l : Logger) (level : Level) (fp : File)
    → l.fp ≡ some fp
    → is_standard fp ≡ true
    → value level < 4
    → (c_file function : List ℕ) (number : ℕ) (text : List ℕ)
    → ce_log_write l level c_file function number (some text) ≡ (
        if leb (value level) (value l.level)
        then ret none
        else ret (some (line_of level c_file function number text)))
unfolding ce_log_write write_line
ce_log_write_lem l level fp opened terminal below c_file function number text =
    simp (
      opened,
      terminal,
      fputs_below l.apple level (line_of level c_file function number text) below,
    )

-- Where colours are used, a line at the level of debug that is shown on a standard stream reads behind the
-- end of the array of colours.
pub debug_lines_fault :
    (l : Logger) (fp : File)
    → l.fp ≡ some fp
    → is_standard fp ≡ true
    → l.apple ≡ false
    → value l.level < 4
    → (c_file function : List ℕ) (number : ℕ) (format : Option (List ℕ))
    → ce_logd l c_file function number format ≡ fault
unfolding ce_logd ce_log_write write_line colored_fputs color
debug_lines_fault l fp opened terminal colours shown c_file function number format =
    simp (opened, terminal, colours, leb_of_lt 4 (value l.level) shown)
