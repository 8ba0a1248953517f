-- ===== src/Log.antt =====
-- The log of src/cevent/cevent/ce_log.c, as built for a system that is neither Windows nor Android.
-- `ce_log_write` gives the parts of a line; Text composes them, with the time of day, and prints them.
pub mod Paths
pub mod Levels
pub mod Text
pub mod Numbers
pub mod Layout
pub mod Plain
pub mod Printed
mod TextTests
mod Tests
use cevent_sample.Prelude.{
  ℕ, List, [], ◌∷◌, Bool, true, false, Option, none, some, ◌==◌, leb, if◌then◌else◌, Run, ret,
  fault, ◌>>=◌, take,
}

-- `ce_log_level`, in the order of its values
pub data Level : Type 0 where
  level_none level_error level_warn level_info level_debug : Level

abbrev pub value : Level → ℕ
value level_none = 0
value level_error = 1
value level_warn = 2
value level_info = 3
value level_debug = 4

-- a `FILE *` that is not NULL
pub data File : Type 0 where
  stdin stdout stderr : File
  opened_file : ℕ → File

-- `s_level`, `s_fp`, and whether the build is for Apple
pub record Logger : Type 0 where
  pub level : Level
  pub fp : Option File
  pub apple : Bool

-- the parts of a line
pub record Line : Type 0 where
  pub level_name : List ℕ
  pub text : List ℕ
  pub file : List ℕ
  pub function : List ℕ
  pub number : ℕ

abbrev pub is_standard : File → Bool
is_standard (opened_file _) = false
is_standard _ = true

unfoldable pub ce_log_open : Logger → Option File → Logger
ce_log_open l fp = record l { fp = fp }

unfoldable pub close_file : Logger → Option File → Logger
close_file l none = l
close_file l (some f) = if is_standard f then l else record l { fp = none }

unfoldable pub ce_log_close : Logger → Logger
ce_log_close l = close_file l l.fp

unfoldable pub ce_log_show_level : Logger → Level → Logger
ce_log_show_level l level = record l { level = level }

-- the string from the last `c` on
unfoldable pub strrchr : List ℕ → ℕ → Option (List ℕ)
strrchr [] c = none
strrchr (x ∷ xs) c =
    let rest = strrchr xs c in
    elim rest [ some ys ↦ some ys | none ↦ if x == c then some (x ∷ xs) else none ]

-- `suffix += 1`
abbrev pub behind : List ℕ → List ℕ
behind [] = []
behind (x ∷ xs) = xs

unfoldable pub suffix_name : Option (List ℕ) → Option (List ℕ) → List ℕ → List ℕ
suffix_name (some suffix) back c_file = behind suffix
suffix_name none (some suffix) c_file = behind suffix
suffix_name none none c_file = c_file

-- '/' is 47 and '\\' is 92
unfoldable pub file_name : List ℕ → List ℕ
file_name c_file = suffix_name (strrchr c_file 47) (strrchr c_file 92) c_file

-- "DEBUG", "INFO", "WARN", "ERROR"
unfoldable pub level_text : Level → List ℕ
level_text level_debug = 68 ∷ 69 ∷ 66 ∷ 85 ∷ 71 ∷ []
level_text level_info = 73 ∷ 78 ∷ 70 ∷ 79 ∷ []
level_text level_warn = 87 ∷ 65 ∷ 82 ∷ 78 ∷ []
level_text level_error = 69 ∷ 82 ∷ 82 ∷ 79 ∷ 82 ∷ []
level_text level_none = 69 ∷ 82 ∷ 82 ∷ 79 ∷ 82 ∷ []

-- the array `color`, of four elements
unfoldable pub color : Level → Run ℕ
color level_none = ret 3
color level_error = ret 9
color level_warn = ret 17
color level_info = ret 65
color level_debug = fault

-- `use_color` is 0 for Apple; elsewhere it stays -1, which is true.
unfoldable pub colored_fputs : Bool → Level → Line → Run (Option Line)
colored_fputs apple level line =
    if apple then ret (some line) else color level >>= λ c. ret (some line)

unfoldable pub write_line : Bool → File → Level → Line → Run (Option Line)
write_line apple fp level line = if is_standard fp then colored_fputs apple level line else ret none

-- `none` for `format` is NULL, and `some` is the text it makes. The result is what is written.
unfoldable pub ce_log_write :
    Logger → Level → List ℕ → List ℕ → ℕ → Option (List ℕ) → Run (Option Line)
ce_log_write l level c_file function number format =
    if leb (value level) (value l.level) then ret none else elim l.fp [
      | none ↦ ret none
      | some fp ↦ write_line l.apple fp level (record {
        level_name = level_text level;
        text = elim format [ none ↦ [] | some t ↦ take 4094 t ];
        file = file_name c_file;
        function = function;
        number = number;
      })
    ]

-- the macros
unfoldable pub ce_loge : Logger → List ℕ → List ℕ → ℕ → Option (List ℕ) → Run (Option Line)
ce_loge l = ce_log_write l level_none

unfoldable pub ce_logd : Logger → List ℕ → List ℕ → ℕ → Option (List ℕ) → Run (Option Line)
ce_logd l = ce_log_write l level_debug
