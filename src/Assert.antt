-- ===== src/Assert.antt =====
-- The assertions of src/cevent/cevent/ce_assert.c, as a build with DEBUG calls them.
pub mod Silence
mod Tests
use cevent_sample.Prelude.{
  ℕ, List, [], ◌∷◌, Bool, true, false, Option, none, some, not, ◌&&◌, if◌then◌else◌, Run, ret,
  fault, ◌>>=◌,
}
use cevent_sample.Log.{Logger, Line, level_error, ce_log_write}

-- `s_assert`, of which it is kept whether it is set, and `s_assert_enable`
pub record Assertions : Type 0 where
  pub custom : Bool
  pub enabled : Bool

-- the value that `s_assert_enable` starts with, by whether DEBUG is defined
unfoldable pub at_start : Bool → Assertions
at_start debug = record { custom = false; enabled = debug }

unfoldable pub ce_assert_custom : Assertions → Bool → Assertions
ce_assert_custom a set = record a { custom = set }

unfoldable pub ce_assert_enable : Assertions → Bool → Assertions
ce_assert_enable a enable = record a { enabled = enable }

-- the call returns, or it has written a line or none, has called the custom function or not, and ends
-- in the `assert(0)` of the C library
pub data Asserted : Type 0 where
  passed : Asserted
  failed : (line : Option Line) → (called : Bool) → Asserted

-- "assert"
abbrev pub text : List ℕ
text = 97 ∷ 115 ∷ 115 ∷ 101 ∷ 114 ∷ 116 ∷ []

unfoldable pub ce_assert0 :
    Assertions → Logger → Bool → (file function : List ℕ) → (line : ℕ) → Run Asserted
ce_assert0 a l r file function line =
    if a.enabled && not r
    then (do
      written ← ce_log_write l level_error file function line (some text)
      ret (failed written a.custom))
    else ret passed
