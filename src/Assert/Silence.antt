-- ===== src/Assert/Silence.antt =====
-- Whether an assertion that fails says so in the log.
use cevent_sample.Prelude.{
  ℕ, ◌≡◌, refl, arith, List, Bool, true, false, none, some, leb, if◌then◌else◌, ret, ◌>>=◌,
}
use cevent_sample.Log.{
  Logger, File, is_standard, value, level_error, ce_log_show_level, Level, Line,
}
use cevent_sample.Log.Levels.{line_of, ce_log_write_lem}
use cevent_sample.Assert.{Assertions, failed, text, ce_assert_enable, ce_assert0}

failed-if :
    (b : Bool) (line : Line) (called : Bool)
    → ((if b then ret none else ret (some line)) >>= λ written. ret (failed written called))
      ≡ ret (failed (if b then none else some line) called)
failed-if true line called = refl
failed-if false line called = refl

-- With assertions enabled and a standard stream open, one that fails writes its line exactly while the
-- level that was asked for is none: a program that asks for the level of errors, or any above, gets no
-- line. In each case the custom function is called if it is set, and the call ends in `assert(0)`.
pub ce_assert0_lem :
    (a : Assertions) (l : Logger) (shown : Level) (fp : File)
    → l.fp ≡ some fp
    → is_standard fp ≡ true
    → (file function : List ℕ) (line : ℕ)
    → ce_assert0 (ce_assert_enable a true) (ce_log_show_level l shown) false file function line
      ≡ ret (
          failed
            (if leb 1 (value shown)
              then none
              else some (line_of level_error file function line text))
            a.custom)
unfolding ce_assert0 ce_assert_enable ce_log_show_level
ce_assert0_lem a l shown fp opened standard file function line =
    simp
      (ce_log_write_lem (ce_log_show_level l shown) level_error fp opened standard (omega arith)
        file function line text)
      (failed-if (leb 1 (value shown)) (line_of level_error file function line text) a.custom)
