-- ===== src/Log/TextTests.antt =====
-- Two lines of one logger, a short one and a long one, and the theorems at them.
use cevent_sample.Prelude.{
  ℕ, ◌+◌, ◌≤◌, ◌≡◌, refl, true, some, List, [], ◌∷◌, ◌++◌, Run, ret, fault, take, length, replicate,
  length-replicate, arith,
}
use cevent_sample.Log.{
  Logger, stdout, level_error, level_warn, strrchr, suffix_name, file_name, level_text,
}
use cevent_sample.Log.Levels.{line_of}
use cevent_sample.Log.Text.{
  Time, digits, decimal, padded, left_five, dated, place_text, message_text, logs, ce_log_print,
}
use cevent_sample.Log.Layout.{IsTime, read_fields}
use cevent_sample.Log.Plain.{plain-replicate}
use cevent_sample.Log.Printed.{
  headed, time_is_read_back, around, IsShown, IsPlain, short_line_is_whole, long_line_loses_end,
}

abbrev time : Time
time = record {
  tm_year = 113;
  tm_mon = 4;
  tm_mday = 7;
  tm_hour = 8;
  tm_min = 9;
  tm_sec = 10;
  milliseconds = 11;
}

time-IsTime : IsTime time
time-IsTime = record {
  year = omega arith;
  month = omega arith;
  day = omega arith;
  hour = omega arith;
  minute = omega arith;
  second = omega arith;
  millisecond = omega arith;
}

abbrev logger : Logger
logger = record { level = level_error; fp = some stdout; apple = true }

-- "a/b.c", "f" and "ok"
abbrev c_file : List ℕ
c_file = 97 ∷ 47 ∷ 98 ∷ 46 ∷ 99 ∷ []

abbrev function : List ℕ
function = 102 ∷ []

abbrev ok : List ℕ
ok = 111 ∷ 107 ∷ []

-- "2013-05-07 08:09:10.011 WARN  - ok [b.c/f(12)]\r\n"
whole_line :
    logs time (line_of level_warn c_file function 12 ok)
    ≡ 50 ∷ 48 ∷ 49 ∷ 51 ∷ 45 ∷ 48 ∷ 53 ∷ 45 ∷ 48 ∷ 55 ∷ 32 ∷ 48 ∷ 56 ∷ 58 ∷ 48 ∷ 57 ∷ 58 ∷ 49 ∷ 48
      ∷ 46 ∷ 48 ∷ 49 ∷ 49 ∷ 32 ∷ 87 ∷ 65 ∷ 82 ∷ 78 ∷ 32 ∷ 32 ∷ 45 ∷ 32 ∷ 111 ∷ 107 ∷ 32 ∷ 91 ∷ 98
      ∷ 46 ∷ 99 ∷ 47 ∷ 102 ∷ 40 ∷ 49 ∷ 50 ∷ 41 ∷ 93 ∷ 13 ∷ 10 ∷ []
unfolding logs message_text dated padded decimal digits left_five level_text place_text file_name
    strrchr suffix_name
whole_line = refl

time_is_read_back_example :
    read_fields
      (4 ∷ 2 ∷ 2 ∷ 2 ∷ 2 ∷ 2 ∷ 3 ∷ [])
      (logs time (line_of level_warn c_file function 12 ok))
    ≡ 2013 ∷ 5 ∷ 7 ∷ 8 ∷ 9 ∷ 10 ∷ 11 ∷ []
time_is_read_back_example =
    time_is_read_back time time-IsTime (line_of level_warn c_file function 12 ok)

shown : IsShown logger level_warn stdout
shown = record { opened = refl; standard = refl; coloured = omega arith; shown = refl }

ok-IsPlain : IsPlain c_file function ok
unfolding file_name strrchr suffix_name
ok-IsPlain = record { file = refl; in_function = refl; message = refl }

-- a format that is never asked for a conversion
abbrev conversion : List ℕ → Run (List ℕ)
conversion xs = fault

ok_fits : length ok + length (place_text (line_of level_warn c_file function 12 ok)) ≤ 4062
unfolding place_text decimal digits file_name strrchr suffix_name
ok_fits = omega arith

short_line_is_whole_example :
    (c : ℕ) × (ce_log_print conversion logger level_warn time c_file function 12 (some ok)
      ≡ ret (
          around true c stdout
            (headed time level_warn (ok ++ place_text (line_of level_warn c_file function 12 ok)))))
short_line_is_whole_example = short_line_is_whole conversion shown time-IsTime ok-IsPlain 12 ok_fits

abbrev long : List ℕ
long = replicate 4062 97

long-IsPlain : IsPlain c_file function long
unfolding file_name strrchr suffix_name
long-IsPlain = record { file = refl; in_function = refl; message = plain-replicate 4062 97 refl }

long_is_long : 4062 ≤ length long
long_is_long = omega (arith, length-replicate {A = ℕ} 4062 97)

long_line_loses_end_example :
    (c : ℕ) × (ce_log_print conversion logger level_warn time c_file function 12 (some long)
      ≡ ret (around true c stdout (headed time level_warn (take 4062 long))))
long_line_loses_end_example =
    long_line_loses_end conversion shown time-IsTime long-IsPlain 12 long_is_long
