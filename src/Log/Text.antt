-- ===== src/Log/Text.antt =====
-- The text of a line as `ce_log_write` composes it with `snprintf`, and as `colored_fputs` prints it.
use cevent_sample.Prelude.{
  ℕ, zero, suc, ◌+◌, ◌-◌, ◌/◌, ◌%◌, List, [], ◌∷◌, ◌++◌, Bool, Option, none, some, ◌==◌, ltb,
  if◌then◌else◌, Run, ret, ◌>>=◌, take, length, replicate,
}
use cevent_sample.Log.{Logger, Level, File, stderr, Line, color, ce_log_write}

-- the fields of `struct tm` that are printed, and the milliseconds
pub record Time : Type 0 where
  pub tm_year : ℕ
  pub tm_mon : ℕ
  pub tm_mday : ℕ
  pub tm_hour : ℕ
  pub tm_min : ℕ
  pub tm_sec : ℕ
  pub milliseconds : ℕ

-- the decimal digits of a number; there are at most as many divisions by ten as its value
unfoldable pub digits : ℕ → ℕ → List ℕ
digits zero n = (48 + n % 10) ∷ []
digits (suc fuel) n =
    let rest = digits fuel (n / 10) in
    if ltb n 10 then (48 + n) ∷ [] else rest ++ ((48 + n % 10) ∷ [])

-- `%d`
unfoldable pub decimal : ℕ → List ℕ
decimal n = digits n n

-- `%0wd`
unfoldable pub padded : ℕ → ℕ → List ℕ
padded w n = replicate (w - length (decimal n)) 48 ++ decimal n

-- `%-5s`
unfoldable pub left_five : List ℕ → List ℕ
left_five xs = xs ++ replicate (5 - length xs) 32

-- "%04d-%02d-%02d %02d:%02d:%02d.%03d ", and what follows
unfoldable pub dated : Time → List ℕ → List ℕ
dated t rest =
    padded 4 (t.tm_year + 1900)
    ++ (45
        ∷ (padded 2 (t.tm_mon + 1)
            ++ (45
                ∷ (padded 2 t.tm_mday
                    ++ (32
                        ∷ (padded 2 t.tm_hour
                            ++ (58
                                ∷ (padded 2 t.tm_min
                                    ++ (58
                                        ∷ (padded 2 t.tm_sec
                                            ++ (46
                                                ∷ (padded 3 t.milliseconds
                                                    ++ (32 ∷ rest)))))))))))))

-- " [%s/%s(%d)]\r\n"
unfoldable pub place_text : Line → List ℕ
place_text line =
    32
    ∷ 91
    ∷ (line.file
        ++ (47 ∷ (line.function ++ (40 ∷ (decimal line.number ++ (41 ∷ 93 ∷ 13 ∷ 10 ∷ []))))))

-- "%-5s - %s [%s/%s(%d)]\r\n"
unfoldable pub message_text : Line → List ℕ
message_text line = left_five line.level_name ++ (32 ∷ 45 ∷ 32 ∷ (line.text ++ place_text line))

-- the array `logs`, up to its NUL: `snprintf` is given a size of 4095
unfoldable pub logs : Time → Line → List ℕ
logs t line = take 4094 (dated t (message_text line))

-- "\033[%d;3%dm" and "\033[0m"
unfoldable pub set_color : ℕ → List ℕ
set_color c = (27 ∷ 91 ∷ decimal (c / 16)) ++ (59 ∷ 51 ∷ decimal (c % 16)) ++ (109 ∷ [])

abbrev pub reset_color : List ℕ
reset_color = 27 ∷ 91 ∷ 48 ∷ 109 ∷ []

-- `fprintf(fp, str, NULL)` takes the line for a format. What it does from a '%' (37) on is a parameter.
unfoldable pub fprintf : (List ℕ → Run (List ℕ)) → List ℕ → Run (List ℕ)
fprintf conversion [] = ret []
fprintf conversion (x ∷ xs) =
    let rest = fprintf conversion xs in
    if x == 37 then conversion xs else rest >>= λ ys. ret (x ∷ ys)

module _ (conversion : List ℕ → Run (List ℕ)) where
  -- what is written to which stream
  unfoldable pub print_to : Bool → File → Level → List ℕ → Run (List (File × List ℕ))
  print_to apple fp level str =
      let text = fprintf conversion str in
      if apple
      then (text >>= λ out. ret ((fp, out) ∷ []))
      else color level >>= λ c.
          text >>= λ out. ret ((stderr, set_color c) ∷ (fp, out) ∷ (stderr, reset_color) ∷ [])

  unfoldable pub print_line :
      Logger → Level → Time → Option File → Option Line → Run (List (File × List ℕ))
  print_line l level t fp none = ret []
  print_line l level t none (some line) = ret []
  print_line l level t (some fp) (some line) = print_to l.apple fp level (logs t line)

  -- the whole call
  unfoldable pub ce_log_print :
      Logger → Level → Time → List ℕ → List ℕ → ℕ → Option (List ℕ) → Run (List (File × List ℕ))
  ce_log_print l level t c_file function number format =
      ce_log_write l level c_file function number format >>= λ line. print_line l level t l.fp line
