-- ===== src/Log/Printed.antt =====
-- What a line looks like where it is printed.
use cevent_sample.Prelude.{
  ℕ, ◌+◌, ◌-◌, ◌≤◌, ◌<◌, ◌≡◌, refl, ap, subst, ◌∙◌, Bool, true, false, none, some, List, [], ◌∷◌,
  ◌++◌, leb, if◌then◌else◌, Run, ret, ◌>>=◌, length, length-append, length-take, take, take-take,
  arith, take-append_ge, take-append_le, take_all, take_eq,
}
use cevent_sample.Log.{
  Logger, Level, level_none, level_error, level_warn, level_info, level_debug, value, File, stderr,
  is_standard, Line, level_text, file_name, color, ce_log_write,
}
use cevent_sample.Log.Levels.{line_of, ce_log_write_lem}
use cevent_sample.Log.Text.{
  Time, left_five, dated, place_text, message_text, logs, set_color, reset_color, fprintf, print_to,
  print_line, ce_log_print,
}
use cevent_sample.Log.Plain.{
  plain, plain-append, plain-take, plain-dated, plain-left_five, plain-place_text, fprintf-plain,
}
use cevent_sample.Log.Layout.{IsTime, read_fields, read_dated, take-dated}

-- a line up to its text, which is `rest`
abbrev pub headed : Time → Level → List ℕ → List ℕ
headed t level rest = dated t (left_five (level_text level) ++ (32 ∷ 45 ∷ 32 ∷ rest))

length-left_five : (level : Level) → length (left_five (level_text level)) ≡ 5
unfolding left_five level_text
length-left_five level_none = refl
length-left_five level_error = refl
length-left_five level_warn = refl
length-left_five level_info = refl
length-left_five level_debug = refl

module _ (t : Time) (v : IsTime t) where
  -- The time of a line is read back from its first columns, up to the year 9999, whatever the line says.
  pub time_is_read_back :
      (line : Line)
      → read_fields (4 ∷ 2 ∷ 2 ∷ 2 ∷ 2 ∷ 2 ∷ 3 ∷ []) (logs t line)
        ≡ (t.tm_year + 1900)
          ∷ (t.tm_mon + 1)
          ∷ t.tm_mday
          ∷ t.tm_hour
          ∷ t.tm_min
          ∷ t.tm_sec
          ∷ t.milliseconds
          ∷ []
  unfolding logs
  time_is_read_back line =
      ap (read_fields (4 ∷ 2 ∷ 2 ∷ 2 ∷ 2 ∷ 2 ∷ 3 ∷ [])) (take-dated t v 4070 (message_text line))
      ∙ read_dated t v (take 4070 (message_text line))

  -- the line behind its cut
  logs-headed :
      (level : Level) (line : Line)
      → line.level_name ≡ level_text level
      → logs t line ≡ headed t level (take 4062 (line.text ++ place_text line))
  unfolding logs message_text
  logs-headed level line e =
      let name = left_five (level_text level) in
      let rest = line.text ++ place_text line in
      take-dated t v 4070 _
      ∙ ap (dated t) (
          ap (λ x. take 4070 (left_five x ++ (32 ∷ 45 ∷ 32 ∷ rest))) e
          ∙ take-append_ge 4070 name (32 ∷ 45 ∷ 32 ∷ rest) (omega (arith, length-left_five level))
          ∙ ap (◌++◌ name) (
              take_eq {n = 4070 - length name} {m = 4065} (32 ∷ 45 ∷ 32 ∷ rest)
                (omega (arith, length-left_five level))))

-- what is written to which stream, for a colour
abbrev pub around : Bool → ℕ → File → List ℕ → List (File × List ℕ)
around apple c fp out =
    if apple then (fp, out) ∷ [] else (stderr, set_color c) ∷ (fp, out) ∷ (stderr, reset_color) ∷ []

has_color : (level : Level) → value level < 4 → (c : ℕ) × (color level ≡ ret c)
unfolding color
has_color level_none h = (3, refl)
has_color level_error h = (9, refl)
has_color level_warn h = (17, refl)
has_color level_info h = (65, refl)
has_color level_debug h = absurd (omega arith)

-- a call whose line is shown on a standard stream
pub record IsShown (l : Logger) (level : Level) (fp : File) : Type 0 where
  pub opened : l.fp ≡ some fp
  pub standard : is_standard fp ≡ true
  pub coloured : value level < 4
  pub shown : leb (value level) (value l.level) ≡ false

-- what `ce_log_write` is given, with no '%' in the strings that it prints
pub record IsPlain (c_file function text : List ℕ) : Type 0 where
  pub file : plain (file_name c_file) ≡ true
  pub in_function : plain function ≡ true
  pub message : plain text ≡ true

print_to_lem :
    (conversion : List ℕ → Run (List ℕ)) (apple : Bool) (fp : File) (level : Level) (str : List ℕ)
    {out : List ℕ} {c : ℕ}
    → fprintf conversion str ≡ ret out
    → color level ≡ ret c
    → print_to conversion apple fp level str ≡ ret (around apple c fp out)
unfolding print_to
print_to_lem conversion true fp level str text colour = rw text refl
print_to_lem conversion false fp level str text colour = rw (text, colour) refl

module _ (conversion : List ℕ → Run (List ℕ)) {l : Logger} {level : Level} {fp : File}
    (shows : IsShown l level fp) {t : Time} (v : IsTime t) {c_file function text : List ℕ}
    (p : IsPlain c_file function text) (number : ℕ) where
  abbrev line : Line
  line = line_of level c_file function number text

  abbrev Prints : List ℕ → Type 0
  Prints rest =
      (c : ℕ) × (ce_log_print conversion l level t c_file function number (some text)
        ≡ ret (around l.apple c fp (headed t level rest)))

  logs-plain : plain (logs t line) ≡ true
  unfolding logs message_text
  logs-plain = plain-take 4094 (dated t (message_text line)) (
      plain-dated t (message_text line) (
        plain-append (left_five (level_text level)) _ (plain-left_five level) (
          plain-append (take 4094 text) (place_text line) (plain-take 4094 text p.message)
            (plain-place_text line p.file p.in_function))))

  writes : ce_log_write l level c_file function number (some text) ≡ ret (some line)
  writes =
      ce_log_write_lem l level fp shows.opened shows.standard shows.coloured c_file function number
        text
      ∙ ap (λ b. if b then ret none else ret (some line)) shows.shown

  prints_line :
      ce_log_print conversion l level t c_file function number (some text)
      ≡ print_to conversion l.apple fp level (logs t line)
  unfolding ce_log_print print_line
  prints_line =
      ap (λ m. m >>= λ x. print_line conversion l level t l.fp x) writes
      ∙ ap (λ f. print_line conversion l level t f (some line)) shows.opened

  printed : Prints (take 4062 (take 4094 text ++ place_text line))
  printed =
      let (c, color_is) = has_color level shows.coloured in
      (
        c,
        prints_line
            ∙ print_to_lem conversion l.apple fp level (logs t line)
                (fprintf-plain conversion (logs t line) logs-plain) color_is
            ∙ ap (λ x. ret (around l.apple c fp x)) (logs-headed t v level line refl),
      )

  -- A line that is shown on an open standard stream, at a level below debug, at a time whose fields are in
  -- their ranges in a year before 10000, with no '%' in the text, the file's name and the function: if its text and place fit into 4062 bytes, it
  -- is printed whole, with the time, the level, the text and the place with its line end.
  pub short_line_is_whole :
      length text + length (place_text line) ≤ 4062
      → (c : ℕ) × (ce_log_print conversion l level t c_file function number (some text)
          ≡ ret (around l.apple c fp (headed t level (text ++ place_text line))))
  short_line_is_whole fits =
      let all : take 4094 text ≡ text = take_all 4094 text (omega (arith, fits)) in
      let whole : take 4062 (take 4094 text ++ place_text line) ≡ text ++ place_text line =
        ap (λ x. take 4062 (x ++ place_text line)) all
        ∙ take_all 4062 (text ++ place_text line)
            (omega (arith, fits, length-append text (place_text line))) in
      subst Prints whole printed

  -- A line as above, whose text has 4062 bytes or more, loses its place and its line end: its text is cut
  -- at 4062 bytes, and nothing follows.
  pub long_line_loses_end :
      4062 ≤ length text
      → (c : ℕ) × (ce_log_print conversion l level t c_file function number (some text)
          ≡ ret (around l.apple c fp (headed t level (take 4062 text))))
  long_line_loses_end long =
      let cut : take 4062 (take 4094 text ++ place_text line) ≡ take 4062 text =
        take-append_le 4062 (take 4094 text) (place_text line)
          (omega (arith, long, length-take 4094 text))
        ∙ take-take 4062 4094 text (omega arith) in
      subst Prints cut printed
