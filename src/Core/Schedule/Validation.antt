-- ===== src/Core/Schedule/Validation.antt =====
-- `ScheduleConfig::validate` and `validate_cron` of crates/lmt-core/src/schedule.rs. Rust's
-- `split_whitespace`, which knows the spaces of Unicode, is a parameter.
use lzu_mirror_tools.Prelude.{
  ℕ, ◌-◌, Bool, ◌&&◌, ◌||◌, not, List, [], ◌∷◌, ◌==◌, Result, ok, err, if◌then◌else◌, length, leb,
  ◌>>=◌, ◌>>◌, map,
}
use lzu_mirror_tools.Prelude.Text.{Text, codes, text_eq}
use lzu_mirror_tools.Prelude.Tables.{exists_where}
use lzu_mirror_tools.Core.Schedule.{
  Calendar, ScheduleConfig, ScheduleError, interval, cron, parse_interval, from_library, ok_or,
  unknown_timezone, wrong_field_count, extended_syntax, unsupported_token,
}

abbrev pub month_names : List Text
month_names =
    codes "JAN"
    ∷ codes "FEB"
    ∷ codes "MAR"
    ∷ codes "APR"
    ∷ codes "MAY"
    ∷ codes "JUN"
    ∷ codes "JUL"
    ∷ codes "AUG"
    ∷ codes "SEP"
    ∷ codes "OCT"
    ∷ codes "NOV"
    ∷ codes "DEC"
    ∷ []

abbrev pub weekday_names : List Text
weekday_names =
    codes "SUN"
    ∷ codes "MON"
    ∷ codes "TUE"
    ∷ codes "WED"
    ∷ codes "THU"
    ∷ codes "FRI"
    ∷ codes "SAT"
    ∷ []

unfoldable pub is_upper : ℕ → Bool
is_upper byte = leb 65 byte && leb byte 90

unfoldable pub is_lower : ℕ → Bool
is_lower byte = leb 97 byte && leb byte 122

-- `to_uppercase` of a letter of ASCII, which is all that the words hold.
unfoldable pub to_upper : ℕ → ℕ
unfolding is_lower
to_upper byte = if is_lower byte then byte - 32 else byte

-- The words of letters between the other characters, empty ones included.
unfoldable pub split_words : Text → Text × List Text
unfolding is_upper is_lower
split_words [] = ([], [])
split_words (byte ∷ rest) =
    let (word, words) = split_words rest in
    if is_upper byte || is_lower byte then (byte ∷ word, words) else ([], word ∷ words)

-- `expression.contains(['@', '?', '#', '+'])`.
unfoldable pub is_extended : ℕ → Bool
is_extended byte = byte == 64 || byte == 63 || byte == 35 || byte == 43

unfoldable pub is_known_word : Text → Bool
unfolding exists_where
is_known_word word =
    exists_where (text_eq word) month_names || exists_where (text_eq word) weekday_names

unfoldable pub check_word : Text → Result ScheduleError (Unit {0})
unfolding is_known_word
check_word [] = ok tt
check_word (byte ∷ word) =
    if is_known_word (byte ∷ word) then ok tt else err (unsupported_token (byte ∷ word))

unfoldable pub check_words : List Text → Result ScheduleError (Unit {0})
unfolding check_word to_upper
check_words [] = ok tt
check_words (word ∷ words) = check_word (map to_upper word) >> check_words words

module _ (calendar : Calendar) (split_whitespace : Text → List Text) where
  open calendar use {parse_zone, parse_cron}

  unfoldable pub check_syntax : Text → Result ScheduleError (Unit {0})
  unfolding exists_where is_extended
  check_syntax expression =
      if not (length (split_whitespace expression) == 5)
      then err wrong_field_count
      else if exists_where is_extended expression
      then err extended_syntax
      else ok tt

  unfoldable pub check_tokens : Text → Result ScheduleError (Unit {0})
  unfolding split_words check_words
  check_tokens expression = let (word, words) = split_words expression in check_words (word ∷ words)

  unfoldable pub validate_cron : Text → Result ScheduleError (Unit {0})
  unfolding check_syntax check_tokens from_library
  validate_cron expression = do
    shaped ← check_syntax expression
    known ← check_tokens expression
    parsed ← from_library (parse_cron expression)
    ok tt

  unfoldable pub validate : ScheduleConfig → Result ScheduleError (Unit {0})
  unfolding parse_interval validate_cron ok_or
  validate (interval value) = do seconds ← parse_interval calendar value; ok tt
  validate (cron expression timezone) = do
    valid ← validate_cron expression
    zone ← ok_or (parse_zone timezone) (unknown_timezone timezone)
    ok tt
