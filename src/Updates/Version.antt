-- ===== src/Updates/Version.antt =====
-- service/src/settings/update_checker.cpp: the versions, commit ids, hashes and addresses of a release
-- manifest. A text is the list of its UTF-16 code units.
use ime_windows.Prelude.{
  ℕ, ◌+◌, ◌-◌, ◌*◌, ◌/◌, ◌%◌, Bool, false, not, ◌&&◌, ◌||◌, Option, none, some, List, [], ◌∷◌, ◌++◌,
  length, all, any, is_empty, list_eq, drop, ◌>>=◌, ◌==◌, leb, ltb, u64_mod, if◌then◌else◌,
}

pub record CalVersion : Type 0 where
  pub year : ℕ
  pub month : ℕ
  pub day : ℕ
  pub revision : ℕ

-- `character >= L'0' && character <= L'9'`.
abbrev pub is_digit : ℕ → Bool
is_digit c = leb 48 c && leb c 57

abbrev pub is_lower : ℕ → Bool
is_lower c = leb 97 c && leb c 102

abbrev pub is_upper : ℕ → Bool
is_upper c = leb 65 c && leb c 70

-- The loop over the characters, from the number read so far.
unfoldable pub parse_digits : ℕ → List ℕ → Option ℕ
parse_digits result [] = some result
parse_digits result (c ∷ cs) =
    let digit = c - 48 in
    let rest = parse_digits (result * 10 + digit) cs in
    if not (is_digit c)
    then none
    else if ltb ((u64_mod - 1 - digit) / 10) result
    then none
    else rest

unfoldable pub parse_calver_component : List ℕ → Option ℕ
parse_calver_component value = if is_empty value then none else parse_digits 0 value

-- The text before the first separator, and the text after it.
unfoldable pub cut_at : ℕ → List ℕ → Option (List ℕ × List ℕ)
cut_at separator [] = none
cut_at separator (c ∷ cs) =
    let later = cut_at separator cs in
    if c == separator
    then some ([], cs)
    else elim later [ none ↦ none | some found ↦ some (c ∷ found.0, found.1) ]

abbrev pub dot : ℕ
dot = 46

-- std::chrono::year_month_day::ok.
abbrev pub is_leap : ℕ → Bool
is_leap year = (year % 4 == 0 && not (year % 100 == 0)) || year % 400 == 0

abbrev pub last_day : ℕ → ℕ → ℕ
last_day year month =
    if month == 2
    then (if is_leap year then 29 else 28)
    else if month == 4 || month == 6 || month == 9 || month == 11
    then 30
    else 31

unfoldable pub is_date : ℕ → ℕ → ℕ → Bool
is_date year month day = leb 1 month && leb month 12 && leb 1 day && leb day (last_day year month)

abbrev pub has_sizes : List ℕ → List ℕ → List ℕ → Bool
has_sizes year month day = length year == 4 && length month == 2 && length day == 2

unfoldable pub parse_components : List ℕ → List ℕ → List ℕ → List ℕ → Option CalVersion
parse_components year_text month_text day_text revision_text = do
  year ← parse_calver_component year_text
  month ← parse_calver_component month_text
  day ← parse_calver_component day_text
  revision ← parse_calver_component revision_text
  if leb 2000 year && leb year 9999 && is_date year month day
      then some (record { year = year; month = month; day = day; revision = revision })
      else none

unfoldable pub parse_calver : List ℕ → Option CalVersion
parse_calver value = do
  (year, after_year) ← cut_at dot value
  (month, after_month) ← cut_at dot after_year
  (day, revision) ← cut_at dot after_month
  if any (λ c. c == dot) revision || not (has_sizes year month day)
      then none
      else parse_components year month day revision

unfoldable pub is_commit_id : List ℕ → Bool
is_commit_id value =
    leb 7 (length value)
    && leb (length value) 64
    && all (λ c. is_digit c || is_lower c || is_upper c) value

unfoldable pub is_sha256 : List ℕ → Bool
is_sha256 value = length value == 64 && all (λ c. is_digit c || is_lower c) value

-- What is left behind a prefix.
unfoldable pub strip_prefix : List ℕ → List ℕ → Option (List ℕ)
strip_prefix [] cs = some cs
strip_prefix (p ∷ ps) [] = none
strip_prefix (p ∷ ps) (c ∷ cs) = let rest = strip_prefix ps cs in if p == c then rest else none

-- "https://github.com/llavon-ime/ime-windows/releases/download/v".
abbrev pub download_page : List ℕ
download_page =
    104 ∷ 116 ∷ 116 ∷ 112 ∷ 115 ∷ 58 ∷ 47 ∷ 47 ∷ 103 ∷ 105 ∷ 116 ∷ 104 ∷ 117 ∷ 98 ∷ 46 ∷ 99 ∷ 111
    ∷ 109 ∷ 47 ∷ 108 ∷ 108 ∷ 97 ∷ 118 ∷ 111 ∷ 110 ∷ 45 ∷ 105 ∷ 109 ∷ 101 ∷ 47 ∷ 105 ∷ 109 ∷ 101 ∷ 45
    ∷ 119 ∷ 105 ∷ 110 ∷ 100 ∷ 111 ∷ 119 ∷ 115 ∷ 47 ∷ 114 ∷ 101 ∷ 108 ∷ 101 ∷ 97 ∷ 115 ∷ 101 ∷ 115
    ∷ 47 ∷ 100 ∷ 111 ∷ 119 ∷ 110 ∷ 108 ∷ 111 ∷ 97 ∷ 100 ∷ 47 ∷ 118 ∷ []

-- ".exe".
abbrev pub exe : List ℕ
exe = 46 ∷ 101 ∷ 120 ∷ 101 ∷ []

unfoldable pub ends_with : List ℕ → List ℕ → Bool
ends_with suffix cs =
    leb (length suffix) (length cs) && list_eq (drop (length cs - length suffix) cs) suffix

-- No '/', '\\', '?' or '#', and nothing outside the printable ASCII characters.
abbrev pub is_name_character : ℕ → Bool
is_name_character c =
    not (c == 47) && not (c == 92) && not (c == 63) && not (c == 35) && leb 33 c && leb c 126

abbrev pub is_setup_name : List ℕ → Bool
is_setup_name filename =
    leb 5 (length filename) && ends_with exe filename && all is_name_character filename

unfoldable pub is_release_setup_url : List ℕ → List ℕ → Bool
is_release_setup_url url version = elim (strip_prefix (download_page ++ version ++ 47 ∷ []) url) [
  | none ↦ false
  | some filename ↦ is_setup_name filename
]
