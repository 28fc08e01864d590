-- ===== src/Paths.antt =====
-- src/MomentFerry.Web/wwwroot/app.js: the share that owns a path, the base name of a path, and the
-- destination folder that an event's template stands for.
pub mod Owner
pub mod Names
pub mod Template
pub mod Folder
mod Tests
use moment_ferry.Common.{
  sort_falling, insert_falling, ℕ, zero, suc, ◌+◌, ◌-◌, List, [], ◌∷◌, ◌++◌, Option, none, some,
  Bool, true, false, ◌&&◌, ◌||◌, if◌then◌else◌, ◌==◌, leb, Text, codes, trim, starts_with,
  replace_char, map, filter, head?, length, is_empty, replicate, decimal,
}
use moment_ferry.Model.{Share, MediaEvent}
use moment_ferry.I18n.{Messages, t}
use moment_ferry.Picker.{Civil}

-- `.replace(/\\/g, '/')`
abbrev pub slashes : Text → Text
slashes = replace_char 92 b'/'

sort_longest : List Share → List Share
unfolding sort_falling
sort_longest = sort_falling (λ s. length s.path)

unfoldable pub share_for_path : List Share → Option Text → Option Share
unfolding sort_longest
share_for_path shares none = none
share_for_path shares (some path) =
    if is_empty path
    then none
    else head? (sort_longest (filter (λ s. starts_with (slashes path) (slashes s.path)) shares))

abbrev pub is_separator : ℕ → Bool
is_separator c = c == b'/' || c == 92

abbrev pub cons_first : ℕ → List Text → List Text
cons_first c [] = (c ∷ []) ∷ []
cons_first c (x ∷ xs) = (c ∷ x) ∷ xs

-- `split(/[\\/]/)`
abbrev pub split_path : Text → List Text
split_path [] = [] ∷ []
split_path (c ∷ s) =
    let rest = split_path s in if is_separator c then [] ∷ rest else cons_first c rest

abbrev pub last_part : List Text → Text
last_part [] = []
last_part (x ∷ []) = x
last_part (x ∷ y ∷ rest) = last_part (y ∷ rest)

unfoldable pub base_name : Text → Text
base_name path =
    if is_empty (last_part (split_path path)) then path else last_part (split_path path)

-- The characters that safeSegment replaces.
abbrev pub is_unsafe : ℕ → Bool
is_unsafe c =
    c == b'/'
    || (c == b':'
        || (c == b'*' || (c == b'?' || (c == 34 || (c == b'<' || (c == b'>' || c == b'|'))))))

unfoldable pub safe_segment : Text → Text
safe_segment value =
    if is_empty (trim value)
    then codes "unnamed"
    else map (λ c. if is_unsafe c then b'_' else c) (trim value)

abbrev pub fold : ℕ → ℕ
fold c = if leb b'A' c && leb c b'Z' then c + 32 else c

abbrev pub starts_with_token : Text → Text → Bool
starts_with_token s [] = true
starts_with_token [] (d ∷ token) = false
starts_with_token (c ∷ s) (d ∷ token) = fold c == d && starts_with_token s token

-- `replace(/token/gi, () => value)`, for a token in small letters: `skip` characters belong to the
-- match before.
pub replace_token : Text → Text → ℕ → Text → Text
replace_token token value skip [] = []
replace_token token value (suc skip) (c ∷ s) = replace_token token value skip s
replace_token token value zero (c ∷ s) = elim (starts_with_token (c ∷ s) token) [
  | true ↦ value ++ replace_token token value (length token - 1) s
  | false ↦ c ∷ replace_token token value zero s
]

-- `String(number).padStart(size, '0')`
pub pad : ℕ → ℕ → Text
pad number size = replicate (size - length (decimal number)) b'0' ++ decimal number

pub year_text : Option Civil → Text
unfolding pad
year_text none = codes "{year}"
year_text (some c) = pad c.year 4

pub month_text : Option Civil → Text
unfolding pad
month_text none = codes "{month}"
month_text (some c) = pad (c.month + 1) 2

pub day_text : Option Civil → Text
unfolding pad
day_text none = codes "{day}"
day_text (some c) = pad c.day 2

-- `event.type || t('Event')`
unfoldable pub type_text : Messages → Option Text → Text
type_text messages none = t messages (codes "Event") none
type_text messages (some []) = t messages (codes "Event") none
type_text messages (some (c ∷ s)) = c ∷ s

-- `captured` holds the local fields of the event's start, or none where that is no date.
unfoldable pub destination_folder : Messages → Option Civil → MediaEvent → Text
unfolding replace_token year_text month_text day_text type_text
destination_folder messages captured event =
    replace_token (codes "{day}") (day_text captured) zero (
      replace_token (codes "{month}") (month_text captured) zero (
        replace_token (codes "{year}") (year_text captured) zero (
          replace_token (codes "{event.type}") (safe_segment (type_text messages event.type)) zero (
            replace_token (codes "{event.name}") (safe_segment event.name) zero
              event.destination_folder_template))))

-- destinationPathFor
unfoldable pub destination_path_for : Messages → Option Civil → MediaEvent → Option Share → Text
unfolding destination_folder
destination_path_for messages captured event none =
    codes "destination" ++ (b'/' ∷ destination_folder messages captured event)
destination_path_for messages captured event (some destination) =
    destination.path ++ (b'/' ∷ destination_folder messages captured event)
