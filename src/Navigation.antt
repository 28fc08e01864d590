-- ===== src/Navigation.antt =====
-- src/MomentFerry.Web/wwwroot/app.js, the views of the page and the display preferences: TITLES and
-- setView, readDisplayPreference, the first day of the week, and the theme (applyTheme).
pub mod Shown
mod Tests
use moment_ferry.Common.{
  ℕ, ◌-◌, ◌%◌, List, [], ◌∷◌, ◌++◌, Option, none, some, Bool, true, false, ◌||◌, if◌then◌else◌,
  ◌==◌, Text, codes, text_eq, includes, filter,
}

-- The own keys of TITLES.
abbrev pub views : List Text
views =
    codes "overview"
    ∷ codes "events"
    ∷ codes "shares"
    ∷ codes "groups"
    ∷ codes "renaming"
    ∷ codes "preview"
    ∷ codes "ops"
    ∷ codes "settings"
    ∷ codes "maintenance"
    ∷ codes "updates"
    ∷ codes "setup"
    ∷ []

-- The keys that every object inherits. What they lead to is no pair of texts.
abbrev pub inherited : List Text
inherited =
    codes "constructor"
    ∷ codes "toString"
    ∷ codes "toLocaleString"
    ∷ codes "valueOf"
    ∷ codes "hasOwnProperty"
    ∷ codes "isPrototypeOf"
    ∷ codes "propertyIsEnumerable"
    ∷ codes "__proto__"
    ∷ codes "__defineGetter__"
    ∷ codes "__defineSetter__"
    ∷ codes "__lookupGetter__"
    ∷ codes "__lookupSetter__"
    ∷ []

pub record Navigation : Type 0 where
  pub current_view : Text
  -- The sections that are not hidden.
  pub visible : List Text
  -- What stands after the `#` of the location.
  pub hash : Text
  -- setView threw before its end.
  pub threw : Bool

-- `titles[view]` is there.
abbrev pub has_title : Text → Bool
has_title view = includes views view || includes inherited view

abbrev pub show_view : Text → Navigation → Navigation
show_view view n =
    if includes views view
    then record {
      current_view = view;
      visible = filter (λ section. text_eq section view) views;
      hash = view;
      threw = false;
    }
    else record {
      current_view = view;
      visible = filter (λ section. text_eq section view) views;
      hash = n.hash;
      threw = true;
    }

-- setView: each view has one section. Taking the title apart throws where it is no pair.
unfoldable pub set_view : Text → Navigation → Navigation
set_view view n = show_view (if has_title view then view else codes "overview") n

-- The handler of hashchange: `location.hash.slice(1) || 'overview'`.
abbrev pub or_overview : Text → Text
or_overview [] = codes "overview"
or_overview (c ∷ s) = c ∷ s

unfoldable pub hash_change : Navigation → Navigation
unfolding set_view
hash_change n = set_view (or_overview n.hash) n

-- readDisplayPreference: `stored` is null where nothing is stored or the storage throws.
unfoldable pub read_display_preference : List Text → Option Text → Text
read_display_preference allowed none = codes "auto"
read_display_preference allowed (some stored) =
    if includes allowed stored then stored else codes "auto"

-- `TIME_OPTIONS.hour12`; none where the locale decides.
unfoldable pub hour12 : Option Text → Option Bool
unfolding read_display_preference
hour12 stored =
    let clock = read_display_preference (codes "12" ∷ codes "24" ∷ []) stored in
    if text_eq clock (codes "auto") then none else some (text_eq clock (codes "12"))

-- localeWeekStart: the first day of the browser's locale, where it tells one.
abbrev pub locale_week_start : Option ℕ → ℕ
locale_week_start none = 1
locale_week_start (some first_day) = first_day % 7

-- `Number(text)` of a digit.
abbrev pub digit_of : Text → ℕ
digit_of [] = 0
digit_of (c ∷ s) = c - b'0'

abbrev pub chosen_week_start : Option ℕ → Text → ℕ
chosen_week_start first_day preference =
    if text_eq preference (codes "auto") then locale_week_start first_day else digit_of preference

-- WEEK_START
unfoldable pub week_start : Option ℕ → Option Text → ℕ
unfolding read_display_preference
week_start first_day stored =
    chosen_week_start first_day (read_display_preference (codes "0" ∷ codes "1" ∷ []) stored)

pub record Theme : Type 0 where
  -- The attribute of the document, whether the label names the light theme, and what is stored.
  pub applied : Text
  pub labelled_light : Bool
  pub stored : Option Text

-- applyTheme; storing it may throw, which is caught.
unfoldable pub apply_theme : Bool → Text → Theme → Theme
apply_theme can_store theme p = record {
  applied = theme;
  labelled_light = text_eq theme (codes "light");
  stored = if can_store then some theme else p.stored;
}

-- The handler of themeToggle.
unfoldable pub toggle_theme : Bool → Theme → Theme
unfolding apply_theme
toggle_theme can_store p =
    apply_theme can_store
      (if text_eq p.applied (codes "light") then codes "dark" else codes "light") p

-- The theme at the start of the page.
unfoldable pub first_theme : Bool → Theme → Theme
unfolding apply_theme
first_theme can_store p =
    apply_theme can_store
      (if text_eq p.applied (codes "light") then codes "light" else codes "dark") p
