-- ===== src/Html.antt =====
-- src/MomentFerry.Web/wwwroot/app.js: escapeHtml, which every renderer puts around the values that
-- it places between tags and into quoted attributes.
pub mod Escaping
mod Tests
use moment_ferry.Common.{
  ℕ, ◌++◌, List, [], ◌∷◌, Option, none, some, ◌==◌, if◌then◌else◌, Text, codes, flat_map,
}

-- The replacement of one character.
pub escape_char : ℕ → Text
escape_char c =
    if c == b'&'
    then codes "&amp;"
    else if c == b'<'
    then codes "&lt;"
    else if c == b'>'
    then codes "&gt;"
    else if c == 39
    then codes "&#39;"
    else if c == 34
    then codes "&quot;"
    else c ∷ []

unfoldable pub escape_html : Text → Text
unfolding escape_char
escape_html = flat_map escape_char

-- `value ?? ''`: null and undefined render as the empty text.
unfoldable pub escape_value : Option Text → Text
unfolding escape_html
escape_value none = []
escape_value (some s) = escape_html s
