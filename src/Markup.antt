-- ===== src/Markup.antt =====
-- src/MomentFerry.Web/wwwroot/app.js: the markup that the renderers write, as pieces. A template
-- literal is its fixed text and what is put between: a text through escapeHtml, or a translation, a
-- number or an id as it is.
pub mod Pieces
pub mod Templates
pub mod Shares
pub mod Events
pub mod Operations
pub mod Overview
pub mod Progress
pub mod Storage
pub mod Sources
pub mod Meter
pub mod Preview
pub mod TaskList
pub mod Setup
pub mod Naming
pub mod Selects
pub mod Calendar
pub mod Cards
pub mod Dialogs
pub mod Folders
pub mod Choices
pub mod Boxes
pub mod Lists
pub mod Words
pub mod StorageWords
pub mod CardWords
pub mod Safety
pub mod Reports
mod Tests
use moment_ferry.Common.{
  ℕ, List, [], ◌∷◌, ◌++◌, Bool, true, false, if◌then◌else◌, ◌==◌, Text, codes, flat_map, Option,
  none, some, not, is_empty, String,
}
use moment_ferry.Model.{ShareRole, source, destination, both}
use moment_ferry.I18n.{t}
use moment_ferry.Format.{Locale, format_number}
use moment_ferry.Html.{escape_html}

-- `t(key)`
abbrev pub said : Locale → String → Text
said l key = t l.messages (codes key) none

-- The spelling of a role in the API, which is also the key of its translation.
abbrev pub role_name : ShareRole → Text
role_name source = codes "Source"
role_name destination = codes "Destination"
role_name both = codes "Both"

pub data Piece : Type 0 where
  -- Fixed text.
  lit : Text → Piece
  -- One of two fixed texts.
  pick : Bool → Text → Text → Piece
  -- `${escapeHtml(s)}`
  value : Text → Piece
  -- `${s}`
  word : Text → Piece

abbrev pub picked : Bool → Text → Text → Text
picked b one other = if b then one else other

abbrev pub print_piece : Piece → Text
print_piece (lit s) = s
print_piece (pick b one other) = picked b one other
print_piece (value s) = escape_html s
print_piece (word s) = s

-- The text that is assigned to innerHTML.
pub print : List Piece → Text
print = flat_map print_piece

-- What a browser reads: outside of tags, in a tag, or in a quoted value of an attribute.
pub data Place : Type 0 where
  outside tag quoted : Place

unfoldable pub after : Place → ℕ → Place
after outside c = if c == b'<' then tag else outside
after tag c = if c == 34 then quoted else if c == b'>' then outside else tag
after quoted c = if c == 34 then tag else quoted

unfoldable pub reach : Place → Text → Place
reach p [] = p
reach p (c ∷ s) = reach (after p c) s

-- The characters that make the tags: all but those between tags and in quoted values.
unfoldable pub tags : Place → Text → Text
tags p [] = []
tags outside (c ∷ s) = if c == b'<' then c ∷ tags tag s else tags outside s
tags tag (c ∷ s) = c ∷ tags (after tag c) s
tags quoted (c ∷ s) = if c == 34 then c ∷ tags tag s else tags quoted s

-- Pieces without the texts that are put in.
abbrev pub blank : Piece → Piece
blank (lit s) = lit s
blank (pick b one other) = pick b one other
blank (value s) = value []
blank (word s) = word []

pub skeleton : List Piece → List Piece
skeleton [] = []
skeleton (x ∷ xs) = blank x ∷ skeleton xs

-- `${t(key)}` and `${formatNumber(n)}`
abbrev pub say : Locale → String → Piece
say l key = word (said l key)

abbrev pub number : Locale → ℕ → Piece
number l n = word (format_number l (some n))

-- A template: pieces, and the blocks of pieces that a condition chooses.
pub data Part : Type 0 where
  always : List Piece → Part
  either : Bool → List Piece → List Piece → Part

abbrev pub part_pieces : Part → List Piece
part_pieces (always xs) = xs
part_pieces (either b xs ys) = if b then xs else ys

abbrev pub pieces : List Part → List Piece
pieces = flat_map part_pieces
