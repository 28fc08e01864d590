-- ===== src/Markup/Storage.antt =====
-- app.js, renderStorage: the card of the overview on storage. The widths of the meter are rounded as
-- exact fractions.
use moment_ferry.Common.{
  ℕ, List, [], ◌∷◌, ◌++◌, Option, none, some, Bool, ◌&&◌, if◌then◌else◌, ◌==◌, ltb, Text, codes,
  ◌+◌, ◌*◌, ◌/◌, ◌%◌, pad2, is_some, decimal, or_blank, or_else_text,
}
use moment_ferry.I18n.{t}
use moment_ferry.Html.{escape_html}
use moment_ferry.Format.{Locale, format_bytes}
use moment_ferry.Markup.{Piece, lit, value, word, Part, always, either, pieces, said, say}

pub record StorageItem : Type 0 where
  pub share_id : Text
  pub name : Text
  pub path : Text
  pub exists : Bool
  pub available_free_space_bytes : Option ℕ
  pub below_reserve : Bool
  pub error : Option Text

pub record StorageInfo : Type 0 where
  pub items : List StorageItem
  pub minimum_free_space_reserve_bytes : ℕ

abbrev pub is_usable : StorageItem → Bool
is_usable x = x.exists && is_some x.available_free_space_bytes

-- The first usable item, and the others.
abbrev pub take_usable : List StorageItem → Option (StorageItem × List StorageItem)
take_usable [] = none
take_usable (x ∷ xs) =
    if is_usable x
    then some (x, xs)
    else elim (take_usable xs) [ none ↦ none | some (p, others) ↦ some (p, x ∷ others) ]

-- `items.find(...) || items[0]`
abbrev pub primary : StorageItem → List StorageItem → StorageItem × List StorageItem
primary x xs = elim (take_usable (x ∷ xs)) [ none ↦ (x, xs) | some found ↦ found ]

-- The width of the reserve and of the rest in hundredths of a percent; none is NaN.
abbrev pub meter : Bool → ℕ → ℕ → Option (ℕ × ℕ)
meter below free reserve =
    if below
    then some (10000, 0)
    else if free + reserve == 0
    then none
    else if ltb (200 * reserve) (3 * (free + reserve))
    then some (150, 9850)
    else some (
      (20000 * reserve + (free + reserve)) / (2 * (free + reserve)),
      (20000 * free + (free + reserve)) / (2 * (free + reserve)),
    )

abbrev pub two_digits : ℕ → Text
two_digits n = decimal (n / 100) ++ (b'.' ∷ pad2 (n % 100))

abbrev pub used_width : Option (ℕ × ℕ) → Text
used_width none = codes "NaN"
used_width (some (reserve, used)) = two_digits used

abbrev pub reserve_width : Option (ℕ × ℕ) → Text
reserve_width none = codes "NaN"
reserve_width (some (reserve, used)) = two_digits reserve

abbrev pub free_of : StorageItem → ℕ
free_of x = elim x.available_free_space_bytes [ none ↦ 0 | some n ↦ n ]

abbrev pub size_text : Locale → Option ℕ → Text
size_text l n = format_bytes l.messages n

abbrev pub missing_path : Locale → StorageItem → List Part
missing_path l x =
    always (
      lit (
        codes
          "\n      <div style=\"font-size:15px;font-weight:600;color:var(--red);margin-bottom:6px\">")
      ∷ say l "Path missing"
      ∷ lit (codes "</div>\n      <div style=\"font-size:12.5px;color:var(--mut)\">")
      ∷ value (
          or_else_text (or_blank x.error)
            (said l "MomentFerry cannot see this folder inside the container."))
      ∷ lit (
          codes
            "</div>\n      <div class=\"mono\" style=\"margin-top:auto;padding-top:14px;border-top:1px solid var(--line);font-size:11.5px;color:var(--dim)\">")
      ∷ value x.path
      ∷ lit (codes "</div>")
      ∷ [])
    ∷ []

-- A part of `others`, between separators.
abbrev pub other_item : Locale → StorageItem → List Piece
other_item l x =
    value x.name
    ∷ lit (codes ": ")
    ∷ word (
        if x.exists
        then t l.messages (codes "{{size}} free")
            (some ((codes "size", escape_html (size_text l x.available_free_space_bytes)) ∷ []))
        else said l "path missing")
    ∷ []

abbrev pub other_items : Locale → List StorageItem → List Piece
other_items l [] = []
other_items l (x ∷ []) = other_item l x
other_items l (x ∷ y ∷ rest) = other_item l x ++ (lit (codes " · ") ∷ other_items l (y ∷ rest))

abbrev pub storage_body : Locale → ℕ → StorageItem → List Part
storage_body l reserve x =
    always (
      lit (
        codes
          "\n    <div class=\"row\" style=\"align-items:baseline;gap:7px\">\n      <span style=\"font-size:28px;font-weight:600;letter-spacing:-.02em\">")
      ∷ value (size_text l (some (free_of x)))
      ∷ lit (codes "</span>\n      <span style=\"font-size:14px;color:var(--mut)\">")
      ∷ word
          (t l.messages (codes "free on {{name}}") (some ((codes "name", escape_html x.name) ∷ [])))
      ∷ lit (codes "</span>\n    </div>\n    <div class=\"meter\" title=\"")
      ∷ value (said l "Usable free space versus the reserve MomentFerry holds back")
      ∷ lit (codes "\">\n      <div class=\"meter-used\" style=\"width:")
      ∷ word (used_width (meter x.below_reserve (free_of x) reserve))
      ∷ lit (codes "%\"></div>\n      <div class=\"meter-reserve\" style=\"width:")
      ∷ word (reserve_width (meter x.below_reserve (free_of x) reserve))
      ∷ lit (
          codes
            "%\"></div>\n    </div>\n    <div style=\"font-size:11.5px;color:var(--mut);line-height:1.5\">\n      ")
      ∷ word (
          t l.messages (codes "{{size}} is always held back on top of each file.")
            (some ((codes "size", escape_html (size_text l (some reserve))) ∷ [])))
      ∷ lit (codes "\n      ")
      ∷ [])
    ∷ either (x.below_reserve)
        (lit (codes "<span style=\"color:var(--amb)\">")
          ∷ say l "Free space is below that reserve — transfers will hold."
          ∷ lit (codes "</span>")
          ∷ [])
        (say l "There is room for the next transfers." ∷ [])
    ∷ always (lit (codes "\n    </div>\n    ") ∷ [])
    ∷ []

abbrev pub others_open : List Part
others_open =
    always (lit (codes "<div style=\"font-size:11.5px;color:var(--mut);margin-top:10px\">") ∷ [])
    ∷ []

abbrev pub others_close : List Part
others_close = always (lit (codes "</div>") ∷ []) ∷ []

abbrev pub storage_others : Locale → List StorageItem → List Piece
storage_others l [] = []
storage_others l (x ∷ xs) = pieces others_open ++ (other_items l (x ∷ xs) ++ pieces others_close)

abbrev pub storage_path : StorageItem → List Part
storage_path x =
    always (
      lit (
        codes
          "\n    <div class=\"mono\" style=\"margin-top:auto;padding-top:14px;border-top:1px solid var(--line);font-size:11.5px;color:var(--dim)\">")
      ∷ value x.path
      ∷ lit (codes "</div>")
      ∷ [])
    ∷ []

abbrev pub storage_card : Locale → ℕ → StorageItem × List StorageItem → List Piece
storage_card l reserve (x, others) =
    if x.exists
    then pieces (storage_body l reserve x) ++ (storage_others l others ++ pieces (storage_path x))
    else pieces (missing_path l x)

unfoldable pub render_storage : Locale → Option StorageInfo → List Piece
render_storage l none = pieces (
    always
      (lit (codes "<div class=\"message\">") ∷ say l "Loading storage…" ∷ lit (codes "</div>") ∷ [])
    ∷ [])
render_storage l (some info) = elim info.items [
  | [] ↦ pieces (
      always (
        lit (
          codes "\n      <div style=\"font-size:13px;color:var(--mut);line-height:1.6\">\n        ")
        ∷ say l
            "No destination share configured yet, so there is nowhere for MomentFerry to put anything."
        ∷ lit (
            codes
              "\n      </div>\n      <div class=\"actions\" style=\"margin-top:14px\">\n        <button class=\"btn btn-acc\" type=\"button\" data-view=\"shares\">")
        ∷ say l "Add a destination"
        ∷ lit (codes "</button>\n      </div>")
        ∷ [])
      ∷ [])
  | x ∷ xs ↦ storage_card l info.minimum_free_space_reserve_bytes (primary x xs)
]
