-- ===== src/I18n/Tests.antt =====
-- i18n.js: runs at concrete inputs.
use moment_ferry.Common.{
  List, [], ◌∷◌, none, some, true, false, Text, codes, arith, flat_map, to_lower, trim, ◌≡◌, ◌≢◌,
  refl, All,
}
use moment_ferry.I18n.{
  Messages, lookup, message_for, pick_language, t, normalize, translate_node, translate_attribute,
}
use moment_ferry.I18n.Document.{
  Dom, end, text, element, translate_text_nodes, translate_attributes, init_i18n,
}
use moment_ferry.I18n.Language.{is_listed, code_of, IsUnlisted, pick_language-order}
use moment_ferry.I18n.Placeholders.{
  Segment, plain, hole, IsSegment, IsOwn, value_segment, t-segments,
}

abbrev german : Messages
german =
    (codes "Free space", codes "Freier Speicher")
    ∷ (codes "{{count}} of {{total}}", codes "{{count}} von {{total}}")
    ∷ []

abbrev counted : Messages
counted = (codes "count", codes "3") ∷ []

normalized : normalize (codes "  Free\n   space ") ≡ codes "Free space"
unfolding normalize trim
normalized = refl

translated : translate_node german (codes "\n  Free   space ") ≡ codes "\n  Freier Speicher "
unfolding translate_node normalize lookup trim
translated = refl

unlisted : IsUnlisted (codes "sv-SE" ∷ [])
unfolding to_lower
unlisted = (refl, tt)

listed : is_listed (code_of (codes "UK")) ≡ true
unfolding to_lower
listed = refl

abbrev tags : List Text
tags = codes "sv-SE" ∷ codes "UK" ∷ codes "de" ∷ []

pick_language-order_example :
    (is_listed (codes "xx") ≡ true → pick_language (some (codes "xx")) tags ≡ codes "xx")
    × (is_listed (codes "xx") ≡ false
        → pick_language (some (codes "xx")) tags ≡ code_of (codes "UK"))
    × (pick_language none tags ≡ code_of (codes "UK"))
pick_language-order_example =
    pick_language-order (codes "xx") (codes "sv-SE" ∷ []) (codes "UK") (codes "de" ∷ []) unlisted
      listed

abbrev pieces : List Segment
pieces = hole (codes "count") ∷ plain (codes " von ") ∷ hole (codes "total") ∷ []

nonempty : codes "count" ≢ []
nonempty e = cc e

nonempty_total : codes "total" ≢ []
nonempty_total e = cc e

pieces-IsSegment : All IsSegment pieces
pieces-IsSegment = ground (arith, nonempty, nonempty_total)

written : message_for german (codes "{{count}} of {{total}}") ≡ codes "{{count}} von {{total}}"
unfolding message_for lookup
written = refl

pieces-IsOwn : All IsOwn pieces
unfolding lookup
pieces-IsOwn = ground arith

-- A placeholder that the parameters lack may be one that every object has.
inherited_name :
    t [] (codes "{{toString}}") (some []) ≡ codes "function toString() { [native code] }"
unfolding t
inherited_name = refl

t-segments_example :
    t german (codes "{{count}} of {{total}}") (some counted)
    ≡ flat_map (value_segment counted) pieces
t-segments_example =
    t-segments german counted (codes "{{count}} of {{total}}") pieces pieces-IsSegment pieces-IsOwn
      written

abbrev card : Dom
card =
    element (codes "DIV")
      ((codes "class", codes "Free space") ∷ (codes "title", codes "Free space") ∷ [])
      (text (codes "Free space") end)
      (element (codes "SCRIPT") [] (text (codes "Free space") end) end)

card_translated :
    init_i18n german card
    ≡ element
        (codes "DIV")
        ((codes "class", codes "Free space") ∷ (codes "title", codes "Freier Speicher") ∷ [])
        (text (codes "Freier Speicher") end)
        (element (codes "SCRIPT") [] (text (codes "Free space") end) end)
unfolding init_i18n translate_text_nodes translate_attributes translate_node translate_attribute
    normalize lookup trim
card_translated = refl
