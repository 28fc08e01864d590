-- ===== src/I18n.antt =====
-- src/MomentFerry.Web/wwwroot/i18n.js: the choice of the interface language, the translation of a
-- source string with its placeholders, and the translation of static markup.
-- The dictionary is an association list, so the names that every JavaScript object inherits
-- (`constructor` and the like) are no keys of it; as names of placeholders they are.
pub mod Language
pub mod Placeholders
pub mod Document
pub mod Calm
mod Tests
use moment_ferry.Common.{
  ℕ, zero, suc, ◌+◌, ◌++◌, List, [], ◌∷◌, Option, none, some, Bool, true, false, if◌then◌else◌,
  Text, codes, text_eq, includes, starts_with, is_word, is_space, trim, trim_start, to_lower,
  length, take, drop, map, reverse, is_empty,
}

-- LANGUAGES, without the names shown for them.
abbrev pub language_codes : List Text
language_codes =
    codes "en" ∷ codes "de" ∷ codes "ru" ∷ codes "pl" ∷ codes "it" ∷ codes "fr" ∷ codes "uk" ∷ []

-- The first of the browser's tags whose first two letters are a language of the console.
unfoldable pub first_listed : List Text → Text
first_listed [] = codes "en"
first_listed (tag ∷ tags) =
    if includes language_codes (map to_lower (take 2 tag))
    then map to_lower (take 2 tag)
    else first_listed tags

-- `stored` is null where nothing is stored or the storage throws.
unfoldable pub pick_language : Option Text → List Text → Text
pick_language none tags = first_listed tags
pick_language (some stored) tags =
    if includes language_codes stored then stored else first_listed tags

abbrev pub Messages : Type 0
Messages = List (Text × Text)

unfoldable pub lookup : Text → Messages → Option Text
lookup key [] = none
lookup key ((k, v) ∷ rest) = if text_eq k key then some v else lookup key rest

-- `MF_MESSAGES[key] || key`: an empty translation counts as none.
unfoldable pub message_for : Messages → Text → Text
message_for messages key = elim (lookup key messages) [
  | none ↦ key
  | some [] ↦ key
  | some (c ∷ s) ↦ c ∷ s
]

abbrev word_prefix : Text → Text
word_prefix [] = []
word_prefix (c ∷ s) = if is_word c then c ∷ word_prefix s else []

abbrev closed : Text → Text → Option Text
closed [] s = none
closed (c ∷ name) s =
    if starts_with (drop (length (c ∷ name)) s) (codes "}}") then some (c ∷ name) else none

-- The name in a match of `{{(\w+)}}` at the beginning of a text.
placeholder : Text → Option Text
placeholder s =
    if starts_with s (codes "{{") then closed (word_prefix (drop 2 s)) (drop 2 s) else none

-- The text of a function of the language.
abbrev native_code : Text → Text
native_code name = codes "function " ++ (name ++ codes "() { [native code] }")

-- What every object inherits, as texts.
abbrev pub object_members : Messages
object_members =
    (codes "constructor", native_code (codes "Object"))
    ∷ (codes "__defineGetter__", native_code (codes "__defineGetter__"))
    ∷ (codes "__defineSetter__", native_code (codes "__defineSetter__"))
    ∷ (codes "hasOwnProperty", native_code (codes "hasOwnProperty"))
    ∷ (codes "__lookupGetter__", native_code (codes "__lookupGetter__"))
    ∷ (codes "__lookupSetter__", native_code (codes "__lookupSetter__"))
    ∷ (codes "isPrototypeOf", native_code (codes "isPrototypeOf"))
    ∷ (codes "propertyIsEnumerable", native_code (codes "propertyIsEnumerable"))
    ∷ (codes "toString", native_code (codes "toString"))
    ∷ (codes "valueOf", native_code (codes "valueOf"))
    ∷ (codes "__proto__", codes "[object Object]")
    ∷ (codes "toLocaleString", native_code (codes "toLocaleString"))
    ∷ []

-- `params[name]` where `name in params`: what the object inherits comes after its own members.
abbrev member : Messages → Text → Option Text
member params name = elim (lookup name params) [
  | none ↦ lookup name object_members
  | some value ↦ some value
]

-- What replaces a match: the parameter, or the match itself.
filled : Messages → Text → Text
filled params name = elim (member params name) [
  | none ↦ codes "{{" ++ (name ++ codes "}}")
  | some value ↦ value
]

-- The global replacement: `skip` characters belong to the match before.
substitute_from : Messages → ℕ → Text → Text
substitute_from params skip [] = []
substitute_from params (suc skip) (c ∷ s) = substitute_from params skip s
substitute_from params zero (c ∷ s) = elim (placeholder (c ∷ s)) [
  | none ↦ c ∷ substitute_from params zero s
  | some name ↦ filled params name ++ substitute_from params (length name + 3) s
]

unfoldable pub t : Messages → Text → Option Messages → Text
unfolding substitute_from placeholder filled message_for lookup
t messages key none = message_for messages key
t messages key (some params) = substitute_from params zero (message_for messages key)

-- `value.replace(/\s+/g, ' ')`: `inside` says that the character before was white space.
collapse : Bool → Text → Text
collapse inside [] = []
collapse inside (c ∷ s) =
    let next = collapse (is_space c) s in
    if is_space c then if inside then next else 32 ∷ next else c ∷ next

unfoldable pub normalize : Text → Text
unfolding collapse
normalize value = trim (collapse false value)

-- The leading white space of a text, `/^(\s*)/`.
abbrev pub lead : Text → Text
lead [] = []
lead (c ∷ s) = if is_space c then c ∷ lead s else []

abbrev pub trail : Text → Text
trail s = reverse (lead (reverse s))

-- translateTextNodes at one text node.
unfoldable pub translate_node : Messages → Text → Text
translate_node messages value = elim (lookup (normalize value) messages) [
  | none ↦ value
  | some [] ↦ value
  | some (c ∷ s) ↦
      if is_empty (normalize value) then value else lead value ++ ((c ∷ s) ++ trail value)
]

-- translateAttributes at one attribute.
unfoldable pub translate_attribute : Messages → Text → Text
translate_attribute messages value = elim (lookup (normalize value) messages) [
  | none ↦ value
  | some [] ↦ value
  | some (c ∷ s) ↦ c ∷ s
]
