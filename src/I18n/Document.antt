-- ===== src/I18n/Document.antt =====
-- i18n.js, initI18n on the document: translateTextNodes and translateAttributes. A document is a list of
-- texts and elements, written from the first on; the names of elements are in capitals.
use moment_ferry.Common.{
  text_eq, ◌||◌, List, [], ◌∷◌, Bool, false, if◌then◌else◌, Text, codes, includes, map,
}
use moment_ferry.I18n.{Messages, translate_node, translate_attribute}

pub data Dom : Type 0 where
  end : Dom
  text : Text → Dom → Dom
  -- An element with its attributes, what is in it, and what comes after it.
  element : Text → List (Text × Text) → Dom → Dom → Dom

-- `/^(SCRIPT|STYLE|PRE)$/.test(node.parentNode.nodeName)`
abbrev pub is_verbatim : Text → Bool
is_verbatim name = includes (codes "SCRIPT" ∷ codes "STYLE" ∷ codes "PRE" ∷ []) name

-- Each text node, by the name of the element that it stands in.
unfoldable pub translate_text_nodes : Messages → Text → Dom → Dom
translate_text_nodes m parent end = end
translate_text_nodes m parent (text s rest) =
    text (if is_verbatim parent then s else translate_node m s) (translate_text_nodes m parent rest)
translate_text_nodes m parent (element name attributes inner rest) =
    element name attributes (translate_text_nodes m name inner) (translate_text_nodes m parent rest)

abbrev pub is_translated : Text → Bool
is_translated name = includes (codes "placeholder" ∷ codes "title" ∷ codes "aria-label" ∷ []) name

abbrev pub translate_pair : Messages → Text × Text → Text × Text
translate_pair m (name, value) =
    (name, if is_translated name then translate_attribute m value else value)

unfoldable pub translate_attributes : Messages → Dom → Dom
translate_attributes m end = end
translate_attributes m (text s rest) = text s (translate_attributes m rest)
translate_attributes m (element name attributes inner rest) =
    element name (map (translate_pair m) attributes) (translate_attributes m inner)
      (translate_attributes m rest)

-- The document's body.
unfoldable pub init_i18n : Messages → Dom → Dom
init_i18n m body = translate_attributes m (translate_text_nodes m (codes "BODY") body)

-- A document without the words that are there to be read.
abbrev pub is_read : Text → Bool
is_read name =
    text_eq (codes "placeholder") name
    || (text_eq (codes "title") name || (text_eq (codes "aria-label") name || false))

abbrev pub is_code : Text → Bool
is_code name =
    text_eq (codes "SCRIPT") name
    || (text_eq (codes "STYLE") name || (text_eq (codes "PRE") name || false))

abbrev pub outline_pair : Text × Text → Text × Text
outline_pair (name, value) = (name, if is_read name then [] else value)

unfoldable pub outline : Text → Dom → Dom
outline parent end = end
outline parent (text s rest) = text (if is_code parent then s else []) (outline parent rest)
outline parent (element name attributes inner rest) =
    element name (map outline_pair attributes) (outline name inner) (outline parent rest)
