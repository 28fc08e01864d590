-- ===== src/Web/Return.antt =====
-- login.js, returnUrl, with the redirect of app.js and settings.js that leads there: where the browser
-- goes after signing in.
use moment_ferry.Common.{
  ℕ, ◌<◌, List, [], ◌∷◌, ◌++◌, Option, none, some, Bool, true, false, ◌&&◌, ◌||◌, not,
  if◌then◌else◌, ◌==◌, Text, codes, text_eq, starts_with, drop, All, All-append, filter, length,
  arith, ◌≡◌, ◌≢◌, refl, ap, ◌∙◌, Bool-cases, inl, inr,
}
use moment_ferry.Web.{
  is_unreserved, encode_char, encode_uri_component, login_redirect, return_url, hex_digit,
}
use moment_ferry.Web.Query.{decode, decode-encode_uri_component}

-- A query splits at `&`, and a pair at its first `=`.
abbrev cons_first : ℕ → List Text → List Text
cons_first c [] = (c ∷ []) ∷ []
cons_first c (x ∷ xs) = (c ∷ x) ∷ xs

pairs : Text → List Text
pairs [] = [] ∷ []
pairs (c ∷ s) = let rest = pairs s in if c == b'&' then [] ∷ rest else cons_first c rest

name_part : Text → Text
name_part [] = []
name_part (c ∷ s) = if c == b'=' then [] else c ∷ name_part s

value_part : Text → Text
value_part [] = []
value_part (c ∷ s) = if c == b'=' then s else value_part s

value_in : Text → List Text → Option Text
value_in name [] = none
value_in name (p ∷ ps) =
    if text_eq (decode (name_part p)) name then some (decode (value_part p)) else value_in name ps

-- `new URLSearchParams(query).get(name)`
pub get_param : Text → Text → Option Text
unfolding pairs name_part value_part value_in
get_param name query = value_in name (pairs query)

abbrev NoAmp : Text → Type 0
NoAmp = All λ c. (c == b'&') ≡ false

pairs_one : (s : Text) → NoAmp s → pairs s ≡ s ∷ []
unfolding pairs
pairs_one [] h = refl
pairs_one (c ∷ s) (p, h) = rw p (ap (cons_first c) (pairs_one s h))

hex_digit_ne : (n : ℕ) → (hex_digit n == b'&') ≡ false
hex_digit_ne n = ground arith

encode_char-NoAmp : (c : ℕ) → NoAmp (encode_char c)
unfolding encode_char
encode_char-NoAmp c = elim (Bool-cases (is_unreserved c)) [
  | inl e ↦ rw e (ne e, tt)
  | inr e ↦ rw e (refl, (hex_digit_ne _, (hex_digit_ne _, tt)))
]
  where
    ne : is_unreserved c ≡ true → (c == b'&') ≡ false
    ne e = elim (Bool-cases (c == b'&')) [ inl amp ↦ ground arith | inr other ↦ other ]

encode_uri_component-NoAmp : (s : Text) → NoAmp (encode_uri_component s)
unfolding encode_uri_component
encode_uri_component-NoAmp [] = tt
encode_uri_component-NoAmp (c ∷ s) =
    All-append _ (encode_char c) (encode_uri_component s) (encode_char-NoAmp c)
      (encode_uri_component-NoAmp s)

-- Whoever is sent to the login page from a location of ASCII characters that begins with one slash
-- comes back, after signing in, to that very location, with its query and its fragment.
pub return_url-login_redirect :
    (location : Text)
    → All (λ c. c < 128) location
    → starts_with location (codes "/") ≡ true
    → starts_with location (codes "//") ≡ false
    → return_url (
        get_param
          (codes "returnUrl")
          (drop (length (codes "/login.html?")) (login_redirect location)))
      ≡ location
unfolding return_url get_param login_redirect value_in name_part value_part decode
return_url-login_redirect location ascii one two =
    ap (λ ps. return_url (value_in (codes "returnUrl") ps))
      (pairs_one (codes "returnUrl=" ++ encode_uri_component location) query)
    ∙ ap (λ v. return_url (some v)) (decode-encode_uri_component location ascii)
    ∙ rw (one, two) refl
  where
    query : NoAmp (codes "returnUrl=" ++ encode_uri_component location)
    query =
        All-append _ (codes "returnUrl=") (encode_uri_component location)
          (refl, (refl, (refl, (refl, (refl, (refl, (refl, (refl, (refl, (refl, tt))))))))))
          (encode_uri_component-NoAmp location)

-- How a browser reads a location on a page of the site: it drops tabs and line breaks, and takes a
-- backslash for a slash. A location that begins with exactly one slash is a path of the site; two of them
-- name another host, and other beginnings may name a scheme.
abbrev is_dropped : ℕ → Bool
is_dropped c = c == 9 || (c == 10 || c == 13)

abbrev is_slash : ℕ → Bool
is_slash c = c == b'/' || c == 92

abbrev one_slash : Text → Bool
one_slash [] = false
one_slash (c ∷ []) = is_slash c
one_slash (c ∷ d ∷ s) = is_slash c && not (is_slash d)

unfoldable pub is_path_of_site : Text → Bool
is_path_of_site s = one_slash (filter (λ c. not (is_dropped c)) s)

abbrev pub IsOrdinary : Text → Type 0
IsOrdinary = All λ c. (c ≢ 9) × (c ≢ 10) × (c ≢ 13)

filter_ordinary : (s : Text) → IsOrdinary s → filter (λ c. not (is_dropped c)) s ≡ s
filter_ordinary [] h = refl
filter_ordinary (c ∷ s) (p, h) = ground (arith, filter_ordinary s h)

-- Whatever a link gives as the location to return to, if it holds no tab or line break: the browser goes
-- to a path of the site, unless the location begins with a slash and a backslash; that is let through,
-- and names another host or none.
pub return_url-is_path_of_site :
    (value : Text)
    → IsOrdinary value
    → is_path_of_site (return_url (some value)) ≡ not (starts_with value (codes "/\\"))
unfolding return_url is_path_of_site
return_url-is_path_of_site [] h = refl
return_url-is_path_of_site (c ∷ []) h = ground (arith, filter_ordinary (c ∷ []) h)
return_url-is_path_of_site (c ∷ d ∷ s) h = elim (Bool-cases (c == b'/')) [
  | inr p ↦ rw p refl
  | inl p ↦ elim (Bool-cases (d == b'/')) [
    | inl q ↦ rw (p, q) (ground arith)
    | inr q ↦ rw (p, q) (ap one_slash (filter_ordinary (c ∷ d ∷ s) h) ∙ ground arith)
  ]
]
