-- ===== src/Web/Query.antt =====
-- The query of a URL as URLSearchParams reads it, against what encodeURIComponent writes.
use moment_ferry.Common.{
  ℕ, ◌+◌, ◌-◌, ◌*◌, ◌/◌, ◌%◌, ◌<◌, [], ◌∷◌, ◌++◌, Bool, true, false, ◌&&◌, ◌||◌, if◌then◌else◌,
  ◌==◌, leb, Text, All, arith, ◌≡◌, ◌≢◌, refl, ap, ◌∙◌, Bool-cases, inl, inr,
}
use moment_ferry.Web.{is_unreserved, hex_digit, encode_char, encode_uri_component}

abbrev is_hex : ℕ → Bool
is_hex c = leb b'0' c && leb c b'9' || (leb b'A' c && leb c b'F' || leb b'a' c && leb c b'f')

abbrev hex_value : ℕ → ℕ
hex_value c = if leb c b'9' then c - b'0' else if leb c b'F' then c - 55 else c - 87

-- A plus sign is a space.
abbrev plus : ℕ → ℕ
plus c = if c == b'+' then 32 else c

unfoldable pub decode : Text → Text
decode [] = []
decode (c ∷ []) = plus c ∷ []
decode (c ∷ a ∷ []) = plus c ∷ decode (a ∷ [])
decode (c ∷ a ∷ b ∷ s) = elim (c == b'%' && (is_hex a && is_hex b)) [
  | true ↦ (hex_value a * 16 + hex_value b) ∷ decode s
  | false ↦ plus c ∷ decode (a ∷ b ∷ s)
]

decode_plain : (c : ℕ) (s : Text) → c ≢ b'%' → c ≢ b'+' → decode (c ∷ s) ≡ c ∷ decode s
unfolding decode
decode_plain c [] h k = ground arith
decode_plain c (a ∷ []) h k = ground arith
decode_plain c (a ∷ b ∷ s) h k = ground arith

is_hex-hex_digit : (n : ℕ) → n < 16 → is_hex (hex_digit n) ≡ true
is_hex-hex_digit n h = ground arith

hex_value-hex_digit : (n : ℕ) → n < 16 → hex_value (hex_digit n) ≡ n
hex_value-hex_digit n h = ground arith

decode_hex :
    (n m : ℕ) (s : Text)
    → n < 16
    → m < 16
    → decode (b'%' ∷ hex_digit n ∷ hex_digit m ∷ s) ≡ (n * 16 + m) ∷ decode s
unfolding decode
decode_hex n m s h k =
    rw
      (
        is_hex-hex_digit n h,
        is_hex-hex_digit m k,
        hex_value-hex_digit n h,
        hex_value-hex_digit m k,
        decode,
      )
      refl

unreserved_ne : (c : ℕ) → is_unreserved c ≡ true → (c ≢ b'%') × (c ≢ b'+')
unreserved_ne c h = ((λ e. cc (rw e at h)), λ e. cc (rw e at h))

decode-encode_char : (c : ℕ) (s : Text) → c < 128 → decode (encode_char c ++ s) ≡ c ∷ decode s
unfolding encode_char
decode-encode_char c s h = elim (Bool-cases (is_unreserved c)) [
  | inl e ↦ rw e (decode_plain c s (unreserved_ne c e).0 (unreserved_ne c e).1)
  | inr e ↦ rw e (
      decode_hex (c / 16) (c % 16) s (omega arith) (omega arith)
      ∙ ap (λ n. n ∷ decode s) (omega arith))
]

-- A text of ASCII characters that is encoded for a URL is decoded to itself.
pub decode-encode_uri_component :
    (s : Text) → All (λ c. c < 128) s → decode (encode_uri_component s) ≡ s
unfolding decode encode_uri_component
decode-encode_uri_component [] h = refl
decode-encode_uri_component (c ∷ s) (p, h) =
    decode-encode_char c (encode_uri_component s) p
    ∙ ap (λ r. c ∷ r) (decode-encode_uri_component s h)
