-- ===== src/Paths/Template.antt =====
-- app.js, destinationFolder: a template as a sequence of plain texts and tokens, and what one
-- replacement does to it.
use moment_ferry.Common.{
  ℕ, zero, List, [], ◌∷◌, ◌++◌, Option, none, some, Bool, true, false, if◌then◌else◌, Text, codes,
  All, flat_map, arith, ◌≡◌, ◌≢◌, refl, ap, ◌∙◌, subst, Option-cases, Bool-cases, inl, inr,
}
use moment_ferry.Paths.{starts_with_token, replace_token}

-- The tokens that a template can hold. The folder of a source or an owner depends on each file.
pub data Token : Type 0 where
  event_name event_type year month day source owner : Token

abbrev pub spelling : Token → Text
spelling event_name = codes "{event.name}"
spelling event_type = codes "{event.type}"
spelling year = codes "{year}"
spelling month = codes "{month}"
spelling day = codes "{day}"
spelling source = codes "{source}"
spelling owner = codes "{owner}"

pub data Part : Type 0 where
  plain : Text → Part
  token : Token → Part

abbrev pub NoBrace : Text → Type 0
NoBrace = All λ c. c ≢ b'{'

abbrev pub IsPart : Part → Type 0
IsPart (plain s) = NoBrace s
IsPart (token k) = Unit

-- What a token stands for; `none` where it is left as it is written.
abbrev pub Values : Type 0
Values = Token → Option Text

abbrev pub shown : Token → Option Text → Text
shown k none = spelling k
shown k (some v) = v

abbrev pub show : Values → Part → Text
show values (plain s) = s
show values (token k) = shown k (values k)

-- One more token has its value.
abbrev same_token : Token → Token → Bool
same_token event_name event_name = true
same_token event_type event_type = true
same_token year year = true
same_token month month = true
same_token day day = true
same_token source source = true
same_token owner owner = true
same_token _ _ = false

abbrev pub give : Token → Text → Values → Values
give k v values j = if same_token k j then some v else values j

starts_with_token-spelling :
    (k : Token) (c : ℕ) (s : Text) → c ≢ b'{' → starts_with_token (c ∷ s) (spelling k) ≡ false
starts_with_token-spelling event_name c s h = ground arith
starts_with_token-spelling event_type c s h = ground arith
starts_with_token-spelling year c s h = ground arith
starts_with_token-spelling month c s h = ground arith
starts_with_token-spelling day c s h = ground arith
starts_with_token-spelling source c s h = ground arith
starts_with_token-spelling owner c s h = ground arith

replace_token-plain :
    (k : Token) (v s rest : Text)
    → NoBrace s
    → replace_token (spelling k) v zero (s ++ rest) ≡ s ++ replace_token (spelling k) v zero rest
unfolding replace_token
replace_token-plain k v [] rest h = refl
replace_token-plain k v (c ∷ s) rest (p, h) =
    rw (starts_with_token-spelling k c (s ++ rest) p, replace_token)
      (ap (λ r. c ∷ r) (replace_token-plain k v s rest h))

replace_token-spelling :
    (k j : Token) (v rest : Text)
    → replace_token (spelling k) v zero (spelling j ++ rest)
      ≡ (if same_token k j then v else spelling j) ++ replace_token (spelling k) v zero rest
unfolding replace_token
replace_token-spelling event_name event_name v rest = refl
replace_token-spelling event_name _ v rest = refl
replace_token-spelling event_type event_name v rest = refl
replace_token-spelling event_type _ v rest = refl
replace_token-spelling year event_name v rest = refl
replace_token-spelling year _ v rest = refl
replace_token-spelling month event_name v rest = refl
replace_token-spelling month _ v rest = refl
replace_token-spelling day event_name v rest = refl
replace_token-spelling day _ v rest = refl
replace_token-spelling source event_name v rest = refl
replace_token-spelling source _ v rest = refl
replace_token-spelling owner event_name v rest = refl
replace_token-spelling owner _ v rest = refl

same_token-eq : (k j : Token) → same_token k j ≡ true → k ≡ j
same_token-eq event_name event_name e = refl
same_token-eq event_type event_type e = refl
same_token-eq year year e = refl
same_token-eq month month e = refl
same_token-eq day day e = refl
same_token-eq source source e = refl
same_token-eq owner owner e = refl
same_token-eq _ _ e = cc

abbrev pub IsBraceless : Option Text → Type 0
IsBraceless none = Unit
IsBraceless (some v) = NoBrace v

module _ (k : Token) (v : Text) (values : Values) (missing : values k ≡ none) where
  replace_token-show :
      (p : Part) (rest : Text)
      → IsPart p
      → ((j : Token) → IsBraceless (values j))
      → replace_token (spelling k) v zero (show values p ++ rest)
        ≡ show (give k v values) p ++ replace_token (spelling k) v zero rest
  replace_token-show (plain s) rest h b = replace_token-plain k v s rest h
  replace_token-show (token j) rest h b = elim (Option-cases (values j)) [
    | inl e ↦
        rw (e, replace_token-spelling k j v rest)
          (ap (λ s. s ++ replace_token (spelling k) v zero rest) (given (same_token k j)))
    | inr (w, e) ↦ elim (Bool-cases (same_token k j)) [
      | inl same ↦ absurd (clash e (same_token-eq k j same))
      | inr other ↦ rw (other, e) (replace_token-plain k v w rest (subst IsBraceless e (b j)))
    ]
  ]
    where
      given :
          (same : Bool) → (if same then v else spelling j) ≡ shown j (if same then some v else none)
      given true = refl
      given false = refl

      clash : {w : Text} → values j ≡ some w → k ≡ j → ⊥
      clash e q = cc (subst (λ i. values i ≡ none) q missing)

  pub replace_token-parts :
      (parts : List Part)
      → All IsPart parts
      → ((j : Token) → IsBraceless (values j))
      → replace_token (spelling k) v zero (flat_map (show values) parts)
        ≡ flat_map (show (give k v values)) parts
  unfolding replace_token
  replace_token-parts [] h b = refl
  replace_token-parts (p ∷ parts) (q, h) b =
      replace_token-show p (flat_map (show values) parts) q b
      ∙ ap (λ r. show (give k v values) p ++ r) (replace_token-parts parts h b)

pub flat_map-show :
    (f g : Values) (parts : List Part)
    → ((k : Token) → f k ≡ g k)
    → flat_map (show f) parts ≡ flat_map (show g) parts
flat_map-show f g [] h = refl
flat_map-show f g (plain s ∷ parts) h = ap (λ r. s ++ r) (flat_map-show f g parts h)
flat_map-show f g (token k ∷ parts) h = rw (h k, flat_map-show f g parts h)
