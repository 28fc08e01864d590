-- ===== src/Markup/StorageWords.antt =====
-- app.js, renderStorage: which texts it puts into the markup as they are.
use moment_ferry.Common.{
  ℕ, List, [], ◌∷◌, ◌++◌, Option, none, some, Bool, true, false, if◌then◌else◌, Text, codes, All,
  All-append, decimal, pad2, decimal-digits, pad2-digits, ◌/◌, ◌%◌, refl,
}
use moment_ferry.I18n.{t}
use moment_ferry.I18n.Calm.{IsCalm, IsCalm-append, AreCalm, t_with-IsCalm}
use moment_ferry.Format.{Locale}
use moment_ferry.Html.{escape_html}
use moment_ferry.Markup.{lit, pieces}
use moment_ferry.Markup.Pieces.{IsClean}
use moment_ferry.Markup.Words.{
  All-either, pieces-IsClean, escaped-IsCalm, digits-IsCalm, key-IsCalm,
}
use moment_ferry.Markup.Storage.{
  StorageItem, StorageInfo, two_digits, used_width, reserve_width, meter, size_text, free_of,
  missing_path, other_item, other_items, storage_body, others_open, others_close, storage_others,
  storage_path, storage_card, primary, render_storage,
}

two_digits-IsCalm : (n : ℕ) → IsCalm (two_digits n)
two_digits-IsCalm n =
    IsCalm-append (decimal (n / 100)) (b'.' ∷ pad2 (n % 100))
      (digits-IsCalm (decimal (n / 100)) (decimal-digits (n / 100)))
      (digits-IsCalm (pad2 (n % 100)) (pad2-digits (n % 100)))

used_width-IsCalm : (m : Option (ℕ × ℕ)) → IsCalm (used_width m)
used_width-IsCalm none = refl
used_width-IsCalm (some (reserve, used)) = two_digits-IsCalm used

reserve_width-IsCalm : (m : Option (ℕ × ℕ)) → IsCalm (reserve_width m)
reserve_width-IsCalm none = refl
reserve_width-IsCalm (some (reserve, used)) = two_digits-IsCalm reserve

IsCalm-if :
    (b : Bool) (one other : Text) → IsCalm one → IsCalm other → IsCalm (if b then one else other)
IsCalm-if true one other h k = h
IsCalm-if false one other h k = k

module _ (l : Locale) (d : AreCalm l.messages) where
  -- A message with a size or a name in it, which is escaped before.
  sized-IsCalm :
      (key name s : Text)
      → IsCalm key
      → IsCalm (t l.messages key (some ((name, escape_html s) ∷ [])))
  sized-IsCalm key name s k =
      t_with-IsCalm l.messages ((name, escape_html s) ∷ []) key d k (escaped-IsCalm s, tt)

  other_item-IsClean : (x : StorageItem) → All IsClean (other_item l x)
  other_item-IsClean x = (
    tt,
    (
      tt,
      (
        IsCalm-if x.exists _ _
            (sized-IsCalm (codes "{{size}} free") (codes "size")
              (size_text l x.available_free_space_bytes) refl)
            (key-IsCalm l d "path missing" refl),
        tt,
      ),
    ),
  )

  other_items-IsClean : (xs : List StorageItem) → All IsClean (other_items l xs)
  other_items-IsClean [] = tt
  other_items-IsClean (x ∷ []) = other_item-IsClean x
  other_items-IsClean (x ∷ y ∷ rest) =
      All-append IsClean (other_item l x) (lit (codes " · ") ∷ other_items l (y ∷ rest))
        (other_item-IsClean x) (tt, other_items-IsClean (y ∷ rest))

  storage_others-IsClean : (xs : List StorageItem) → All IsClean (storage_others l xs)
  storage_others-IsClean [] = tt
  storage_others-IsClean (x ∷ xs) =
      All-append IsClean (pieces others_open) (other_items l (x ∷ xs) ++ pieces others_close)
        (pieces-IsClean others_open tt)
        (All-append IsClean (other_items l (x ∷ xs)) (pieces others_close)
          (other_items-IsClean (x ∷ xs)) (pieces-IsClean others_close tt))

  storage_body-IsClean :
      (reserve : ℕ) (x : StorageItem) → All IsClean (pieces (storage_body l reserve x))
  storage_body-IsClean reserve x = pieces-IsClean (storage_body l reserve x) (
    sized-IsCalm (codes "free on {{name}}") (codes "name") x.name refl,
    (
      used_width-IsCalm (meter x.below_reserve (free_of x) reserve),
      (
        reserve_width-IsCalm (meter x.below_reserve (free_of x) reserve),
        (
          sized-IsCalm (codes "{{size}} is always held back on top of each file.") (codes "size")
              (size_text l (some reserve)) refl,
          (
            key-IsCalm l d "Free space is below that reserve — transfers will hold." refl,
            (key-IsCalm l d "There is room for the next transfers." refl, tt),
          ),
        ),
      ),
    ),
  )

  storage_card-IsClean :
      (reserve : ℕ) (x : StorageItem) (others : List StorageItem)
      → All IsClean (storage_card l reserve (x, others))
  storage_card-IsClean reserve x others =
      All-either x.exists
        (pieces (storage_body l reserve x) ++ (storage_others l others ++ pieces (storage_path x)))
        (pieces (missing_path l x))
        (All-append IsClean (pieces (storage_body l reserve x))
          (storage_others l others ++ pieces (storage_path x)) (storage_body-IsClean reserve x)
          (All-append IsClean (storage_others l others) (pieces (storage_path x))
            (storage_others-IsClean others) (pieces-IsClean (storage_path x) tt)))
        (pieces-IsClean (missing_path l x) (key-IsCalm l d "Path missing" refl, tt))

  items-IsClean :
      (reserve : ℕ) (items : List StorageItem)
      → All IsClean (
          render_storage l
            (some (record { items = items; minimum_free_space_reserve_bytes = reserve })))
  unfolding render_storage
  items-IsClean reserve [] = (
    tt,
    (
      key-IsCalm l d
          "No destination share configured yet, so there is nowhere for MomentFerry to put anything."
          refl,
      (tt, (key-IsCalm l d "Add a destination" refl, (tt, tt))),
    ),
  )
  items-IsClean reserve (x ∷ xs) =
      let found : (p : StorageItem × List StorageItem) → All IsClean (storage_card l reserve p) =
        λ p. storage_card-IsClean reserve p.0 p.1 in
      found (primary x xs)

  pub render_storage-IsClean : (info : Option StorageInfo) → All IsClean (render_storage l info)
  unfolding render_storage
  render_storage-IsClean none = (tt, (key-IsCalm l d "Loading storage…" refl, (tt, tt)))
  render_storage-IsClean (some info) =
      items-IsClean info.minimum_free_space_reserve_bytes info.items
