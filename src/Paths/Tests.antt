-- ===== src/Paths/Tests.antt =====
-- app.js, the paths shown: runs at concrete inputs.
use moment_ferry.Common.{
  List, [], ◌∷◌, none, some, Text, codes, arith, ◌≡◌, ◌≢◌, refl, All, starts_with, flat_map,
  decimal, trim,
}
use moment_ferry.Model.{Share}
use moment_ferry.Model.Samples.{share_at, kiel}
use moment_ferry.Picker.{Civil}
use moment_ferry.Paths.{
  slashes, share_for_path, safe_segment, type_text, destination_folder, destination_path_for,
}
use moment_ferry.Paths.Owner.{Found, share_for_path-Found}
use moment_ferry.Paths.Names.{IsSafe, safe_segment-IsSafe}
use moment_ferry.Paths.Template.{
  Part, plain, token, event_name, year, month, source, IsPart, NoBrace, show,
}
use moment_ferry.Paths.Folder.{folder_values, destination_folder-parts}

abbrev shares : List Share
shares = share_at (codes "/mnt") ∷ share_at (codes "/mnt/phone") ∷ []

-- The share of /mnt/phone is taken for the owner of a path of /mnt/phone2.
neighbour :
    share_for_path shares (some (codes "/mnt/phone2/a.jpg")) ≡ some (share_at (codes "/mnt/phone"))
unfolding share_for_path
neighbour = refl

share_for_path-Found_example :
    Found
      (λ s. starts_with (slashes (codes "/mnt/phone/a.jpg")) (slashes s.path))
      shares
      (share_for_path shares (some (codes "/mnt/phone/a.jpg")))
share_for_path-Found_example = share_for_path-Found shares (codes "/mnt/phone/a.jpg") (λ e. cc e)

abbrev file_name : Text
file_name = codes "a.jpg"

file_name_nonempty : file_name ≢ []
file_name_nonempty e = cc e

safe_segment-IsSafe_example :
    (safe_segment (codes " Kiel: 1/2 ") ≢ []) × All IsSafe (safe_segment (codes " Kiel: 1/2 "))
safe_segment-IsSafe_example = safe_segment-IsSafe (codes " Kiel: 1/2 ")

abbrev june : Civil
june = record { year = 2026; month = 5; day = 3; hours = 9; minutes = 30 }

kiel_folder :
    destination_path_for [] (some june) kiel none ≡ codes "destination/2026/06 Kiel_ 1_2/{source}"
unfolding destination_path_for destination_folder safe_segment trim decimal
kiel_folder = refl

kiel_name : NoBrace (safe_segment kiel.name)
unfolding safe_segment trim
kiel_name = ground arith

kiel_type : NoBrace (safe_segment (type_text [] kiel.type))
unfolding safe_segment trim type_text
kiel_type = ground arith

abbrev kiel_parts : List Part
kiel_parts =
    token year
    ∷ plain (codes "/")
    ∷ token month
    ∷ plain (codes " ")
    ∷ token event_name
    ∷ plain (codes "/")
    ∷ token source
    ∷ []

kiel_parts-IsPart : All IsPart kiel_parts
kiel_parts-IsPart = ground arith

destination_folder-parts_example :
    destination_folder [] (some june) kiel ≡ flat_map (show (folder_values [] june kiel)) kiel_parts
destination_folder-parts_example =
    destination_folder-parts [] june kiel kiel_parts kiel_name kiel_type kiel_parts-IsPart refl
