-- ===== src/Paths/Folder.antt =====
-- app.js, destinationFolder: the five replacements, against a description of a template as a sequence
-- of plain texts and tokens.
use moment_ferry.Common.{
  ℕ, zero, suc, ◌+◌, List, [], ◌∷◌, none, some, Text, All, flat_map, arith, ◌≡◌, refl, All-append,
  decimal, decimal-IsDigit, IsDigit, replicate,
}
use moment_ferry.Model.{MediaEvent}
use moment_ferry.I18n.{Messages}
use moment_ferry.Picker.{Civil}
use moment_ferry.Paths.{safe_segment, type_text, pad, destination_folder}
use moment_ferry.Paths.Template.{
  Token, Part, NoBrace, IsPart, Values, show, give, IsBraceless, replace_token-parts, flat_map-show,
  event_name, event_type, year, month, day, source, owner,
}

IsDigit-NoBrace : (s : Text) → All IsDigit s → NoBrace s
IsDigit-NoBrace [] h = tt
IsDigit-NoBrace (c ∷ s) (p, h) = ((λ e. omega arith), IsDigit-NoBrace s h)

replicate-NoBrace : (n : ℕ) → NoBrace (replicate n b'0')
replicate-NoBrace zero = tt
replicate-NoBrace (suc n) = ((λ e. omega arith), replicate-NoBrace n)

pad-NoBrace : (n size : ℕ) → NoBrace (pad n size)
unfolding pad
pad-NoBrace n size =
    All-append _ (replicate _ b'0') (decimal n) (replicate-NoBrace _)
      (IsDigit-NoBrace (decimal n) (decimal-IsDigit n))

-- The value of each token for an event whose start is a date.
abbrev pub folder_values : Messages → Civil → MediaEvent → Values
folder_values messages c event event_name = some (safe_segment event.name)
folder_values messages c event event_type = some (safe_segment (type_text messages event.type))
folder_values messages c event year = some (pad c.year 4)
folder_values messages c event month = some (pad (c.month + 1) 2)
folder_values messages c event day = some (pad c.day 2)
folder_values messages c event source = none
folder_values messages c event owner = none

abbrev no_values : Values
no_values k = none

module _ (messages : Messages) (c : Civil) (event : MediaEvent) where
  abbrev name_given : Values
  name_given = give event_name (safe_segment event.name) no_values

  abbrev type_given : Values
  type_given = give event_type (safe_segment (type_text messages event.type)) name_given

  abbrev year_given : Values
  year_given = give year (pad c.year 4) type_given

  abbrev month_given : Values
  month_given = give month (pad (c.month + 1) 2) year_given

  module _ (named : NoBrace (safe_segment event.name))
      (typed : NoBrace (safe_segment (type_text messages event.type))) where
    IsBraceless-name : (j : Token) → IsBraceless (name_given j)
    IsBraceless-name event_name = named
    IsBraceless-name event_type = tt
    IsBraceless-name _ = tt

    IsBraceless-type : (j : Token) → IsBraceless (type_given j)
    IsBraceless-type event_type = typed
    IsBraceless-type event_name = named
    IsBraceless-type _ = tt

    IsBraceless-year : (j : Token) → IsBraceless (year_given j)
    IsBraceless-year year = pad-NoBrace c.year 4
    IsBraceless-year event_type = typed
    IsBraceless-year event_name = named
    IsBraceless-year _ = tt

    IsBraceless-month : (j : Token) → IsBraceless (month_given j)
    IsBraceless-month month = pad-NoBrace (c.month + 1) 2
    IsBraceless-month year = pad-NoBrace c.year 4
    IsBraceless-month event_type = typed
    IsBraceless-month event_name = named
    IsBraceless-month _ = tt

    given-folder_values :
        (j : Token) → give day (pad c.day 2) month_given j ≡ folder_values messages c event j
    given-folder_values event_name = refl
    given-folder_values _ = refl

-- The folder of a template made of plain texts without an opening brace and of tokens, for an event
-- whose start is a date, is that template with the value of each token in its place, `{source}` and
-- `{owner}` staying as they are; on the condition that no opening brace stands in the segments made
-- from the event's name and type.
pub destination_folder-parts :
    (messages : Messages) (c : Civil) (event : MediaEvent) (parts : List Part)
    → NoBrace (safe_segment event.name)
    → NoBrace (safe_segment (type_text messages event.type))
    → All IsPart parts
    → event.destination_folder_template ≡ flat_map (show (λ k. none)) parts
    → destination_folder messages (some c) event
      ≡ flat_map (show (folder_values messages c event)) parts
unfolding destination_folder
destination_folder-parts messages c event parts named typed h e =
    rw
      (
        e,
        replace_token-parts event_name (safe_segment event.name) no_values refl parts h (λ j. tt),
        replace_token-parts event_type (safe_segment (type_text messages event.type))
            (name_given messages c event) refl parts h
            (IsBraceless-name messages c event named typed),
        replace_token-parts year (pad c.year 4) (type_given messages c event) refl parts h
            (IsBraceless-type messages c event named typed),
        replace_token-parts month (pad (c.month + 1) 2) (year_given messages c event) refl parts h
            (IsBraceless-year messages c event named typed),
        replace_token-parts day (pad c.day 2) (month_given messages c event) refl parts h
            (IsBraceless-month messages c event named typed),
      )
      (flat_map-show _ _ parts (given-folder_values messages c event named typed))
