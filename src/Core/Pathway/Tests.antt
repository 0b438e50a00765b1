-- ===== src/Core/Pathway/Tests.antt =====
-- Three steps: of one filter with two clips of one VideoInfo, and with a number.
use cat_syn.Prelude.{◌≡◌, ◌↔◌, ◌==◌, refl, true, false, some, none, List, [], ◌∷◌}
use cat_syn.Core.Pathway.{substrate, bytes, other, Slots, end, absent, present, StepDesc, step_less}
use cat_syn.Core.Pathway.Args.{ArgSpec, int64, class, integer, Arg, accepted, undefined, check_args}
use cat_syn.Core.Pathway.Accepts.{ArgsFit, check_args_lem}
use cat_syn.Core.Pathway.Order.{step_less-IsStrictWeak}

abbrev step : Slots → StepDesc
step args = record { enzyme_id = 115 ∷ 116 ∷ 100 ∷ []; func_name = 84 ∷ []; args = args }

abbrev clip : StepDesc
clip = step (present (substrate (1 ∷ 0 ∷ [])) end)

abbrev clip_and_hole : StepDesc
clip_and_hole = step (present (substrate (1 ∷ 0 ∷ [])) (absent (present (other 4) end)))

abbrev number : StepDesc
number = step (present (bytes (9 ∷ [])) end)

step_less-IsStrictWeak_example :
    (step_less clip clip ≡ false)
    × (step_less clip clip_and_hole ≡ true → step_less clip_and_hole clip ≡ false)
    × (step_less clip clip_and_hole ≡ true
        → step_less clip_and_hole number ≡ true
        → step_less clip number ≡ true)
    × (step_less clip clip_and_hole ≡ false
        → step_less clip_and_hole clip ≡ false
        → step_less clip_and_hole number ≡ false
        → step_less number clip_and_hole ≡ false
        → (step_less clip number ≡ false) × (step_less number clip ≡ false))
step_less-IsStrictWeak_example = step_less-IsStrictWeak clip clip_and_hole number

clip_before_number : step_less clip number ≡ true
unfolding step_less
clip_before_number = refl

-- A clip, and a number of eight bytes that is not required; an object is of the type of its address.
abbrev specs : List ArgSpec
specs =
    record { name = "clip"; type = some (class 7); array = false; required = true }
    ∷ record { name = "first"; type = some int64; array = false; required = false }
    ∷ []

abbrev args : List Arg
args =
    record {
      key = some "clip";
      value = some (record { object = 7; numeric = none; elements = none });
    }
    ∷ record {
      key = some "first";
      value = some (record { object = 1; numeric = some (integer, 8); elements = none });
    }
    ∷ []

check_args_lem_example :
    (check_args (λ o t. o == t) specs 0 args ≡ accepted) ↔ ArgsFit (λ o t. o == t) specs args
check_args_lem_example = check_args_lem (λ o t. o == t) specs 0 args

accepted_args : check_args (λ o t. o == t) specs 0 args ≡ accepted
unfolding check_args
accepted_args = refl

too_few_args : check_args (λ o t. o == t) specs 0 [] ≡ undefined
unfolding check_args
too_few_args = refl
