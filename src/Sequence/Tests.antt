-- ===== src/Sequence/Tests.antt =====
-- sequence.rs: the laws of sequences at concrete inputs.
use easycon_sdk.Common.{◌≡◌, ◌⊎◌, List, [], ◌∷◌, String}
use easycon_sdk.Model.Controller.{Button}
use easycon_sdk.Model.Error.{ok, err, validation_error}
use easycon_sdk.Report.Actions.{button_down, button_up, reset_all}
use easycon_sdk.Sequence.{SequenceStep, new_sequence}
use easycon_sdk.Sequence.Validation.{IsSequence, new_sequence_complete}

abbrev tap : List SequenceStep
tap =
    record { offset_ns = 0; action = button_down Button.a }
    ∷ record { offset_ns = 0; action = button_down Button.b }
    ∷ record { offset_ns = 50; action = button_up Button.a }
    ∷ record { offset_ns = 60; action = reset_all }
    ∷ []

new_sequence_complete_example :
    (IsSequence tap × (new_sequence tap ≡ ok tap))
    ⊎ ((m : String) × (¬ IsSequence tap) × (new_sequence tap ≡ err (validation_error m)))
new_sequence_complete_example = new_sequence_complete tap
