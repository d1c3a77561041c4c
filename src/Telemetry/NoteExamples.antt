-- ===== src/Telemetry/NoteExamples.antt =====
-- An annotation that is set again.
use gempba.Base.{◌≡◌, if◌then◌else◌, ltb, ◌&&◌, ◌||◌, not, [], ◌∷◌, ◌++◌, some}
use gempba.Topology.Hosts.{same}
use gempba.Telemetry.Notes.{Annotations, annotate_run, value_of_key, keys}
use gempba.Telemetry.Annotations.{is_set, fits, annotate_run_lem}

abbrev set_before : Annotations
set_before = (10 ∷ [], 1 ∷ []) ∷ (20 ∷ [], 2 ∷ []) ∷ []

annotate_run_lem_example :
    let (l', taken) = annotate_run (20 ∷ []) (7 ∷ []) set_before in
    let known = is_set (value_of_key (20 ∷ []) set_before) in
    (taken ≡ (fits (20 ∷ []) (7 ∷ []) && (known || ltb 2 8)))
    × (value_of_key (20 ∷ []) l' ≡ (
        if taken && same (20 ∷ []) (20 ∷ [])
        then some (7 ∷ [])
        else value_of_key (20 ∷ []) set_before))
    × (keys l' ≡ keys set_before ++ (if taken && not known then (20 ∷ []) ∷ [] else []))
annotate_run_lem_example = annotate_run_lem (20 ∷ []) (7 ∷ []) (20 ∷ []) set_before
