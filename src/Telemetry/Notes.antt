-- ===== src/Telemetry/Notes.antt =====
-- telemetry_hub: the annotations and the markers of a run, each function under its mutex. A text is its bytes.
use gempba.Base.{
  ℕ, ◌==◌, if◌then◌else◌, ltb, leb, Bool, true, false, ◌||◌, not, List, [], ◌∷◌, ◌++◌, map, length,
  Option, none, some,
}
use gempba.Clock.Defs.{◌-u◌}
use gempba.Topology.Hosts.{same}

abbrev pub max_annotations : ℕ
max_annotations = 8

abbrev pub max_key_bytes : ℕ
max_key_bytes = 32

abbrev pub max_value_bytes : ℕ
max_value_bytes = 64

abbrev pub max_markers : ℕ
max_markers = 32

abbrev pub max_label_bytes : ℕ
max_label_bytes = 64

abbrev pub Annotations : Type 0
Annotations = List (List ℕ × List ℕ)

-- The loop over the annotations; `none` if no key is the one to set.
unfoldable pub replace_value : List ℕ → List ℕ → Annotations → Option Annotations
replace_value key value [] = none
replace_value key value ((k, v) ∷ rest) =
    let further = replace_value key value rest in
    if same k key
    then some ((k, value) ∷ rest)
    else elim further [ none ↦ none | some l ↦ some ((k, v) ∷ l) ]

-- With whether the annotation was taken.
unfoldable pub annotate_run : List ℕ → List ℕ → Annotations → Annotations × Bool
annotate_run key value l =
    if (length key == 0) || (ltb max_key_bytes (length key) || ltb max_value_bytes (length value))
    then (l, false)
    else elim (replace_value key value l) [
      | some l' ↦ (l', true)
      | none ↦ if leb max_annotations (length l) then (l, false) else (l ++ (key, value) ∷ [], true)
    ]

pub data MarkerSource : Type 0 where
  code dashboard : MarkerSource

pub record Marker : Type 0 where
  pub elapsed_ms : ℕ
  pub label : List ℕ
  pub source : MarkerSource

unfoldable pub mark_run :
    Bool → ℕ → ℕ → ℕ → List ℕ → MarkerSource → List Marker → List Marker × Bool
mark_run running rank start_ms now_ms label source l =
    if not running || not (rank == 0)
    then (l, false)
    else if (length label == 0) || ltb max_label_bytes (length label)
    then (l, false)
    else if leb max_markers (length l)
    then (l, false)
    else (
      l ++ record { elapsed_ms = now_ms -u start_ms; label = label; source = source } ∷ [],
      true,
    )

-- The value of a key.
unfoldable pub value_of_key : List ℕ → Annotations → Option (List ℕ)
value_of_key key [] = none
value_of_key key ((k, v) ∷ rest) = if same k key then some v else value_of_key key rest

abbrev pub keys : Annotations → List (List ℕ)
keys = map (λ e. e.0)
