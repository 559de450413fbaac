-- ===== src/Reportd/Groups.antt =====
-- The render groups of src/internal/reportd/parse.go.
pub mod Roundtrip
use timesync_analyzer.Common.{
  List, [], ◌∷◌, ◌++◌, Bool, true, false, Option, none, some, if◌then◌else◌, ◌==◌, not, ◌||◌,
}
use timesync_analyzer.Common.Text.{Text, text, text_eq, is_empty, trim_space, to_lower, split}
use timesync_analyzer.Reportd.Types.{RenderGroups}

pub data Parsed {ℓ} (A : Type ℓ) : Type ℓ where
  ok : A → Parsed A
  err : Text → Parsed A

abbrev pub no_groups : RenderGroups
no_groups = record {
  all = false;
  frequency = false;
  offset = false;
  path_delay = false;
  status = false;
  network = false;
  system = false;
}

-- The loop of `splitCSV`.
unfoldable pub trimmed_parts : List Text → List Text
trimmed_parts [] = []
trimmed_parts (part ∷ parts) =
    let trimmed = trim_space part in
    let rest = trimmed_parts parts in if is_empty trimmed then rest else trimmed ∷ rest

unfoldable pub split_csv : Text → List Text
unfolding trimmed_parts
split_csv value = if is_empty (trim_space value) then [] else trimmed_parts (split b',' value)

-- The inner loop of `normalizeGroupNames`.
pub normalized_parts : List Text → List Text
normalized_parts [] = []
normalized_parts (part ∷ parts) =
    let name = to_lower (trim_space part) in
    let rest = normalized_parts parts in if is_empty name then rest else name ∷ rest

pub normalize_group_names : List Text → List Text
unfolding normalized_parts split_csv
normalize_group_names [] = []
normalize_group_names (value ∷ values) =
    normalized_parts (split_csv value) ++ normalize_group_names values

-- The `switch` on one normalized name; `none` is its default.
pub set_group : Text → RenderGroups → Option RenderGroups
set_group name groups =
    if is_empty name
    then some groups
    else if name == text "all"
    then some (record groups { all = true })
    else if name == text "freq" || name == text "frequency"
    then some (record groups { frequency = true })
    else if name == text "offset"
    then some (record groups { offset = true })
    else if name == text "path_delay" || name == text "path-delay" || name == text "pathdelay"
    then some (record groups { path_delay = true })
    else if name == text "status"
    then some (record groups { status = true })
    else if name == text "network"
    then some (record groups { network = true })
    else if name == text "system"
    then some (record groups { system = true })
    else none

-- The loop of `ParseRenderGroupList` over the normalized names; the error's `%q` is written without its
-- quotes.
pub set_groups : List Text → RenderGroups → Parsed RenderGroups
unfolding set_group
set_groups [] groups = ok groups
set_groups (name ∷ names) groups = elim (set_group name groups) [
  | none ↦ err (text "unknown render group " ++ name)
  | some groups' ↦ set_groups names groups'
]

unfoldable pub parse_render_group_list : List Text → Parsed RenderGroups
unfolding normalize_group_names set_groups
parse_render_group_list values = set_groups (normalize_group_names values) no_groups

unfoldable pub parse_render_groups : Text → Parsed RenderGroups
unfolding parse_render_group_list split_csv
parse_render_groups value = parse_render_group_list (split_csv value)

abbrev pub when_set : Bool → Text → List Text
when_set true name = name ∷ []
when_set false name = []

pub render_group_names : RenderGroups → List Text
render_group_names groups =
    when_set groups.all (text "all")
    ++ (when_set groups.frequency (text "frequency")
        ++ (when_set groups.offset (text "offset")
            ++ (when_set groups.path_delay (text "path_delay")
                ++ (when_set groups.status (text "status")
                    ++ (when_set groups.network (text "network")
                        ++ when_set groups.system (text "system"))))))

unfoldable pub first_non_empty : List Text → Text
first_non_empty [] = []
first_non_empty (value ∷ values) =
    let rest = first_non_empty values in
    if not (is_empty (trim_space value)) then trim_space value else rest
