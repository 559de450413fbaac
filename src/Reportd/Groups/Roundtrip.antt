-- ===== src/Reportd/Groups/Roundtrip.antt =====
-- Printing render groups and parsing them back, src/internal/reportd/parse.go.
use timesync_analyzer.Common.{List, ◌++◌, ◌≡◌, refl, ◌∙◌, Bool, true, false, ◌||◌}
use timesync_analyzer.Common.Text.{Text, text, trim_space, to_lower, split}
use timesync_analyzer.Reportd.Types.{RenderGroups}
use timesync_analyzer.Reportd.Groups.{
  Parsed, ok, normalize_group_names, set_groups, parse_render_group_list, when_set,
  render_group_names,
}

-- Normalizing and then setting.
abbrev sets : List Text → RenderGroups → Parsed RenderGroups
sets names groups = set_groups (normalize_group_names names) groups

sets_all :
    (b : Bool) (rest : List Text) (g : RenderGroups)
    → sets (when_set b (text "all") ++ rest) g ≡ sets rest (record g { all = b || g.all })
unfolding set_groups normalize_group_names trim_space to_lower split
sets_all true rest g = refl
sets_all false rest g = refl

sets_frequency :
    (b : Bool) (rest : List Text) (g : RenderGroups)
    → sets (when_set b (text "frequency") ++ rest) g
      ≡ sets rest (record g { frequency = b || g.frequency })
unfolding set_groups normalize_group_names trim_space to_lower split
sets_frequency true rest g = refl
sets_frequency false rest g = refl

sets_offset :
    (b : Bool) (rest : List Text) (g : RenderGroups)
    → sets (when_set b (text "offset") ++ rest) g ≡ sets rest (record g { offset = b || g.offset })
unfolding set_groups normalize_group_names trim_space to_lower split
sets_offset true rest g = refl
sets_offset false rest g = refl

sets_path_delay :
    (b : Bool) (rest : List Text) (g : RenderGroups)
    → sets (when_set b (text "path_delay") ++ rest) g
      ≡ sets rest (record g { path_delay = b || g.path_delay })
unfolding set_groups normalize_group_names trim_space to_lower split
sets_path_delay true rest g = refl
sets_path_delay false rest g = refl

sets_status :
    (b : Bool) (rest : List Text) (g : RenderGroups)
    → sets (when_set b (text "status") ++ rest) g ≡ sets rest (record g { status = b || g.status })
unfolding set_groups normalize_group_names trim_space to_lower split
sets_status true rest g = refl
sets_status false rest g = refl

sets_network :
    (b : Bool) (rest : List Text) (g : RenderGroups)
    → sets (when_set b (text "network") ++ rest) g
      ≡ sets rest (record g { network = b || g.network })
unfolding set_groups normalize_group_names trim_space to_lower split
sets_network true rest g = refl
sets_network false rest g = refl

sets_system :
    (b : Bool) (g : RenderGroups)
    → sets (when_set b (text "system")) g ≡ ok (record g { system = b || g.system })
unfolding set_groups normalize_group_names trim_space to_lower split
sets_system true g = refl
sets_system false g = refl

or_false : (b : Bool) → (b || false) ≡ b
or_false true = refl
or_false false = refl

-- `ParseRenderGroupList` reads the names that `renderGroupNames` prints back to the same groups, for
-- all 128 sets of groups.
pub parse-render_group_names :
    (g : RenderGroups) → parse_render_group_list (render_group_names g) ≡ ok g
unfolding parse_render_group_list render_group_names
parse-render_group_names g =
    sets_all g.all _ _
    ∙ sets_frequency g.frequency _ _
    ∙ sets_offset g.offset _ _
    ∙ sets_path_delay g.path_delay _ _
    ∙ sets_status g.status _ _
    ∙ sets_network g.network _ _
    ∙ sets_system g.system _
    ∙ λ i. ok (record {
      all = or_false g.all i;
      frequency = or_false g.frequency i;
      offset = or_false g.offset i;
      path_delay = or_false g.path_delay i;
      status = or_false g.status i;
      network = or_false g.network i;
      system = or_false g.system i;
    })
