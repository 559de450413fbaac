-- ===== src/Report/Panels.antt =====
-- The panels of dashboards in src/internal/report/grafana.go, and `safeName` of
-- src/internal/report/util.go.
pub mod Names
use timesync_analyzer.Common.{
  ℕ, List, [], ◌∷◌, ◌++◌, Bool, true, false, not, ◌&&◌, ◌||◌, if◌then◌else◌, ◌==◌, leb,
}
use timesync_analyzer.Common.Int.{ℤ, pos, ltb_ℤ}
use timesync_analyzer.Common.Text.{
  Text, text, text_eq, is_empty, trim_space, to_lower, contains, trim_of,
}
use timesync_analyzer.Reportd.Types.{RenderGroups}
use timesync_analyzer.Reportd.Groups.{Parsed, ok, err}
use timesync_analyzer.Report.Render.{Panel}

-- `dashboardPanelJSON`, whose panels are a list of itself.
mutual
  pub data DashboardPanel : Type 0 where
    dashboard_panel : (id : ℤ) (title panel_type : Text) (panels : DashboardPanels) → DashboardPanel

  pub data DashboardPanels : Type 0 where
    no_panels : DashboardPanels
    one_more : DashboardPanel → DashboardPanels → DashboardPanels

-- `dashboardFile`
pub record DashboardFile : Type 0 where
  pub uid : Text
  pub title : Text
  pub panels : DashboardPanels

-- The first value that is not blank, as it is.
unfoldable pub first_non_empty : List Text → Text
first_non_empty [] = []
first_non_empty (value ∷ values) =
    let rest = first_non_empty values in if is_empty (trim_space value) then rest else value

unfoldable pub is_allowed : ℕ → Bool
is_allowed c = (leb b'a' c && leb c b'z') || (leb b'0' c && leb c b'9')

-- The loop of `safeName`, with `lastUnderscore` and whether anything was written.
unfoldable pub safe_loop : (last_underscore written : Bool) → Text → Text
safe_loop last_underscore written [] = []
safe_loop last_underscore written (r ∷ rs) =
    let kept = r ∷ safe_loop false true rs in
    let joined = b'_' ∷ safe_loop true written rs in
    let left_out = safe_loop last_underscore written rs in
    if is_allowed r then kept else if not last_underscore && written then joined else left_out

unfoldable pub safe_name : Text → Text
unfolding safe_loop
safe_name value = trim_of b'_' (safe_loop false false (to_lower (trim_space value)))

abbrev pub is_renderable : ℤ → Text → Text → Bool
is_renderable id title panel_type =
    ltb_ℤ (pos 0) id && (not (is_empty title) && not (panel_type == text "row"))

abbrev pub grafana_panel : (uid slug prefix : Text) → ℤ → Text → Text → Panel
grafana_panel uid slug prefix id title panel_type = record {
  title = if is_empty prefix then title else prefix ++ (text " / " ++ title);
  panel_type = panel_type;
  uid = uid;
  slug = slug;
  panel_id = id;
}

-- `collect`, which appends to `panels`, for one item and for the items of a list.
module _ (uid slug prefix : Text) where
  unfoldable mutual
    pub collect_item : DashboardPanel → List Panel → List Panel
    collect_item (dashboard_panel id title panel_type inner) panels = collect inner (
        if is_renderable id title panel_type
        then panels ++ grafana_panel uid slug prefix id title panel_type ∷ []
        else panels)

    pub collect : DashboardPanels → List Panel → List Panel
    collect no_panels panels = panels
    collect (one_more item items) panels = collect items (collect_item item panels)

abbrev pub slug_of : DashboardFile → Text
unfolding safe_name first_non_empty
slug_of dashboard =
    let slug = safe_name (first_non_empty (dashboard.title ∷ dashboard.uid ∷ [])) in
    if is_empty slug then dashboard.uid else slug

abbrev pub at_least_one : List Panel → Parsed (List Panel)
at_least_one [] = err (text "dashboard contains no renderable panels")
at_least_one (panel ∷ panels) = ok (panel ∷ panels)

-- `loadDashboardPanels`, on what reading and decoding the file gives.
pub load_dashboard_panels : Parsed DashboardFile → Text → Parsed (List Panel)
unfolding slug_of
load_dashboard_panels (err e) prefix = err e
load_dashboard_panels (ok dashboard) prefix =
    if is_empty dashboard.uid
    then err (text "dashboard uid is empty")
    else at_least_one (collect dashboard.uid (slug_of dashboard) prefix dashboard.panels [])

abbrev pub and_loaded : List Panel → Parsed (List Panel) → List Panel
and_loaded panels (ok loaded) = panels ++ loaded
and_loaded panels (err e) = panels

unfoldable pub append_dashboard_panels : List Panel → Parsed DashboardFile → Text → List Panel
append_dashboard_panels panels dashboard prefix =
    and_loaded panels (load_dashboard_panels dashboard prefix)

unfoldable pub has_sync_render_group : RenderGroups → Bool
has_sync_render_group groups =
    groups.all || groups.frequency || groups.offset || groups.path_delay || groups.status

unfoldable pub should_render_sync_dashboard : RenderGroups → Bool
should_render_sync_dashboard groups =
    has_sync_render_group groups || (not groups.network && not groups.system)

unfoldable pub panel_matches_groups : Panel → RenderGroups → Bool
panel_matches_groups panel groups =
    let title = to_lower panel.title in
    let panel_type = to_lower panel.panel_type in
    (groups.frequency && contains title (text "frequency"))
    || (groups.offset && contains title (text "offset"))
    || (groups.path_delay && contains title (text "path delay"))
    || (groups.status
        && (panel_type == text "nodegraph"
            || panel_type == text "state-timeline"
            || panel_type == text "table"
            || contains title (text "topology")
            || contains title (text "timeline")
            || contains title (text "node info")
            || contains title (text "status")))

unfoldable pub matching : List Panel → RenderGroups → List Panel
matching [] groups = []
matching (panel ∷ panels) groups =
    let rest = matching panels groups in
    if panel_matches_groups panel groups then panel ∷ rest else rest

pub filter_panels_by_groups : List Panel → RenderGroups → List Panel
filter_panels_by_groups panels groups =
    if not (has_sync_render_group groups) || groups.all then panels else matching panels groups

abbrev pub selected : RenderGroups → Parsed (List Panel) → List Panel
unfolding filter_panels_by_groups
selected groups (ok panels) = filter_panels_by_groups panels groups
selected groups (err e) = []

-- The panels that `Generate` of src/internal/report/report.go renders, from its three dashboards.
unfoldable pub chosen_panels :
    (sync network system : Parsed DashboardFile) → RenderGroups → List Panel
unfolding load_dashboard_panels
chosen_panels sync network system groups =
    let sync_panels =
      if should_render_sync_dashboard groups
      then selected groups (load_dashboard_panels sync [])
      else [] in
    let with_network =
      if groups.all || groups.network
      then append_dashboard_panels sync_panels network (text "Network")
      else sync_panels in
    if groups.all || groups.system
    then append_dashboard_panels with_network system (text "System")
    else with_network
