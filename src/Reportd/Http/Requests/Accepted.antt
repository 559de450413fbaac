-- ===== src/Reportd/Http/Requests/Accepted.antt =====
-- What `createSpecFromRequest` of src/internal/reportd/handlers.go accepts.
use timesync_analyzer.Common.{ℕ, ◌≡◌, refl, List, Bool, true, false, arith}
use timesync_analyzer.Common.Int.{ℤ, pos, ltb_ℤ, ◌<ℤ◌, ◌-ℤ◌}
use timesync_analyzer.Common.Text.{Text, text, is_empty}
use timesync_analyzer.Reportd.Types.{Options, RenderGroups, CreateJobSpec}
use timesync_analyzer.Reportd.Groups.{
  Parsed, ok, err, parse_render_group_list, normalize_group_names,
}
use timesync_analyzer.Reportd.Groups.Roundtrip.{parse-render_group_names}
use timesync_analyzer.Reportd.Http.{CreateReportRequest}
use timesync_analyzer.Reportd.Http.Requests.{
  TimeLib, ◌>>=◌, require, context, period_of, parse_api_time, groups_of, build_spec,
  create_spec_from_request,
}

-- A chain that ends well has a first value.
pub >>=-value :
    {A B : Type 0} (first : Parsed A) (next : A → Parsed B) {result : B}
    → (first >>= next) ≡ ok result
    → (value : A) × (next value ≡ ok result) × (first ≡ ok value)
>>=-value (err why) next ends = cc
>>=-value (ok value) next ends = (value, ends, refl)

require-eq-ok :
    {B : Type 0} (b : Bool) (e : Text) (rest : Unit {0} → Parsed B) {v : B}
    → (require b e >>= rest) ≡ ok v
    → (b ≡ true) × (rest tt ≡ ok v)
require-eq-ok true e rest h = (refl, h)
require-eq-ok false e rest h = cc

module _ (lib : TimeLib) (opts : Options) (now : ℤ) (clock : ℕ → ℤ) (req : CreateReportRequest)
    (default_period : ℤ) (default_groups : RenderGroups) (default_source : Text) where
  -- The groups of a spec: the default ones, whose names parse back to them, or those of the request.
  abbrev pub GroupsFit : CreateJobSpec → Type 0
  GroupsFit spec =
      (is_empty req.groups ≡ true
        → (spec.groups ≡ default_groups)
          × (parse_render_group_list spec.group_names ≡ ok spec.groups))
      × (is_empty req.groups ≡ false
          → (parse_render_group_list req.groups ≡ ok spec.groups)
            × (spec.group_names ≡ normalize_group_names req.groups))

  groups_of-fit :
      (groups : RenderGroups) (names : List Text)
      → groups_of lib req default_groups ≡ ok (groups, names)
      → (is_empty req.groups ≡ true
          → (groups ≡ default_groups) × (parse_render_group_list names ≡ ok groups))
        × (is_empty req.groups ≡ false
            → (parse_render_group_list req.groups ≡ ok groups)
              × (names ≡ normalize_group_names req.groups))
  unfolding groups_of
  groups_of-fit groups names h = ground (arith, parse-render_group_names default_groups)

  build_spec-fits :
      (from to period : ℤ) (groups : RenderGroups × List Text) (spec : CreateJobSpec)
      → groups_of lib req default_groups ≡ ok groups
      → ok (build_spec lib opts req from to period groups default_source) ≡ ok spec
      → (spec.from ≡ from)
        × (spec.to ≡ to)
        × (spec.period ≡ period)
        × (spec.delay ≡ pos 0)
        × GroupsFit spec
  unfolding build_spec
  build_spec-fits from to period (groups, names) spec found e =
      ground (arith, groups_of-fit groups names found)

  -- Every request that is accepted gives a job whose interval is not empty, whose period is positive,
  -- which has no delay, and whose groups are those of the request, or else the default ones under
  -- names that parse back to them.
  pub create_spec_from_request-accepted :
      {spec : CreateJobSpec}
      → create_spec_from_request lib opts now clock req default_period default_groups default_source
        ≡ ok spec
      → (spec.from <ℤ spec.to) × (pos 0 <ℤ spec.period) × (spec.delay ≡ pos 0) × GroupsFit spec
  unfolding create_spec_from_request
  create_spec_from_request-accepted {spec} h =
      let (period, h₁, _) = >>=-value (period_of lib req default_period) _ h in
      let (positive, h₂) = require-eq-ok (ltb_ℤ (pos 0) period) _ _ h₁ in
      let (to, h₃, _) =
        >>=-value (context (text "parse to: ") (parse_api_time lib (clock 0) req.to now)) _ h₂ in
      let (from, h₄, _) =
        >>=-value
          (context (text "parse from: ") (parse_api_time lib (clock 1) req.from (to -ℤ period))) _
          h₃ in
      let (ordered, h₅) = require-eq-ok (ltb_ℤ from to) _ _ h₄ in
      let (groups, h₆, found) = >>=-value (groups_of lib req default_groups) _ h₅ in
      let (e, e', e'', delay, fit) = build_spec-fits from to period groups spec found h₆ in
      (ground (arith, e, e', ordered), ground (arith, e'', positive), delay, fit)
