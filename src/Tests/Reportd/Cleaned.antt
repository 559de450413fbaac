-- ===== src/Tests/Reportd/Cleaned.antt =====
-- The theorems on src/internal/reportd/cleanup.go at concrete inputs.
use timesync_analyzer.Common.{◌≡◌, refl, [], ◌∷◌, true, false, some}
use timesync_analyzer.Common.Assoc.{lookup}
use timesync_analyzer.Common.Int.{pos, ◌-ℤ◌}
use timesync_analyzer.Common.Text.{text, text_eq, has_prefix}
use timesync_analyzer.Reportd.Service.{list_from}
use timesync_analyzer.Reportd.Service.Run.{abs_path}
use timesync_analyzer.Reportd.Cleanup.{
  Entry, active_report_dirs, drop_jobs_for_dirs, run_cleanup, clean, removes,
}
use timesync_analyzer.Reportd.Cleanup.Effects.{
  kept, lookup-drop_jobs_for_dirs, Picks, run_cleanup-Picks, lookup-run_cleanup,
}
use timesync_analyzer.Tests.Reportd.Data.{test_env, after_one}

lookup-drop_jobs_for_dirs_example :
    lookup (text "a") (drop_jobs_for_dirs (text "report_1" ∷ []) after_one).jobs
    ≡ kept (text "report_1" ∷ []) (lookup (text "a") after_one.jobs)
lookup-drop_jobs_for_dirs_example =
    lookup-drop_jobs_for_dirs (text "report_1" ∷ []) (text "a") after_one

abbrev old_report : Entry
old_report = record {
  name = text "report_1";
  is_dir = true;
  mod_time = some (pos 1);
  removable = true;
  cancelled = false;
}

run_cleanup-Picks_example :
    Picks
      (λ entry. abs_path test_env entry.name)
      (pos 200 -ℤ pos 100)
      after_one.jobs
      (old_report ∷ [])
      (run_cleanup test_env (λ name. name) (pos 200) (some (old_report ∷ [])) after_one).1
run_cleanup-Picks_example =
    run_cleanup-Picks test_env (λ name. name) (pos 200) (old_report ∷ []) after_one

lookup-run_cleanup_example :
    lookup
      (text "a")
      (run_cleanup test_env (λ name. name) (pos 200) (some (old_report ∷ [])) after_one).0.jobs
    ≡ kept
        (run_cleanup test_env (λ name. name) (pos 200) (some (old_report ∷ [])) after_one).1
        (lookup (text "a") after_one.jobs)
unfolding clean removes has_prefix active_report_dirs list_from lookup ◌-ℤ◌
lookup-run_cleanup_example =
    lookup-run_cleanup test_env (λ name. name) (pos 200) (old_report ∷ []) after_one refl (text "a")
