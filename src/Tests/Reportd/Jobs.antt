-- ===== src/Tests/Reportd/Jobs.antt =====
-- The theorems on src/internal/reportd/service.go and parse.go at concrete inputs.
use timesync_analyzer.Common.{
  ℕ, zero, suc, ◌+◌, ◌≡◌, ◌≤◌, ◌↔◌, ◌⊎◌, refl, List, [], ◌∷◌, map, true, false, some, arith, length,
  take,
}
use timesync_analyzer.Common.Assoc.{lookup}
use timesync_analyzer.Common.Int.{pos, ◌-ℤ◌, ◌≤ℤ◌, ◌<ℤ◌}
use timesync_analyzer.Common.Text.{Text, text, text_eq}
use timesync_analyzer.Reportd.Types.{Service, ReportJob}
use timesync_analyzer.Reportd.Groups.{ok, no_groups, parse_render_group_list, render_group_names}
use timesync_analyzer.Reportd.Groups.Roundtrip.{parse-render_group_names}
use timesync_analyzer.Reportd.Service.{
  new_service, with_defaults, register, make_job, trim_old_jobs, with_new_job, send, enqueue,
  queue_full, capacity, get_job, list_jobs, reserve_alert_fingerprint,
}
use timesync_analyzer.Reportd.Service.Invariant.{Consistent}
use timesync_analyzer.Reportd.Service.Threads.{World, Reach, here, next, enqueues, send_new}
use timesync_analyzer.Reportd.Service.Threads.Sound.{Sound}
use timesync_analyzer.Reportd.Service.Threads.Reachable.{Reach-Sound}
use timesync_analyzer.Reportd.Service.Calls.{
  enqueue-queue_full, enqueue-get_job, enqueue_full_evicts, list_jobs-ids, reserve_twice,
}
use timesync_analyzer.Reportd.Cleanup.{active_report_dirs}
use timesync_analyzer.Reportd.Cleanup.Effects.{active_report_dirs-Reach}
use timesync_analyzer.Tests.Reportd.Data.{
  test_env, test_options, test_spec, idle, full, after_one, no_report,
}

parse-render_group_names_example :
    parse_render_group_list (render_group_names (record no_groups { offset = true; system = true }))
    ≡ ok (record no_groups { offset = true; system = true })
parse-render_group_names_example =
    parse-render_group_names (record no_groups { offset = true; system = true })

enqueue-queue_full_example :
    ((enqueue test_env (pos 5) test_spec full).1 ≡ queue_full)
    ↔ ((pos 0 ≤ℤ pos 0) × (capacity full ≤ length full.queue))
enqueue-queue_full_example = enqueue-queue_full test_env (pos 5) test_spec full

abbrev first_job : ReportJob
first_job = (register test_env (pos 5) test_spec idle).0

enqueue-get_job_example :
    get_job first_job.id (enqueue test_env (pos 5) test_spec idle).0 ≡ some first_job
unfolding enqueue register send make_job trim_old_jobs with_new_job
enqueue-get_job_example = enqueue-get_job test_env (pos 5) test_spec idle first_job refl refl

-- 500 ids, 1000, 1001 and on.
abbrev many : ℕ → List Text
many zero = []
many (suc n) = ((1000 + n) ∷ []) ∷ many n

abbrev crowded : Service
crowded = record full { job_order = many 500 }

enqueue_full_evicts_example :
    (enqueue test_env (pos 5) test_spec crowded).0.job_order ≡ take 499 (many 500)
enqueue_full_evicts_example =
    enqueue_full_evicts test_env (pos 5) test_spec crowded refl
      ((enqueue-queue_full test_env (pos 5) test_spec crowded).1 (omega arith, omega arith))

after_one-Consistent : Consistent after_one
unfolding lookup make_job
after_one-Consistent = record {
  keyed = λ id. ground arith;
  named = λ id job e. ground (arith, text_eq.beq_iff (text "a") id);
  bounded = omega arith;
}

list_jobs-ids_example : map (λ job. job.id) (list_jobs after_one) ≡ text "a" ∷ []
list_jobs-ids_example = list_jobs-ids after_one after_one-Consistent

reserve_twice_example :
    let r =
      reserve_alert_fingerprint
        (text "f")
        (pos 50)
        (reserve_alert_fingerprint (text "f") (pos 1) idle).0 in
    ((r.1 ≡ true) × (pos 60 ≤ℤ (pos 50 -ℤ pos 1)))
    ⊎ ((r.1 ≡ false)
        × ((pos 50 -ℤ pos 1) <ℤ pos 60)
        × (r.0 ≡ (reserve_alert_fingerprint (text "f") (pos 1) idle).0))
unfolding reserve_alert_fingerprint lookup
reserve_twice_example = reserve_twice (text "f") (pos 1) (pos 50) idle (omega arith) refl

-- A new service with one job between its registration and the send.
abbrev one_thread : World
one_thread = record {
  svc = (register test_env (pos 5) test_spec (new_service test_options)).1;
  threads = ((register test_env (pos 5) test_spec (new_service test_options)).0.id, send_new) ∷ [];
}

one_thread-Reach : Reach test_env no_report test_options one_thread
unfolding new_service with_defaults
one_thread-Reach = next here (enqueues (pos 5) test_spec (omega arith) refl)

Reach-Sound_example : Sound test_env one_thread
Reach-Sound_example = Reach-Sound test_env no_report one_thread-Reach

active_report_dirs-Reach_example : active_report_dirs one_thread.svc ≡ []
active_report_dirs-Reach_example = active_report_dirs-Reach test_env no_report one_thread-Reach
