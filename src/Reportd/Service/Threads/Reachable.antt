-- ===== src/Reportd/Service/Threads/Reachable.antt =====
-- Every state that the goroutines of src/internal/reportd/service.go can reach.
use timesync_analyzer.Common.{refl, [], ◌∷◌, arith}
use timesync_analyzer.Common.Assoc.{lookup}
use timesync_analyzer.Common.Text.{text_eq}
use timesync_analyzer.Reportd.Types.{Options, ReportResult}
use timesync_analyzer.Reportd.Groups.{Parsed}
use timesync_analyzer.Reportd.Service.{Env, new_service}
use timesync_analyzer.Reportd.Service.Run.{GenerateOptions}
use timesync_analyzer.Reportd.Service.Invariant.{settle-Consistent, mark_job_failed-Consistent}
use timesync_analyzer.Reportd.Service.Threads.{
  World, take_back, give_up, begin, finish, Step, enqueues, schedules, fires, fires_late, sends,
  finds_full, takes_back, gives_up, receives, begins, begins_late, finishes, forgets, reserves,
  Reach, here, next,
}
use timesync_analyzer.Reportd.Service.Threads.Parts.{
  settle-Owned, mark_job_failed-Owned, settle-Rest, mark_job_failed-Rest,
}
use timesync_analyzer.Reportd.Service.Threads.Cases.{
  enqueues-Sound, schedules-Sound, fires-Sound, moves-Sound, sends-Sound, takes_back-Sound,
  settles-Sound, begins-Sound, receives-Sound, reserves-Sound,
}
use timesync_analyzer.Reportd.Service.Threads.Sound.{Sound, without, count_threads-append}

module _ (env : Env) (generate : GenerateOptions → Parsed ReportResult) where
  Step-Sound : {w x : World} → Step env generate w x → Sound env w → Sound env x
  Step-Sound {w = w} (enqueues now spec small now_due) h = enqueues-Sound env w now spec small h
  Step-Sound {w = w} (schedules now spec small delayed) h = schedules-Sound env w now spec small h
  Step-Sound {w = w} (fires id before after e go) h =
      fires-Sound env w id before after _ e (λ j. omega arith) h
  Step-Sound {w = w} (fires_late id before after e stop) h =
      fires-Sound env w id before after _ e (λ j. omega arith) h
  Step-Sound {w = w} (sends id todo before after s e which sent) h =
      sends-Sound env w id todo before after s e sent h
  Step-Sound {w = w} (finds_full id todo todo' before after e which full) h =
      moves-Sound env w _
        (λ j. omega (
          arith,
          without j id todo before after w.threads e,
          count_threads-append j before after,
          count_threads-append j before ((id, todo') ∷ after),
        ))
        h
  Step-Sound {w = w} (takes_back id before after e) h =
      takes_back-Sound env w id _
        (λ j. omega (arith, without j id take_back before after w.threads e)) h
  Step-Sound {w = w} (gives_up id message now before after e) h =
      settles-Sound env w id give_up before after _ e (mark_job_failed-Rest id message now w.svc)
        (mark_job_failed-Consistent id message now w.svc h.consistent)
        (λ held' ends. mark_job_failed-Owned id held' now w.svc ends h.owned message) h
  Step-Sound {w = w} (receives id rest e) h = receives-Sound env w id rest e h
  Step-Sound {w = w} (begins id now before after job e started) h =
      begins-Sound env w id now before after _ e
        (λ j. omega (
          arith,
          without j id begin before after w.threads e,
          count_threads-append j before after,
          count_threads-append j before ((id, begin) ∷ after),
          count_threads-append j before ((id, finish _) ∷ after),
        ))
        h
  Step-Sound {w = w} (begins_late id now before after e gone) h =
      begins-Sound env w id now before after _ e
        (λ j. omega (arith, without j id begin before after w.threads e)) h
  Step-Sound {w = w} (finishes id r now before after e) h =
      settles-Sound env w id (finish r) before after _ e (settle-Rest env id r now w.svc)
        (settle-Consistent env id r now w.svc h.consistent)
        (λ held' ends. settle-Owned id held' now w.svc ends h.owned r) h
  Step-Sound {w = w} (forgets id) h = takes_back-Sound env w id _ (λ j. omega arith) h
  Step-Sound {w = w} (reserves fingerprint now) h = reserves-Sound env w fingerprint now h

  here-Sound : (opts : Options) → Sound env (record { svc = new_service opts; threads = [] })
  unfolding new_service lookup
  here-Sound opts = record {
    consistent = record { keyed = λ id. refl; named = λ id job e. cc; bounded = omega arith };
    owned = record {
      single = λ id. omega arith;
      unused = λ t n h. refl;
      absent = λ t n h. refl;
      idle = λ id job e. cc;
    };
    fits = omega arith;
  }

  -- However the handlers, timers and workers interleave, from a new service on, with fewer than 2 ^ 64
  -- jobs: `jobs` and `jobOrder` hold the same ids, each once, and at most 500; the channel never holds
  -- more than its capacity; at most one goroutine, channel slot or timer has to do with a job; and a
  -- job whose report directory is set has finished.
  pub Reach-Sound : {opts : Options} {w : World} → Reach env generate opts w → Sound env w
  Reach-Sound {opts} here = here-Sound opts
  Reach-Sound (next r st) = Step-Sound st (Reach-Sound r)
