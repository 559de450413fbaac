-- ===== src/Reportd/Service/Threads/Cases.antt =====
-- Each part that the goroutines of src/internal/reportd/service.go run keeps their invariant.
use timesync_analyzer.Common.{
  ℕ, suc, ◌+◌, ◌≤◌, ◌<◌, ◌^◌, ◌≡◌, ap, ◌∙◌, List, [], ◌∷◌, ◌++◌, some, if◌then◌else◌, ◌==◌, arith,
  length, length-append, beq_refl,
}
use timesync_analyzer.Common.Count.{count, count-append, present}
use timesync_analyzer.Common.Int.{ℤ}
use timesync_analyzer.Common.Text.{Text, text_eq}
use timesync_analyzer.Reportd.Types.{Service, CreateJobSpec}
use timesync_analyzer.Reportd.Service.{
  Env, send, register, next_seq, unregister, reserve_alert_fingerprint,
}
use timesync_analyzer.Reportd.Service.Run.{mark_job_running, release_begin}
use timesync_analyzer.Reportd.Service.Invariant.{
  Consistent, register-Consistent, unregister-Consistent, mark_job_running-Consistent,
  release_begin-Consistent,
}
use timesync_analyzer.Reportd.Service.Threads.{World, Todo, send_new, begin, tokens, count_threads}
use timesync_analyzer.Reportd.Service.Threads.Ownership.{Owned, Owned-le}
use timesync_analyzer.Reportd.Service.Threads.Parts.{
  Rest, send-some, register-Rest, register-Owned, unregister-Owned, mark_job_running-Owned,
  release_begin-Owned, mark_job_running-Rest, release_begin-Rest,
}
use timesync_analyzer.Reportd.Service.Threads.Sound.{
  Sound, capacity_of, without, without_timer, register-id, reserve_alert_fingerprint-shape,
}

module _ (env : Env) where
  unused_order :
      (now : ℤ) (w : World)
      → suc w.svc.seq < 2 ^ 64
      → Sound env w
      → count (env.format_id now (next_seq w.svc)) w.svc.job_order ≡ 0
  unused_order now w small h =
      let id = env.format_id now (next_seq w.svc) in
      h.consistent.keyed id ∙ ap present (h.owned.absent now (next_seq w.svc) (omega arith))

  -- With a `now` and a spec, the tokens after `register` and one more holder.
  pub enqueues-Sound :
      (w : World) (now : ℤ) (spec : CreateJobSpec)
      → suc w.svc.seq < 2 ^ 64
      → Sound env w
      → Sound env (record {
        svc = (register env now spec w.svc).1;
        threads = ((register env now spec w.svc).0.id, send_new) ∷ w.threads;
      })
  enqueues-Sound w now spec small h =
      let rest = register-Rest env now spec w.svc in
      record {
        consistent =
            register-Consistent env now spec w.svc h.consistent (unused_order now w small h);
        owned =
            register-Owned env now spec w.svc _ _ small
              (λ j.
                rw (register-id env now spec w.svc)
                  (omega (arith, ap (count j) rest.1, ap (count j) rest.2)))
              h.owned;
        fits = omega (arith, h.fits, ap length rest.1, ap capacity_of rest.3);
      }

  pub schedules-Sound :
      (w : World) (now : ℤ) (spec : CreateJobSpec)
      → suc w.svc.seq < 2 ^ 64
      → Sound env w
      → Sound env (record w {
        svc = record (register env now spec w.svc).1 {
          timers = (register env now spec w.svc).0.id ∷ (register env now spec w.svc).1.timers;
        };
      })
  schedules-Sound w now spec small h =
      let rest = register-Rest env now spec w.svc in
      let c = register-Consistent env now spec w.svc h.consistent (unused_order now w small h) in
      record {
        consistent = record { keyed = c.keyed; named = c.named; bounded = c.bounded };
        owned =
            register-Owned env now spec w.svc _ _ small
              (λ j.
                rw (register-id env now spec w.svc)
                  (omega (arith, ap (count j) rest.1, ap (count j) rest.2)))
              h.owned;
        fits = omega (arith, h.fits, ap length rest.1, ap capacity_of rest.3);
      }

  pub fires-Sound :
      (w : World) (id : Text) (before after : List Text) (ts : List (Text × Todo))
      → w.svc.timers ≡ before ++ id ∷ after
      → ((j : Text) → count_threads j ts ≤ count_threads j w.threads + (if id == j then 1 else 0))
      → Sound env w
      → Sound env (record {
        svc = record (release_begin id w.svc).0 { timers = before ++ after };
        threads = ts;
      })
  fires-Sound w id before after ts e le h =
      let rest = release_begin-Rest id w.svc in
      let c = release_begin-Consistent id w.svc h.consistent in
      let here' = without_timer id id before after w.svc.timers e in
      record {
        consistent = record { keyed = c.keyed; named = c.named; bounded = c.bounded };
        owned =
            Owned-le _
              (λ j.
                omega (
                  arith,
                  le j,
                  without_timer j id before after w.svc.timers e,
                  ap (count j) rest.1,
                ))
              (release_begin-Owned id w.svc (ground (arith, here', beq_refl id)) h.owned);
        fits = omega (arith, h.fits, ap length rest.1, ap capacity_of rest.3);
      }

  -- A thread that ends or moves on, and leaves the jobs alone.
  pub moves-Sound :
      (w : World) (ts : List (Text × Todo))
      → ((j : Text) → count_threads j ts ≤ count_threads j w.threads)
      → Sound env w
      → Sound env (record w { threads = ts })
  moves-Sound w ts le h = record {
    consistent = h.consistent;
    owned = Owned-le _ (λ j. omega (arith, le j)) h.owned;
    fits = h.fits;
  }

  pub sends-Sound :
      (w : World) (id : Text) (todo : Todo) (before after : List (Text × Todo)) (s : Service)
      → w.threads ≡ before ++ (id, todo) ∷ after
      → send id w.svc ≡ some s
      → Sound env w
      → Sound env (record { svc = s; threads = before ++ after })
  sends-Sound w id todo before after s e sent h =
      let (shape, room) = send-some id w.svc s sent in
      rw shape (record {
        consistent = record {
          keyed = h.consistent.keyed;
          named = h.consistent.named;
          bounded = h.consistent.bounded;
        };
        owned =
            Owned-le _
              (λ j. omega (
                arith,
                without j id todo before after w.threads e,
                count-append j w.svc.queue (id ∷ []),
              ))
              h.owned;
        fits = omega (arith, room, length-append w.svc.queue (id ∷ []));
      })

  pub takes_back-Sound :
      (w : World) (id : Text) (ts : List (Text × Todo))
      → ((j : Text) → count_threads j ts ≤ count_threads j w.threads)
      → Sound env w
      → Sound env (record { svc = unregister id w.svc; threads = ts })
  unfolding unregister
  takes_back-Sound w id ts le h = record {
    consistent = unregister-Consistent id w.svc h.consistent;
    owned = Owned-le _ (λ j. omega (arith, le j)) (unregister-Owned id w.svc h.owned);
    fits = h.fits;
  }

  pub settles-Sound :
      (w : World) (id : Text) (todo : Todo) (before after : List (Text × Todo)) (s : Service)
      → w.threads ≡ before ++ (id, todo) ∷ after
      → Rest w.svc s
      → Consistent s
      → ((held' : Text → ℕ)
          → ((j : Text) → held' j + (if id == j then 1 else 0) ≡ tokens j w)
          → Owned env held' s.seq s.jobs)
      → Sound env w
      → Sound env (record { svc = s; threads = before ++ after })
  settles-Sound w id todo before after s e rest c owned h = record {
    consistent = c;
    owned = owned _ (λ j. omega (
      arith,
      without j id todo before after w.threads e,
      ap (count j) rest.1,
      ap (count j) rest.2,
    ));
    fits = omega (arith, h.fits, ap length rest.1, ap capacity_of rest.3);
  }

  pub begins-Sound :
      (w : World) (id : Text) (now : ℤ) (before after ts : List (Text × Todo))
      → w.threads ≡ before ++ (id, begin) ∷ after
      → ((j : Text) → count_threads j ts ≤ count_threads j w.threads)
      → Sound env w
      → Sound env (record { svc = (mark_job_running id now w.svc).0; threads = ts })
  begins-Sound w id now before after ts e le h =
      let rest = mark_job_running-Rest id now w.svc in
      let here' = without id id begin before after w.threads e in
      record {
        consistent = mark_job_running-Consistent id now w.svc h.consistent;
        owned =
            Owned-le _ (λ j. omega (arith, le j, ap (count j) rest.1, ap (count j) rest.2))
              (mark_job_running-Owned id now w.svc (ground (arith, here', beq_refl id)) h.owned);
        fits = omega (arith, h.fits, ap length rest.1, ap capacity_of rest.3);
      }

  pub receives-Sound :
      (w : World) (id : Text) (rest : List Text)
      → w.svc.queue ≡ id ∷ rest
      → Sound env w
      → Sound env
          (record { svc = record w.svc { queue = rest }; threads = (id, begin) ∷ w.threads })
  receives-Sound w id rest e h = record {
    consistent = record {
      keyed = h.consistent.keyed;
      named = h.consistent.named;
      bounded = h.consistent.bounded;
    };
    owned = Owned-le _ (λ j. omega (arith, ap (count j) e)) h.owned;
    fits = omega (arith, h.fits, ap length e);
  }

  pub reserves-Sound :
      (w : World) (fingerprint : Text) (now : ℤ)
      → Sound env w
      → Sound env (record w { svc = (reserve_alert_fingerprint fingerprint now w.svc).0 })
  reserves-Sound w fingerprint now h =
      rw (reserve_alert_fingerprint-shape fingerprint now w.svc) (record {
        consistent = record {
          keyed = h.consistent.keyed;
          named = h.consistent.named;
          bounded = h.consistent.bounded;
        };
        owned = Owned-le _ (λ j. omega arith) h.owned;
        fits = h.fits;
      })
