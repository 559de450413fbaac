-- ===== src/Reportd/Service/Threads/Ownership.antt =====
-- Who may still touch a job of src/internal/reportd/service.go: at most one goroutine, channel slot or
-- timer, and none once the job is done.
use timesync_analyzer.Common.{
  ℕ, suc, ◌+◌, ◌≤◌, ◌<◌, ◌≡◌, ◌⊎◌, List, [], Bool, true, false, none, some, if◌then◌else◌, ◌==◌,
  arith,
}
use timesync_analyzer.Common.Assoc.{lookup, insert, lookup-insert}
use timesync_analyzer.Common.Int.{ℤ}
use timesync_analyzer.Common.Text.{Text, text_eq, text_beq_iff}
use timesync_analyzer.Reportd.Types.{ReportJob, JobStatus, done, failed}
use timesync_analyzer.Reportd.Service.{Env}

abbrev pub is_finished : JobStatus → Bool
is_finished done = true
is_finished failed = true
is_finished _ = false

abbrev pub Jobs : Type 0
Jobs = List (Text × ReportJob)

-- A job whose report directory is set is finished, and nothing has to do with it any more.
abbrev pub Idle : ℕ → ReportJob → Type 0
Idle n job = ((n ≡ 0) × (is_finished job.status ≡ true)) ⊎ (job.report_dir ≡ [])

-- `held` counts who has to do with a job; no id of a number above `seq` is in use.
pub record Owned (env : Env) (held : Text → ℕ) (seq : ℕ) (jobs : Jobs) : Type 0 where
  pub single : (id : Text) → held id ≤ 1
  pub unused : (t : ℤ) (n : ℕ) → seq < n → held (env.format_id t n) ≡ 0
  pub absent : (t : ℤ) (n : ℕ) → seq < n → lookup (env.format_id t n) jobs ≡ none
  pub idle : (id : Text) (job : ReportJob) → lookup id jobs ≡ some job → Idle (held id) job

module _ {env : Env} {held : Text → ℕ} {seq : ℕ} {jobs : Jobs} where
  -- A goroutine moves on or ends.
  pub Owned-le :
      (held' : Text → ℕ)
      → ((id : Text) → held' id ≤ held id)
      → Owned env held seq jobs
      → Owned env held' seq jobs
  Owned-le held' le o = record {
    single = λ id. omega (arith, le id, o.single id);
    unused = λ t n h. omega (arith, le (env.format_id t n), o.unused t n h);
    absent = o.absent;
    idle = λ id job e. ground (arith, le id, o.idle id job e);
  }

  -- A job is taken out.
  pub Owned-fewer :
      (jobs' : Jobs)
      → ((id : Text) → (lookup id jobs' ≡ none) ⊎ (lookup id jobs' ≡ lookup id jobs))
      → Owned env held seq jobs
      → Owned env held seq jobs'
  Owned-fewer jobs' sub o = record {
    single = o.single;
    unused = o.unused;
    absent = λ t n h. ground (arith, sub (env.format_id t n), o.absent t n h);
    idle = λ id job e. ground (arith, sub id, o.idle id job);
  }

  -- Whoever has to do with a job changes it, and leaves its report directory empty.
  pub Owned-change :
      (id : Text) (old job : ReportJob)
      → lookup id jobs ≡ some old
      → 0 < held id
      → (old.report_dir ≡ [] → job.report_dir ≡ [])
      → Owned env held seq jobs
      → Owned env held seq (insert id job jobs)
  Owned-change id old job found has keeps o = record {
    single = o.single;
    unused = o.unused;
    absent = λ t n h. ground (
      arith,
      o.absent t n h,
      o.unused t n h,
      lookup-insert id (env.format_id t n) job jobs,
      text_beq_iff id (env.format_id t n),
    );
    idle = λ j k e.
        ground
          (arith, o.idle j k, o.idle id old found, lookup-insert id j job jobs, text_beq_iff id j);
  }

  -- Whoever has to do with a job finishes it and ends.
  pub Owned-finish :
      (id : Text) (held' : Text → ℕ) (old job : ReportJob)
      → lookup id jobs ≡ some old
      → ((j : Text) → held' j + (if id == j then 1 else 0) ≡ held j)
      → is_finished job.status ≡ true
      → Owned env held seq jobs
      → Owned env held' seq (insert id job jobs)
  Owned-finish id held' old job found ends fin o = record {
    single = λ j. omega (arith, ends j, o.single j);
    unused = λ t n h. omega (arith, ends (env.format_id t n), o.unused t n h);
    absent = λ t n h. ground (
      arith,
      o.absent t n h,
      lookup-insert id (env.format_id t n) job jobs,
      text_beq_iff id (env.format_id t n),
    );
    idle = λ j k e.
        ground
          (arith, ends j, o.single j, o.idle j k, lookup-insert id j job jobs, text_beq_iff id j);
  }

  -- A new job, and one who has to do with it.
  pub Owned-new :
      (held' : Text → ℕ) (now : ℤ) (job : ReportJob)
      → ((j : Text) → held' j ≡ held j + (if env.format_id now (suc seq) == j then 1 else 0))
      → job.report_dir ≡ []
      → Owned env held seq jobs
      → Owned env held' (suc seq) (insert (env.format_id now (suc seq)) job jobs)
  Owned-new held' now job starts blank o =
      let id = env.format_id now (suc seq) in
      record {
        single =
            λ j. ground (arith, starts j, o.single j, o.unused now (suc seq), text_beq_iff id j);
        unused = λ t n h. ground (
          arith,
          starts (env.format_id t n),
          o.unused t n,
          env.format_id-seq now t (suc seq) n,
          text_beq_iff id (env.format_id t n),
        );
        absent = λ t n h. ground (
          arith,
          lookup-insert id (env.format_id t n) job jobs,
          o.absent t n,
          env.format_id-seq now t (suc seq) n,
          text_beq_iff id (env.format_id t n),
        );
        idle = λ j k e.
            ground (arith, starts j, lookup-insert id j job jobs, o.idle j k, text_beq_iff id j);
      }
