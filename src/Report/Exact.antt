-- ===== src/Report/Exact.antt =====
-- read_task_stats_file.c: the rows of the report, measured in nanoseconds, and its counts.
use realtime_tests.Prelude.{
  ℕ, ◌+◌, ◌-◌, ◌*◌, ◌%◌, ◌^◌, ◌<◌, ◌≤◌, ◌≡◌, ◌↔◌, refl, Bool, true, List, [], ◌∷◌, length, add_long,
  sub_long, long_half, long_mod, arith,
}
use realtime_tests.Prelude.Int.{pos}
use realtime_tests.Time.{Timespec, timespec, billion, IsNormal, to_ns}
use realtime_tests.Time.Exact.{times, times_exact, plus_exact, minus_exact, comparisons_exact}
use realtime_tests.Job.{JobStatistics}
use realtime_tests.Task.Reading.{TaskInfo, returned}
use realtime_tests.Task.RoundTrip.{present, present_jobs}
use realtime_tests.Report.Histogram.{increases_from, jobs_in, insert_response_time_lem}
use realtime_tests.Report.Jobs.{
  variable, difference, TaskStats, row_of, print_task_stats, print_job_stats, start_stats,
}

-- All the times are proper, the job is a numbered one, and its deadline fits.
pub record IsSane (stats : JobStatistics) (prms : TaskStats) : Type 0 where
  pub t_begin : IsNormal stats.t_begin
  pub t_end : IsNormal stats.t_end
  pub period : IsNormal prms.period
  pub relative : IsNormal prms.deadline
  pub t_0 : IsNormal prms.t_0
  pub offset : IsNormal prms.offset
  pub numbered : 0 < prms.nth_job
  pub few : prms.nth_job ≤ 2 ^ 32
  pub fits :
      to_ns prms.offset + (prms.nth_job - 1) * to_ns prms.period + to_ns prms.deadline
      < long_half * billion

-- When the job was to be released, in nanoseconds from the start of the task.
abbrev pub release_ns : TaskStats → ℕ
release_ns prms = to_ns prms.offset + (prms.nth_job - 1) * to_ns prms.period

difference_exact :
    (a b : Timespec)
    → IsNormal a
    → IsNormal b
    → (to_ns (difference a b) ≡ to_ns a - to_ns b) × IsNormal (difference a b)
difference_exact a b na nb = minus_exact (variable a) (variable b) na nb

zero_IsNormal : IsNormal (timespec 0 0)
zero_IsNormal = record { sec = omega arith; nsec = omega arith }

before_job : (nth : ℕ) → 0 < nth → nth ≤ 2 ^ 32 → sub_long nth 1 % 2 ^ 32 ≡ nth - 1
unfolding sub_long
before_job nth some few = omega arith

release_exact :
    (stats : JobStatistics) (prms : TaskStats)
    → IsSane stats prms
    → (to_ns ((row_of stats prms).release) ≡ release_ns prms)
      × IsNormal ((row_of stats prms).release)
unfolding row_of
release_exact stats prms sane =
    let n = prms.nth_job - 1 in
    let (e, normal) =
      times_exact n (timespec 0 0) prms.period zero_IsNormal sane.period
        (omega (arith, sane.fits)) in
    let (e', normal') =
      plus_exact prms.offset (times n (timespec 0 0) prms.period) sane.offset normal
        (omega (arith, e, sane.fits)) in
    rw (before_job prms.nth_job sane.numbered sane.few) (omega (arith, e, e'), normal')

-- The row of a job whose times are proper, whose number is between 1 and 2^32, and whose deadline
-- fits, in nanoseconds from the start of the task: the n-th job is to be released at the offset
-- plus n - 1 periods and to end at its deadline after that; it is marked late exactly if it
-- finished behind that; the times at which it started and finished, its response time and its
-- execution time are the differences, or 0 where they are negative.
pub row_of_exact :
    (stats : JobStatistics) (prms : TaskStats)
    → IsSane stats prms
    → (to_ns ((row_of stats prms).release) ≡ release_ns prms)
      × (to_ns ((row_of stats prms).start) ≡ to_ns stats.t_begin - to_ns prms.t_0)
      × (to_ns ((row_of stats prms).finish) ≡ to_ns stats.t_end - to_ns prms.t_0)
      × (to_ns ((row_of stats prms).deadline) ≡ release_ns prms + to_ns prms.deadline)
      × ((row_of stats prms).is_late ≡ true
          ↔ (release_ns prms + to_ns prms.deadline < to_ns stats.t_end - to_ns prms.t_0))
      × (to_ns ((row_of stats prms).response_time)
          ≡ to_ns stats.t_end - to_ns prms.t_0 - release_ns prms)
      × (to_ns ((row_of stats prms).exec_time)
          ≡ to_ns stats.t_end - to_ns prms.t_0 - (to_ns stats.t_begin - to_ns prms.t_0))
unfolding row_of
row_of_exact stats prms sane =
    let r = row_of stats prms in
    let (release, release_normal) = release_exact stats prms sane in
    let (start, start_normal) = difference_exact stats.t_begin prms.t_0 sane.t_begin sane.t_0 in
    let (finish, finish_normal) = difference_exact stats.t_end prms.t_0 sane.t_end sane.t_0 in
    let (deadline, deadline_normal) =
      plus_exact r.release prms.deadline release_normal sane.relative
        (omega (arith, release, sane.fits)) in
    let late =
      (comparisons_exact (variable r.deadline) (variable r.finish) deadline_normal
        finish_normal).1 in
    (
      release,
      start,
      finish,
      omega (arith, deadline, release),
      (
        λ h. omega (arith, late.0 h, deadline, release, finish),
        λ h. late.1 (omega (arith, h, deadline, release, finish)),
      ),
      omega (
        arith,
        (difference_exact r.finish r.release finish_normal release_normal).0,
        finish,
        release,
      ),
      omega
          (arith, (difference_exact r.finish r.start finish_normal start_normal).0, finish, start),
    )

-- What the callback leaves after some jobs: it counted each of them.
record Counts (n : ℕ) (st : TaskStats) : Type 0 where
  total : st.total_job_count ≡ n
  jobs : jobs_in st.response_times ≡ n
  ordered : increases_from 0 st.response_times ≡ true

print_job_stats-Counts :
    (j : JobStatistics) (n : ℕ) (st : TaskStats)
    → Counts n st
    → n + 1 < 2 ^ 32
    → Counts (n + 1) (print_job_stats true j st).1
unfolding print_job_stats add_long
print_job_stats-Counts j n st c small =
    let r = row_of j st in
    let ns = (r.response_time.tv_sec * 1000000000 + r.response_time.tv_nsec) % long_mod in
    let inserted =
      insert_response_time_lem ns st.response_times c.ordered (omega (arith, c.jobs)) in
    record {
      total = omega (arith, c.total);
      jobs = omega (arith, inserted.2, c.jobs);
      ordered = inserted.0 true;
    }

module _ (has_memory : ℕ → Bool) (found : List ℕ) where
  -- The rows of the jobs in turn.
  abbrev after : List JobStatistics → TaskStats → TaskStats
  after [] st = st
  after (j ∷ js) st = after js (print_job_stats true j st).1

  present_jobs-after :
      (jobs : List JobStatistics) (st : TaskStats)
      → present_jobs has_memory found print_task_stats (print_job_stats true) jobs st
        ≡ returned (pos 0) (after jobs st)
  unfolding present_jobs print_job_stats
  present_jobs-after [] st = refl
  present_jobs-after (j ∷ js) st = present_jobs-after js (print_job_stats true j st).1

  after-Counts :
      (jobs : List JobStatistics) (n : ℕ) (st : TaskStats)
      → Counts n st
      → n + length jobs < 2 ^ 32
      → Counts (n + length jobs) (after jobs st)
  after-Counts [] n st c small = record {
    total = omega (arith, c.total);
    jobs = omega (arith, c.jobs);
    ordered = c.ordered;
  }
  after-Counts (j ∷ js) n st c small =
      let next =
        after-Counts js (n + 1) (print_job_stats true j st).1
          (print_job_stats-Counts j n st c (omega arith)) (omega arith) in
      record {
        total = omega (arith, next.total);
        jobs = omega (arith, next.jobs);
        ordered = next.ordered;
      }

  -- Shown a task and fewer than 2^32 jobs of it, with memory for the histogram, the callbacks of
  -- the program never stop the reading; at its end the number of jobs counted is that of the
  -- jobs, and the histogram is ordered and holds exactly as many.
  pub present_counts :
      (tau : TaskInfo) (jobs : List JobStatistics) (suppress : Bool)
      → length jobs < 2 ^ 32
      → (st : TaskStats) × (present has_memory found print_task_stats
            (print_job_stats true)
            tau
            jobs
            (start_stats suppress)
          ≡ returned (pos 0) st)
        × (st.total_job_count ≡ length jobs)
        × (jobs_in st.response_times ≡ length jobs)
        × (increases_from 0 st.response_times ≡ true)
  unfolding present print_task_stats
  present_counts tau jobs suppress small =
      let st0 = (print_task_stats tau (start_stats suppress)).1 in
      let c =
        after-Counts jobs 0 st0 (record { total = refl; jobs = refl; ordered = refl })
          (omega arith) in
      (
        after jobs st0,
        present_jobs-after jobs st0,
        omega (arith, c.total),
        omega (arith, c.jobs),
        c.ordered,
      )
