-- ===== src/Report/Examples.antt =====
-- read_task_stats_file.c at concrete histograms and jobs.
use realtime_tests.Prelude.{
  ℕ, ◌+◌, ◌-◌, ◌/◌, ◌<◌, ◌≡◌, ◌↔◌, refl, Bool, true, false, List, [], ◌∷◌, ◌==◌, if◌then◌else◌,
  arith,
}
use realtime_tests.Time.{timespec, to_ns}
use realtime_tests.Job.{JobStatistics}
use realtime_tests.Task.Reading.{TaskInfo}
use realtime_tests.Report.{
  Bin, insert_response_time, print_response_time_cdf, gnuplot, matlab, no_cdf, columns, vectors,
  nothing,
}
use realtime_tests.Report.Histogram.{increases_from, jobs_in, count_at, insert_response_time_lem}
use realtime_tests.Report.Distribution.{distribution, print_response_time_cdf_lem}
use realtime_tests.Report.Jobs.{TaskStats, row_of, start_stats}
use realtime_tests.Report.Exact.{release_ns, row_of_exact}

abbrev bins : List Bin
bins =
    record { job_count = 2; response_time = 3 } ∷ record { job_count = 1; response_time = 7 } ∷ []

-- 6.5 milliseconds are rounded into the second item.
insert_response_time_test :
    insert_response_time true 6500 bins
    ≡ record { job_count = 2; response_time = 3 } ∷ record { job_count = 2; response_time = 7 } ∷ []
unfolding insert_response_time
insert_response_time_test = refl

insert_response_time_lem_example :
    ((has_memory : Bool) → increases_from 0 (insert_response_time has_memory 4700 bins) ≡ true)
    × ((u : ℕ)
        → (count_at u (insert_response_time true 4700 bins)
            ≡ count_at u bins + (if (4700 + 500) / 1000 == u then 1 else 0)))
    × (jobs_in (insert_response_time true 4700 bins) ≡ 4)
insert_response_time_lem_example = insert_response_time_lem 4700 bins refl (omega arith)

print_response_time_cdf_lem_example :
    (print_response_time_cdf bins 3 gnuplot ≡ columns (distribution bins bins 3))
    × (print_response_time_cdf bins 3 matlab ≡ vectors (3 ∷ 7 ∷ []) (distribution bins bins 3))
    × (print_response_time_cdf bins 3 no_cdf ≡ nothing)
print_response_time_cdf_lem_example =
    print_response_time_cdf_lem bins 3 refl (omega arith) (omega arith) (omega arith)

-- The third job of a task with a period of one second, a little late.
abbrev third : TaskStats
third = record (start_stats false) {
  period = timespec 1 0;
  deadline = timespec 0 500000000;
  t_0 = timespec 100 0;
  offset = timespec 0 1000;
  nth_job = 3;
}

abbrev late_job : JobStatistics
late_job = record { t_begin = timespec 102 2000; t_end = timespec 102 900000000 }

row_of_exact_example :
    (to_ns ((row_of late_job third).release) ≡ release_ns third)
    × (to_ns ((row_of late_job third).start) ≡ to_ns (timespec 102 2000) - to_ns (timespec 100 0))
    × (to_ns ((row_of late_job third).finish)
        ≡ to_ns (timespec 102 900000000) - to_ns (timespec 100 0))
    × (to_ns ((row_of late_job third).deadline) ≡ release_ns third + 500000000)
    × ((row_of late_job third).is_late ≡ true
        ↔ (release_ns third + 500000000 < to_ns (timespec 102 900000000) - to_ns (timespec 100 0)))
    × (to_ns ((row_of late_job third).response_time)
        ≡ to_ns (timespec 102 900000000) - to_ns (timespec 100 0) - release_ns third)
    × (to_ns ((row_of late_job third).exec_time)
        ≡ to_ns (timespec 102 900000000)
          - to_ns (timespec 100 0)
          - (to_ns (timespec 102 2000) - to_ns (timespec 100 0)))
row_of_exact_example = row_of_exact late_job third (record {
  t_begin = record { sec = omega arith; nsec = omega arith };
  t_end = record { sec = omega arith; nsec = omega arith };
  period = record { sec = omega arith; nsec = omega arith };
  relative = record { sec = omega arith; nsec = omega arith };
  t_0 = record { sec = omega arith; nsec = omega arith };
  offset = record { sec = omega arith; nsec = omega arith };
  numbered = omega arith;
  few = omega arith;
  fits = omega arith;
})

abbrev tau : TaskInfo
tau = record {
  name = b'T' ∷ [];
  wcet = timespec 0 1000;
  period = timespec 1 0;
  deadline = timespec 0 500000000;
  t_0 = timespec 100 0;
  offset = timespec 0 1000;
  job_statistics_overhead = timespec 0 100;
  finish_to_start_overhead = timespec 0 200;
  aperiodic = 0;
  disable_job_statistics = 0;
  oldest_job_pos = 3;
  lost_job_count = 2;
  write_count = 3;
}
