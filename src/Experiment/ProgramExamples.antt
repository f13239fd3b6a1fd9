-- ===== src/Experiment/ProgramExamples.antt =====
-- The programs of priority_inversion_in_RM at concrete overheads.
use realtime_tests.Prelude.{ℕ, ◌+◌, ◌*◌, ◌≡◌, true, false, arith}
use realtime_tests.Time.{Timespec, timespec, to_ns, million}
use realtime_tests.Experiment.Programs.{
  tau_1_prog, tau_2_prog, tau_3_prog, wcet_1, wcet_2, wcet_3, length_of, asked_ns, busy_ns,
  IsWithin, leaves_locked, programs_lem,
}

abbrev job_stats_overhead : Timespec
job_stats_overhead = timespec 0 2000

abbrev task_overhead : Timespec
task_overhead = timespec 0 3000

-- Each run of a busy loop takes 20 us more than was asked for.
abbrev takes : ℕ → ℕ → ℕ
takes k d = to_ns (length_of job_stats_overhead task_overhead d) + 20000

programs_lem_example :
    (asked_ns job_stats_overhead task_overhead (tau_1_prog true true).1 + 15000 ≡ wcet_1 * million)
    × (asked_ns job_stats_overhead task_overhead tau_2_prog.1 + 5000 ≡ wcet_2 * million)
    × (asked_ns job_stats_overhead task_overhead (tau_3_prog true true).1 + 15000
        ≡ wcet_3 * million)
    × IsWithin 150000 (wcet_1 * million) (busy_ns takes (tau_1_prog true true).1 + 15000)
    × IsWithin 50000 (wcet_2 * million) (busy_ns takes tau_2_prog.1 + 5000)
    × IsWithin 150000 (wcet_3 * million) (busy_ns takes (tau_3_prog true true).1 + 15000)
    × (leaves_locked false (tau_1_prog true false).1 ≡ true)
    × (leaves_locked false (tau_3_prog true false).1 ≡ true)
    × ((tau_1_prog true false).0 ≡ false)
    × (tau_2_prog.0 ≡ true)
    × ((tau_3_prog true false).0 ≡ false)
programs_lem_example =
    programs_lem job_stats_overhead task_overhead takes true false (omega arith) (omega arith)
      (omega arith) (λ k d. (omega arith, omega arith))
