-- ===== src/Report/Jobs.antt =====
-- read_task_stats_file.c: the callbacks, and the program over a log that is open.
use realtime_tests.Prelude.{
  ℕ, zero, ◌+◌, ◌*◌, ◌%◌, ◌^◌, Bool, true, false, not, List, [], ◌∷◌, ◌++◌, if◌then◌else◌, add_long,
  sub_long, long_mod,
}
use realtime_tests.Prelude.Int.{pos}
use realtime_tests.Time.{Timespec, timespec, UtilityTime, zeroed, plus, minus, utility_time_lt}
use realtime_tests.Time.Exact.{times}
use realtime_tests.Job.{JobStatistics}
use realtime_tests.File.{InStream}
use realtime_tests.Task.Reading.{TaskInfo, Result, returned, task_statistics_read}
use realtime_tests.Report.{Bin, CdfFormat, Printed, insert_response_time, print_response_time_cdf}

-- A time in a variable, and the calls on such times.
abbrev pub variable : Timespec → UtilityTime
variable t = record zeroed { t = t }

abbrev pub is_before : Timespec → Timespec → Bool
is_before a b = utility_time_lt (variable a) (variable b)

abbrev pub difference : Timespec → Timespec → Timespec
difference a b = minus (variable a) (variable b)

-- A printed difference: the sign `+` if the second time is later, and how much.
pub record Signed : Type 0 where
  pub later : Bool
  pub amount : Timespec

abbrev pub signed : Timespec → Timespec → Signed
signed from to =
    if is_before from to
    then record { later = true; amount = difference to from }
    else record { later = false; amount = difference from to }

pub record Row : Type 0 where
  pub job : ℕ
  pub release : Timespec
  pub delta_s : Signed
  pub start : Timespec
  pub deadline : Timespec
  pub delta_f : Signed
  pub finish : Timespec
  pub exec_time : Timespec
  pub response_time : Timespec
  pub is_late : Bool

-- What is printed: the parameters of the task, the titles of the columns, and the jobs.
pub data Entry : Type 0 where
  parameters : TaskInfo → Entry
  titles : Entry
  row : Row → Entry

-- `struct task_stats`
pub record TaskStats : Type 0 where
  pub report : List Entry
  pub period : Timespec
  pub deadline : Timespec
  pub t_0 : Timespec
  pub offset : Timespec
  pub nth_job : ℕ
  pub total_job_count : ℕ
  pub late_count : ℕ
  pub suppress_printout : Bool
  pub first_time : Bool
  pub response_times : List Bin

unfoldable pub print_task_stats : TaskInfo → TaskStats → Bool × TaskStats
print_task_stats tau prms =
    let report' =
      (if not prms.suppress_printout then prms.report ++ (parameters tau ∷ []) else prms.report) in
    (
      false,
      record prms {
        report = report';
        period = tau.period;
        deadline = tau.deadline;
        t_0 = tau.t_0;
        offset = tau.offset;
        nth_job = tau.oldest_job_pos;
      },
    )

-- The times that `print_job_stats` computes. The factor of `utility_time_mul_dyn` is an `unsigned`.
unfoldable pub row_of : JobStatistics → TaskStats → Row
unfolding plus minus
row_of stats prms =
    let release =
      plus prms.offset (times (sub_long prms.nth_job 1 % 2 ^ 32) (timespec 0 0) prms.period) in
    let start = difference stats.t_begin prms.t_0 in
    let deadline = plus release prms.deadline in
    let finish = difference stats.t_end prms.t_0 in
    record {
      job = prms.nth_job;
      release = release;
      delta_s = signed release start;
      start = start;
      deadline = deadline;
      delta_f = signed deadline finish;
      finish = finish;
      exec_time = difference finish start;
      response_time = difference finish release;
      is_late = is_before deadline finish;
    }

abbrev pub printed_row : Bool → Row → List Entry
printed_row first_time r = if first_time then titles ∷ row r ∷ [] else row r ∷ []

-- `has_memory` tells whether there is memory for an item of the histogram.
unfoldable pub print_job_stats : Bool → JobStatistics → TaskStats → Bool × TaskStats
print_job_stats has_memory stats prms =
    let r = row_of stats prms in
    let report' =
      (if not prms.suppress_printout
        then prms.report ++ printed_row prms.first_time r
        else prms.report) in
    let ns = (r.response_time.tv_sec * 1000000000 + r.response_time.tv_nsec) % long_mod in
    (
      false,
      record prms {
        report = report';
        first_time = (if not prms.suppress_printout then false else prms.first_time);
        late_count = (if r.is_late then (prms.late_count + 1) % 2 ^ 32 else prms.late_count);
        response_times = insert_response_time has_memory ns prms.response_times;
        nth_job = add_long prms.nth_job 1;
        total_job_count = add_long prms.total_job_count 1;
      },
    )

-- The `stats_prms` of `main`; the member that it does not set is zero.
abbrev pub start_stats : Bool → TaskStats
start_stats suppress_printout = record {
  report = [];
  period = timespec 0 0;
  deadline = timespec 0 0;
  t_0 = timespec 0 0;
  offset = timespec 0 0;
  nth_job = 0;
  total_job_count = 0;
  late_count = 0;
  suppress_printout = suppress_printout;
  first_time = true;
  response_times = [];
}

abbrev pub is_suppressed : CdfFormat → Bool
is_suppressed CdfFormat.no_cdf = false
is_suppressed CdfFormat.gnuplot = true
is_suppressed CdfFormat.matlab = true

-- How the program ends on a log that is open: with what it prints, or with a fatal error.
pub data Report : Type 0 where
  printed : List Entry → Printed → Report
  fatal : Report

unfoldable pub print_report :
    {has_memory : ℕ → Bool} {found : List ℕ} {task_fn : TaskInfo → TaskStats → Bool × TaskStats}
    {job_fn : JobStatistics → TaskStats → Bool × TaskStats}
    → CdfFormat
    → Result has_memory found task_fn job_fn
    → Report
print_report cdf_fmt (returned (pos zero) st) =
    printed st.report (print_response_time_cdf st.response_times st.total_job_count cdf_fmt)
print_report cdf_fmt r = fatal

-- The part of `main` behind the options, with memory for the names and the items.
unfoldable pub report : ℕ → List ℕ → CdfFormat → InStream → Report
report fuel found cdf_fmt log = print_report cdf_fmt (
    task_statistics_read (λ size. true) found print_task_stats (print_job_stats true) fuel log
      (start_stats (is_suppressed cdf_fmt)))
