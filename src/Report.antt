-- ===== src/Report.antt =====
-- read_task_stats_file.c: the report of a task's log, and the distribution of its response times.
pub mod Histogram
pub mod Distribution
pub mod Jobs
pub mod Exact
mod Examples
use realtime_tests.Prelude.{
  ℕ, ◌+◌, ◌*◌, ◌/◌, ◌%◌, ◌^◌, Bool, true, false, Option, none, some, List, [], ◌∷◌, ◌==◌, ltb, leb,
  if◌then◌else◌,
}

-- One item of a `response_time_list`; the links are those of a List.
pub record Bin : Type 0 where
  pub job_count : ℕ
  pub response_time : ℕ

-- `new_response_time_list`: the item alone, or NULL without memory.
abbrev pub new_response_time_list : Bool → ℕ → List Bin
new_response_time_list has_memory t =
    if has_memory then record { job_count = 1; response_time = t } ∷ [] else []

-- The unit becomes the microsecond, rounded.
unfoldable pub to_microseconds : ℕ → ℕ
to_microseconds t = if leb 500 (t % 1000) then t / 1000 + 1 else t / 1000

-- The search for the place, and the insertion. Without memory the list stays as it is, also at
-- its end, where the link is set to the NULL that it was.
unfoldable pub insert_microseconds : Bool → ℕ → List Bin → List Bin
insert_microseconds has_memory t [] = new_response_time_list has_memory t
insert_microseconds has_memory t (b ∷ bs) =
    let rest = insert_microseconds has_memory t bs in
    if b.response_time == t
    then record b { job_count = (b.job_count + 1) % 2 ^ 32 } ∷ bs
    else if ltb t b.response_time
    then if has_memory then record { job_count = 1; response_time = t } ∷ b ∷ bs else b ∷ bs
    else b ∷ rest

unfoldable pub insert_response_time : Bool → ℕ → List Bin → List Bin
unfolding to_microseconds insert_microseconds
insert_response_time has_memory t bins = insert_microseconds has_memory (to_microseconds t) bins

-- A line of the distribution: a response time, and its probability as a fraction. The decimals
-- of the fraction are the library's to print.
pub record Line : Type 0 where
  pub response_time : ℕ
  pub jobs : ℕ
  pub of_total : ℕ

-- The loops of `print_gnuplot_cdf`, and of `print_matlab_cdf` over its fractions.
unfoldable pub cumulate : ℕ → ℕ → List Bin → List Line
cumulate cumulative_job_count total [] = []
cumulate cumulative_job_count total (b ∷ bs) =
    let jobs = (cumulative_job_count + b.job_count) % 2 ^ 32 in
    record { response_time = b.response_time; jobs = jobs; of_total = total }
    ∷ cumulate jobs total bs

pub data CdfFormat : Type 0 where
  no_cdf gnuplot matlab : CdfFormat

-- What the report holds of the distribution: two columns, or two vectors.
pub data Printed : Type 0 where
  nothing : Printed
  columns : List Line → Printed
  vectors : List ℕ → List Line → Printed

abbrev pub response_times : List Bin → List ℕ
response_times [] = []
response_times (b ∷ bs) = b.response_time ∷ response_times bs

-- `total_job_count` is passed as an `unsigned`.
unfoldable pub print_response_time_cdf : List Bin → ℕ → CdfFormat → Printed
print_response_time_cdf bins total_job_count cdf_fmt =
    let total = total_job_count % 2 ^ 32 in
    if total == 0 then nothing else elim cdf_fmt [
      | gnuplot ↦ columns (cumulate 0 total bins)
      | matlab ↦ vectors (response_times bins) (cumulate 0 total bins)
      | no_cdf ↦ nothing
    ]
