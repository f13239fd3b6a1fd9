-- ===== src/Report/Distribution.antt =====
-- read_task_stats_file.c: the printed distribution is the cumulative one.
use realtime_tests.Prelude.{
  ℕ, ◌+◌, ◌%◌, ◌^◌, ◌<◌, ◌≤◌, ◌≡◌, refl, true, List, [], ◌∷◌, leb, if◌then◌else◌, arith,
}
use realtime_tests.Report.{
  Bin, Line, cumulate, response_times, gnuplot, matlab, no_cdf, nothing, columns, vectors,
  print_response_time_cdf,
}
use realtime_tests.Report.Histogram.{increases_from, jobs_in}

-- The jobs with a response time of at most `t`.
abbrev pub jobs_up_to : ℕ → List Bin → ℕ
jobs_up_to t [] = 0
jobs_up_to t (b ∷ bs) =
    if leb b.response_time t then b.job_count + jobs_up_to t bs else jobs_up_to t bs

-- The numbers that the distribution of a histogram has to show.
abbrev pub distribution : List Bin → List Bin → ℕ → List Line
distribution whole [] total = []
distribution whole (b ∷ bs) total =
    record {
      response_time = b.response_time;
      jobs = jobs_up_to b.response_time whole;
      of_total = total;
    }
    ∷ distribution whole bs total

jobs_up_to_below :
    (t low : ℕ) (bins : List Bin) → increases_from low bins ≡ true → t < low → jobs_up_to t bins ≡ 0
jobs_up_to_below t low [] h lt = refl
jobs_up_to_below t low (b ∷ bs) h lt = ground (arith, jobs_up_to_below t (b.response_time + 1) bs)

cumulate-distribution :
    (whole : List Bin) (total acc low : ℕ) (bins : List Bin)
    → increases_from low bins ≡ true
    → acc + jobs_in bins < 2 ^ 32
    → ((t : ℕ) → low ≤ t → jobs_up_to t whole ≡ acc + jobs_up_to t bins)
    → cumulate acc total bins ≡ distribution whole bins total
unfolding cumulate
cumulate-distribution whole total acc low [] h small up = refl
cumulate-distribution whole total acc low (b ∷ bs) h small up =
    let jobs : (acc + b.job_count) % 2 ^ 32 ≡ jobs_up_to b.response_time whole =
      ground
        (arith, up b.response_time, jobs_up_to_below b.response_time (b.response_time + 1) bs) in
    let rest : cumulate ((acc + b.job_count) % 2 ^ 32) total bs ≡ distribution whole bs total =
      cumulate-distribution whole total ((acc + b.job_count) % 2 ^ 32) (b.response_time + 1) bs
        (ground arith) (omega arith) (λ t le. ground (arith, up t)) in
    λ i. record { response_time = b.response_time; jobs = jobs i; of_total = total } ∷ rest i

-- For an ordered histogram of fewer than 2^32 jobs and a total between 1 and 2^32 - 1, both
-- printed formats show at each response time, in ascending order, exactly the number of jobs that
-- responded within it; without a format nothing is printed.
pub print_response_time_cdf_lem :
    (bins : List Bin) (total : ℕ)
    → increases_from 0 bins ≡ true
    → jobs_in bins < 2 ^ 32
    → 0 < total
    → total < 2 ^ 32
    → (print_response_time_cdf bins total gnuplot ≡ columns (distribution bins bins total))
      × (print_response_time_cdf bins total matlab
          ≡ vectors (response_times bins) (distribution bins bins total))
      × (print_response_time_cdf bins total no_cdf ≡ nothing)
unfolding print_response_time_cdf
print_response_time_cdf_lem bins total h small some_jobs fits =
    let e : cumulate 0 total bins ≡ distribution bins bins total =
      cumulate-distribution bins total 0 0 bins h (omega arith) (λ t le. omega arith) in
    (ground (arith, e), ground (arith, e), ground arith)
