-- ===== src/Report/Histogram.antt =====
-- read_task_stats_file.c: `insert_response_time` keeps an ordered histogram.
use realtime_tests.Prelude.{
  ℕ, ◌+◌, ◌/◌, ◌^◌, ◌<◌, ◌≤◌, ◌≡◌, refl, Bool, true, ◌&&◌, List, [], ◌∷◌, ◌==◌, leb, if◌then◌else◌,
  arith,
}
use realtime_tests.Report.{Bin, to_microseconds, insert_microseconds, insert_response_time}

-- The response times increase strictly, from `low` on.
abbrev pub increases_from : ℕ → List Bin → Bool
increases_from low [] = true
increases_from low (b ∷ bs) = leb low b.response_time && increases_from (b.response_time + 1) bs

-- All the jobs of a histogram, and those at one response time.
abbrev pub jobs_in : List Bin → ℕ
jobs_in [] = 0
jobs_in (b ∷ bs) = b.job_count + jobs_in bs

abbrev pub count_at : ℕ → List Bin → ℕ
count_at t [] = 0
count_at t (b ∷ bs) = if b.response_time == t then b.job_count else count_at t bs

increases_from-insert_microseconds :
    (has_memory : Bool) (t low : ℕ) (bins : List Bin)
    → low ≤ t
    → increases_from low bins ≡ true
    → increases_from low (insert_microseconds has_memory t bins) ≡ true
unfolding insert_microseconds
increases_from-insert_microseconds has_memory t low [] le h = ground arith
increases_from-insert_microseconds has_memory t low (b ∷ bs) le h =
    ground (arith, increases_from-insert_microseconds has_memory t (b.response_time + 1) bs)

count_at_below :
    (u low : ℕ) (bins : List Bin) → increases_from low bins ≡ true → u < low → count_at u bins ≡ 0
count_at_below u low [] h lt = refl
count_at_below u low (b ∷ bs) h lt = ground (arith, count_at_below u (b.response_time + 1) bs)

count_at-insert_microseconds :
    (t u low : ℕ) (bins : List Bin)
    → increases_from low bins ≡ true
    → jobs_in bins + 1 < 2 ^ 32
    → (count_at u (insert_microseconds true t bins) ≡ count_at u bins + (if t == u then 1 else 0))
unfolding insert_microseconds
count_at-insert_microseconds t u low [] h small = ground arith
count_at-insert_microseconds t u low (b ∷ bs) h small = ground (
  arith,
  count_at-insert_microseconds t u (b.response_time + 1) bs,
  count_at_below u (b.response_time + 1) bs,
)

jobs_in-insert_microseconds :
    (t : ℕ) (bins : List Bin)
    → jobs_in bins + 1 < 2 ^ 32
    → jobs_in (insert_microseconds true t bins) ≡ jobs_in bins + 1
unfolding insert_microseconds
jobs_in-insert_microseconds t [] small = ground arith
jobs_in-insert_microseconds t (b ∷ bs) small = ground (arith, jobs_in-insert_microseconds t bs)

-- With memory for an item, `insert_response_time` adds one job to an ordered histogram, which stays
-- ordered: at the response time rounded to microseconds the count grows by one, at every other it
-- stays. Without memory it stays ordered as well. No more than 2^32 - 2 jobs are in the histogram.
pub insert_response_time_lem :
    (t : ℕ) (bins : List Bin)
    → increases_from 0 bins ≡ true
    → jobs_in bins + 1 < 2 ^ 32
    → ((has_memory : Bool) → increases_from 0 (insert_response_time has_memory t bins) ≡ true)
      × ((u : ℕ)
          → (count_at u (insert_response_time true t bins)
              ≡ count_at u bins + (if (t + 500) / 1000 == u then 1 else 0)))
      × (jobs_in (insert_response_time true t bins) ≡ jobs_in bins + 1)
unfolding insert_response_time to_microseconds
insert_response_time_lem t bins h small =
    let round : to_microseconds t ≡ (t + 500) / 1000 = ground arith in
    (
      λ has_memory.
          increases_from-insert_microseconds has_memory (to_microseconds t) 0 bins (omega arith) h,
      λ u. ground (arith, count_at-insert_microseconds (to_microseconds t) u 0 bins h small, round),
      jobs_in-insert_microseconds (to_microseconds t) bins small,
    )
