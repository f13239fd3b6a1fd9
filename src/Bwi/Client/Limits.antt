-- ===== src/Bwi/Client/Limits.antt =====
-- bwi-client_server/client.c: the options -r and -l, and the jobs that they trace.
use realtime_tests.Prelude.{
  ℕ, zero, suc, ◌+◌, ◌-◌, ◌<◌, ◌≤◌, ◌≡◌, ◌==◌, ltb, ◌&&◌, ◌||◌, refl, Bool, false, true, Option,
  none, some, List, [], if◌then◌else◌, int_half, arith,
}
use realtime_tests.Prelude.Int.{ℤ, pos, negsuc, pos_part, neg_part, sub_ℕ, leb_ℤ, is_minus_one}
use realtime_tests.Time.{Timespec}
use realtime_tests.Bwi.{Io}
use realtime_tests.Bwi.Client.{ClientProgPrms, Client, run}
use realtime_tests.Bwi.Client.Traced.{IsReliable, is_reached, trace_of, run-trace_of}

abbrev pub minus_one : ℤ
minus_one = negsuc 0

-- The argument of -l; `none` is a fatal error.
abbrev pub limit_option : ℤ → Option ℤ
limit_option limit = if leb_ℤ limit (pos 0) then none else some limit

-- What `response_time_limit_ms` and `iteration_limit` become for `ftrace_iteration` and `limit`,
-- where the sum is in the range of an `int`; `none` is a fatal error.
unfoldable pub tracing_limits : ℤ → ℤ → Option (ℤ × ℤ)
tracing_limits (pos zero) limit = if is_minus_one limit then none else some (limit, minus_one)
tracing_limits (pos (suc n)) limit = some (
  minus_one,
  (if is_minus_one limit then pos (suc n) else sub_ℕ (suc n + pos_part limit) (neg_part limit + 1)),
)
tracing_limits (negsuc zero) limit =
    if is_minus_one limit then some (minus_one, minus_one) else none
tracing_limits (negsuc (suc n)) limit = some (minus_one, minus_one)

-- The last job that is traced from the job `first` on.
abbrev pub last_job : ℕ → ℤ → ℕ
last_job first (pos m) = first + m - 1
last_job first (negsuc m) = first

tracing_limits-last_job :
    (first : ℕ) (limit : ℤ)
    → 0 < first
    → (if is_minus_one limit then some limit else limit_option limit) ≡ some limit
    → (tracing_limits (pos first) limit ≡ some (minus_one, pos (last_job first limit)))
      × (first ≤ last_job first limit)
unfolding tracing_limits
tracing_limits-last_job zero limit some_job e = absurd (omega arith)
tracing_limits-last_job (suc n) (pos m) some_job e = (ground arith, ground arith)
tracing_limits-last_job (suc n) (negsuc zero) some_job e = (refl, omega arith)
tracing_limits-last_job (suc n) (negsuc (suc m)) some_job e = absurd (ground arith)

module _ {W : Type 0} (eintr : ℕ) (send : List ℕ → W → Io ℕ × W) (recv : ℕ → W → Io (List ℕ) × W)
    (bwi revoke : W → Bool × W) (prologue epilogue : W → W) (clock : W → Timespec × W) where
  -- Where the socket and the kernel fail by interruption only, and -r names a job `first` other
  -- than 0, with or without an accepted -l whose sum with it is an `int`: a client that starts
  -- afresh comes to the end of up to `n` jobs, for any `n` of an `int`, without a fatal error. It
  -- has done `n` jobs, or fewer if the main thread has stopped it because it had sent SIGTERM,
  -- which it has done exactly if it has reached the job of -i, if any; and it was not stopped so
  -- behind any smaller number `k` of jobs. Nothing is written to the trace before the job `first`,
  -- exactly one 1 from it on, and one 0 from the last job on that is to be traced, which is `first`
  -- itself without -l, and the last one of as many jobs as -l says with it.
  pub client_traced :
      (prms : ClientProgPrms) (stops : ℕ → Bool) (first n k : ℕ) (limit : ℤ) (c : Client) (w : W)
      → IsReliable eintr send recv bwi revoke prologue epilogue clock
      → 0 < first
      → first + pos_part limit < int_half
      → (if is_minus_one limit then some limit else limit_option limit) ≡ some limit
      → prms.ftrace_iteration ≡ pos first
      → tracing_limits (pos first) limit ≡ some (minus_one, prms.ftrace_iteration_limit)
      → n < int_half
      → c.nth_iteration ≡ 0
      → c.ftrace_file ≡ []
      → c.terminated ≡ false
      → (c' : Client) × (w' : W) × (run eintr send recv bwi revoke prologue epilogue clock prms
            stops n c w
          ≡ some (c', w'))
        × (c'.nth_iteration ≤ n)
        × (c'.nth_iteration == n || (c'.terminated && stops c'.nth_iteration) ≡ true)
        × (ltb k c'.nth_iteration && (is_reached prms.stopping_iteration k && stops k) ≡ false)
        × (c'.terminated ≡ is_reached prms.stopping_iteration c'.nth_iteration)
        × (c'.ftrace_file ≡ trace_of first (last_job first limit) c'.nth_iteration)
  client_traced prms stops first n k limit c w r some_job small accepted f l int fresh empty going =
      let (e, order) = tracing_limits-last_job first limit some_job accepted in
      run-trace_of eintr send recv bwi revoke prologue epilogue clock prms stops first
        (last_job first limit) n k c w r f (ground (arith, e, l)) some_job order int fresh empty
        going
