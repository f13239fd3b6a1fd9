-- ===== src/Bwi/Client/Examples.antt =====
-- The client on a server that echoes.
use realtime_tests.Prelude.{
  ℕ, ◌+◌, ◌≤◌, ◌≡◌, ◌==◌, ◌&&◌, ◌||◌, ltb, refl, Bool, true, false, some, List, [], ◌∷◌, length,
  arith,
}
use realtime_tests.Prelude.Int.{pos}
use realtime_tests.Time.{Timespec, timespec}
use realtime_tests.Bwi.{Io, done}
use realtime_tests.Bwi.Client.{ClientProgPrms, Client, run}
use realtime_tests.Bwi.Client.Traced.{is_reached, trace_of}
use realtime_tests.Bwi.Client.Limits.{tracing_limits, client_traced}

abbrev request : List ℕ
request = b'p' ∷ b'q' ∷ []

-- A world that counts what is done in it.
abbrev send : List ℕ → ℕ → Io ℕ × ℕ
send bytes w = (done (length bytes), w + 1)

abbrev recv : ℕ → ℕ → Io (List ℕ) × ℕ
recv n w = (done request, w + 1)

abbrev ask : ℕ → Bool × ℕ
ask w = (true, w + 1)

abbrev busy : ℕ → ℕ
busy w = w + 1

abbrev clock : ℕ → Timespec × ℕ
clock w = (timespec w 0, w + 1)

abbrev prms : ClientProgPrms
prms = record {
  request = request;
  with_bwi = true;
  stopping_iteration = pos 3;
  ftrace_iteration = pos 2;
  ftrace_iteration_limit = pos 3;
  ftrace_response_time = timespec 0 0;
  period = timespec 1 0;
}

abbrev fresh : Client
fresh = record {
  nth_iteration = 0;
  next_release = timespec 1 0;
  ftrace_response_time_hit = 0;
  ftrace_file = [];
  terminated = false;
}

-- "-r 2 -l 2 -i 3", where the main thread stops the task one job late.
abbrev stops : ℕ → Bool
stops k = ltb 3 k

client_traced_example :
    (c : Client) × (w : ℕ) × (run 4 send recv ask ask busy busy clock prms stops 6 fresh 0
      ≡ some (c, w))
    × (c.nth_iteration ≤ 6)
    × (c.nth_iteration == 6 || (c.terminated && stops c.nth_iteration) ≡ true)
    × (ltb 4 c.nth_iteration && (is_reached (pos 3) 4 && stops 4) ≡ false)
    × (c.terminated ≡ is_reached (pos 3) c.nth_iteration)
    × (c.ftrace_file ≡ trace_of 2 3 c.nth_iteration)
unfolding tracing_limits
client_traced_example =
    client_traced 4 send recv ask ask busy busy clock prms stops 2 6 4 (pos 2) fresh 0
      (record {
        sends = λ bytes w. refl;
        receives = λ n w. refl;
        inherits = λ w. refl;
        revokes = λ w. refl;
      })
      (omega arith) (omega arith) refl refl refl (omega arith) refl refl refl
