-- ===== src/Cpu/Examples.antt =====
-- utility_cpu.c on concrete files and measurements.
use realtime_tests.Prelude.{
  ℕ, ◌+◌, ◌-◌, ◌≤◌, ◌≡◌, refl, true, List, [], ◌∷◌, ◌++◌, sub_long, ltb, leb, long_mod, arith,
}
use realtime_tests.Prelude.Int.{ℤ, pos}
use realtime_tests.Time.{timespec, to_ns}
use realtime_tests.File.{newline}
use realtime_tests.Sched.Fifo.{is_ok}
use realtime_tests.Cpu.{keyword}
use realtime_tests.Cpu.Busyloop.{
  Double, CpuBusyloop, busyloop_search, create_cpu_busyloop, busyloop_search_thread,
}
use realtime_tests.Cpu.Search.{is_found, search_of, create_cpu_busyloop_lem}

abbrev cpuinfo : List ℕ
cpuinfo = keyword ++ (9 ∷ b':' ∷ b' ' ∷ b'0' ∷ newline ∷ keyword) ++ (9 ∷ b':' ∷ b' ' ∷ b'1' ∷ [])

-- One frequency, and no space behind it.
abbrev one_freq : List ℕ
one_freq = b'8' ∷ b'0' ∷ b'0' ∷ []

-- Times as whole nanoseconds above a large zero.
abbrev nanoseconds : Double
nanoseconds = record {
  D = ℕ;
  nought = 1000000000000;
  lt = ltb;
  le = leb;
  minus = λ a b. 1000000000000 + a - b;
  negate = λ a. 2000000000000 - a;
  to_sec = λ t. 1000000000000 + to_ns t;
  loops_in = λ freq t. t - 1000000000000;
}

-- A round takes two nanoseconds more than it should.
abbrev measure : ℕ → ℕ → ℕ × ℕ
measure n w = (1000000000002 + n, w + 1)

abbrev steady : ℕ → ℤ × ℕ
steady w = (pos 0, w)

abbrev object : CpuBusyloop
object = record { which_cpu = 0; frequency = 7; loop_count = 498; duration = timespec 0 500 }

create_cpu_busyloop_lem_example :
    (is_ok (steady 0).0 ≡ true)
    × (is_ok (steady 0).0 ≡ true)
    × ((search_of nanoseconds long_mod measure steady steady 7
          (timespec 0 500)
          (timespec 0 1)
          10
          0).made
        ≤ 10)
    × (object.duration ≡ timespec 0 500)
    × (object.frequency ≡ 7)
    × (object.loop_count
        ≡ (search_of nanoseconds long_mod measure steady steady 7
            (timespec 0 500)
            (timespec 0 1)
            10
            0).loop_count)
    × (is_found nanoseconds long_mod measure 1000000000500 1000000000001 10 (
          search_of nanoseconds long_mod measure steady steady 7
            (timespec 0 500)
            (timespec 0 1)
            10
            0)
        ≡ true)
unfolding create_cpu_busyloop busyloop_search_thread busyloop_search sub_long
create_cpu_busyloop_lem_example =
    create_cpu_busyloop_lem nanoseconds long_mod measure steady steady true true true 0 7
      (timespec 0 500) (timespec 0 1) 10 0 object (omega arith) refl
