-- ===== src/Task/Examples.antt =====
-- `task_create` in concrete surroundings.
use realtime_tests.Prelude.{true, false, [], ◌∷◌}
use realtime_tests.Time.{timespec}
use realtime_tests.Task.{TaskParams}
use realtime_tests.Task.Create.{Environment}

abbrev pub params : TaskParams
params = record {
  name = b'T' ∷ [];
  wcet = timespec 0 1000;
  period = timespec 1 0;
  deadline = timespec 1 0;
  t_0 = timespec 100 0;
  offset = timespec 0 500;
  job_statistics_overhead = timespec 0 100;
  finish_to_start_overhead = timespec 0 200;
  aperiodic = false;
  ringbuffer_size = 2;
  ringbuffer_disable_overrun = false;
}

abbrev all_right : Environment
all_right = record {
  stats_memory = true;
  task_memory = true;
  name_memory = true;
  path_memory = true;
  log_opens = true;
  ring_memory = (true, true);
  log_writes = true;
}
