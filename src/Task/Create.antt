-- ===== src/Task/Create.antt =====
-- task.c: `task_create`, with what its calls of `malloc`, `fopen` and `fwrite` do.
use realtime_tests.Prelude.{
  ℕ, Bool, false, not, Option, none, some, List, [], ◌∷◌, ◌++◌, ◌==◌, if◌then◌else◌,
}
use realtime_tests.Prelude.Int.{ℤ, negsuc}
use realtime_tests.Time.{Timespec, plus}
use realtime_tests.Job.{JobstatsRingbuf, jobstats_ringbuf_create}
use realtime_tests.Task.{TaskParams, encode_task_statistics}

-- Whether each call that can fail succeeds, in the order of the source.
pub record Environment : Type 0 where
  pub stats_memory : Bool
  pub task_memory : Bool
  pub name_memory : Bool
  pub path_memory : Bool
  pub log_opens : Bool
  pub ring_memory : Bool × Bool
  pub log_writes : Bool

-- What the function acquires.
pub data Resource : Type 0 where
  stats_object task_object name_copy path_copy log_stream ring_buffer : Resource

-- A pointer of the new task: `malloc` leaves it unset.
pub data Field : Type 0 where
  unset null held : Field

pub record Partial : Type 0 where
  pub name : Field
  pub stats_log : Field
  pub stats_log_path : Field
  pub stats_ringbuf : Field

abbrev pub raw : Partial
raw = record { name = unset; stats_log = unset; stats_log_path = unset; stats_ringbuf = unset }

-- The new task, as far as the code of this module sets it.
pub record Task : Type 0 where
  pub params : TaskParams
  pub next_release_time : Timespec
  pub stopped : Bool
  pub inside_aperiodic_release : Bool
  pub fail_to_close_stats_log : ℕ
  pub disable_job_statistics : Bool
  pub stats_ringbuf : Option JobstatsRingbuf
  pub oldest_job_pos : ℕ
  pub lost_job_count : ℕ
  pub write_count : ℕ

-- How a call ends: with a task and what its log holds, with a code and what it released, or by a
-- read of an unset pointer.
pub data Created : Type 0 where
  created : Task → List ℕ → Created
  failed : ℤ → List Resource → Created
  unset_read : Created

-- One `if (result->f != NULL) release (result->f)`.
abbrev pub release : Field → Resource → (List Resource → Created) → List Resource → Created
release unset r next done = unset_read
release null r next done = next done
release held r next done = next (done ++ (r ∷ []))

-- The code behind the label `error`, once there is a task object.
unfoldable pub clean_up : ℤ → Partial → Created
clean_up rc p =
    release p.name name_copy
      (release p.stats_log log_stream (
        release p.stats_log_path path_copy
          (release p.stats_ringbuf ring_buffer (λ done. failed rc (done ++ (task_object ∷ []))))))
      (stats_object ∷ [])

unfoldable pub new_task : TaskParams → Option JobstatsRingbuf → Task
unfolding plus
new_task p ring = record {
  params = p;
  next_release_time = plus p.t_0 p.offset;
  stopped = false;
  inside_aperiodic_release = false;
  fail_to_close_stats_log = 0;
  disable_job_statistics = p.ringbuffer_size == 0;
  stats_ringbuf = ring;
  oldest_job_pos = 0;
  lost_job_count = 0;
  write_count = 0;
}

-- From the ring buffer on; `ring` is what `jobstats_ringbuf_create` returns.
abbrev pub finish_task : Environment → TaskParams → Option JobstatsRingbuf → Created
finish_task env p none =
    if not (p.ringbuffer_size == 0)
    then clean_up (negsuc 0)
        (record { name = held; stats_log = held; stats_log_path = held; stats_ringbuf = null })
    else if env.log_writes
    then created (new_task p none) (encode_task_statistics p)
    else clean_up (negsuc 0)
        (record { name = held; stats_log = held; stats_log_path = held; stats_ringbuf = null })
finish_task env p (some ring) =
    if env.log_writes
    then created (new_task p (some ring)) (encode_task_statistics p)
    else clean_up (negsuc 0)
        (record { name = held; stats_log = held; stats_log_path = held; stats_ringbuf = held })

unfoldable pub task_create : Environment → TaskParams → Created
unfolding clean_up new_task jobstats_ringbuf_create encode_task_statistics
task_create env p =
    let ring =
      (if p.ringbuffer_size == 0
        then none
        else jobstats_ringbuf_create env.ring_memory p.ringbuffer_size
            p.ringbuffer_disable_overrun) in
    if not env.stats_memory
    then failed (negsuc 0) []
    else if not env.task_memory
    then failed (negsuc 0) (stats_object ∷ [])
    else if not env.name_memory
    then clean_up (negsuc 0) (record raw { name = null })
    else if not env.path_memory
    then clean_up (negsuc 0) (record raw { name = held; stats_log_path = null })
    else if not env.log_opens
    then clean_up (negsuc 1) (record raw { name = held; stats_log_path = held; stats_log = null })
    else finish_task env p ring
