-- ===== src/Task/Created.antt =====
-- task.c: how `task_create` ends, on every combination of failures.
use realtime_tests.Prelude.{
  ◌≡◌, ap, ◌∙◌, Bool, true, false, ◌&&◌, ◌||◌, Option, none, some, List, [], ◌∷◌, ◌++◌, ◌==◌,
  if◌then◌else◌, arith,
}
use realtime_tests.Prelude.Int.{negsuc}
use realtime_tests.Job.{JobstatsRingbuf, jobstats_ringbuf_create}
use realtime_tests.Task.{TaskParams, encode_task_statistics}
use realtime_tests.Task.Create.{
  Environment, Resource, stats_object, task_object, name_copy, path_copy, log_stream, ring_buffer,
  created, failed, unset_read, clean_up, new_task, finish_task, task_create,
}

-- What has been acquired when nothing failed before the ring buffer, apart from that.
abbrev pub before_ring : List Resource
before_ring = stats_object ∷ name_copy ∷ log_stream ∷ path_copy ∷ []

-- Whether the two structures could be allocated, and whether all of what follows them up to the
-- opening of the log succeeded.
abbrev pub has_objects : Environment → Bool
has_objects env = env.stats_memory && env.task_memory

abbrev pub has_log : Environment → Bool
has_log env = env.name_memory && env.path_memory && env.log_opens

abbrev pub is_some {ℓ} : {A : Type ℓ} → Option A → Bool
is_some none = false
is_some (some a) = true

-- Once the two structures are allocated, a failure to copy the name or the path, or to open the
-- log, makes the cleaning-up code read a pointer that was never set. So the documented result for
-- a log that cannot be opened is not delivered.
pub task_create_unset_read :
    (env : Environment) (p : TaskParams)
    → has_objects env ≡ true
    → has_log env ≡ false
    → task_create env p ≡ unset_read
unfolding task_create clean_up
task_create_unset_read env p objects log = ground arith

-- The ring buffer that is made, if one is wanted.
unfoldable pub ring_of : Environment → TaskParams → Option JobstatsRingbuf
ring_of env p =
    if p.ringbuffer_size == 0
    then none
    else jobstats_ringbuf_create env.ring_memory p.ringbuffer_size p.ringbuffer_disable_overrun

create_finish :
    (env : Environment) (p : TaskParams)
    → has_objects env ≡ true
    → has_log env ≡ true
    → task_create env p ≡ finish_task env p (ring_of env p)
unfolding task_create ring_of
create_finish env p objects log = ground arith

-- What is released together with the ring buffer that was made.
abbrev pub all_of : Option JobstatsRingbuf → List Resource
all_of none = before_ring ++ (task_object ∷ [])
all_of (some ring) = before_ring ++ (ring_buffer ∷ task_object ∷ [])

-- Where the parts up to the log were acquired, `task_create` returns -1 and has released all that
-- it acquired if a wanted ring buffer could not be made or the log takes no writes; else it
-- succeeds with a new task, and the log holds the encoded parameters.
pub task_create_ends :
    (env : Environment) (p : TaskParams) (ring : Option JobstatsRingbuf)
    → has_objects env ≡ true
    → has_log env ≡ true
    → ring_of env p ≡ ring
    → task_create env p ≡ (
        if env.log_writes && (p.ringbuffer_size == 0 || is_some ring)
        then created (new_task p ring) (encode_task_statistics p)
        else failed (negsuc 0) (all_of ring))
unfolding clean_up
task_create_ends env p none objects log e =
    create_finish env p objects log ∙ ap (finish_task env p) e ∙ ground arith
task_create_ends env p (some ring) objects log e =
    create_finish env p objects log ∙ ap (finish_task env p) e ∙ ground arith

-- Without memory for one of its two structures `task_create` returns -1 and has released the
-- other if that was allocated.
pub task_create_no_object :
    (env : Environment) (p : TaskParams)
    → has_objects env ≡ false
    → task_create env p ≡ failed (negsuc 0) (if env.stats_memory then stats_object ∷ [] else [])
unfolding task_create
task_create_no_object env p h = ground arith
