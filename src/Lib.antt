-- ===== src/Lib.antt =====
-- A verification of realtime_tests, a C library to release, time and log the jobs of real-time
-- tasks, of the program that reports such a log, and of the programs that experiment with it.
--
-- The parts and how they interact. A task (task.h, task.c) is created with its parameters, which
-- it writes to a log; it starts its job (job.h, job.c) again and again, and each start puts two
-- clock readings into a ring buffer; when the task ends, its clean-up handler appends the
-- counters and the ring buffer to the log. read_task_stats_file.c reads the log through
-- task_statistics_read, which shows the parameters to one callback and the jobs to another, and
-- prints rows or the distribution of the response times. All of them calculate with
-- utility_time.h and read streams with utility_file.c. utility_cpu.c reads the files of the kernel
-- about processors and calibrates busy loops, which the jobs run; utility_sched.c and its two
-- clients put a thread under SCHED_FIFO or SCHED_DEADLINE and back. hrt_cbs.c makes a task from
-- its options, cpu_hog_cbs.c runs busy loops until its time is over. In bwi-client_server a driver
-- (main.c) reads a configuration and runs servers and clients, which exchange packets; a server
-- may ask a subserver. The other experiments (earliest_deadline_first, rate_monotonic,
-- priority_inversion_in_RM, multicore_means_parallel_threads) acquire tasks, busy loops and
-- governors step by step, run threads and clean up.
--
-- The files.
--   Prelude: shared names, Boolean tests, lists on native numbers, 64-bit words, integers,
--     bytes.
--   Time: utility_time.h. Time.antt holds struct timespec, utility_time and the pure part of its
--     calculations; Time/Store the objects on the heap, with a fault for a use after a free;
--     Time/Maintain the life of an object and its collection; Time/Convert, Time/Arith and
--     Time/Compare the functions over the store, under their names in C (utility_time_add,
--     utility_time_sub_dyn_gc, ...); Time/Text to_string and string_to_utility_time. Time/Exact,
--     Time/Overlap, Time/Collect and the children of Time/Text hold the proofs.
--   Job: job.c. Job.antt holds the ring buffer (jobstats_ringbuf_create, job_start and the
--     derived counters), Job/Saving jobstats_ringbuf_save, Job/Overhead
--     job_statistics_overhead, with its proof. Job/Saved, Job/Counts, Job/Logged,
--     Job/Enabled, Job/Disabled, Job/Started and Job/History hold the proofs.
--   File: utility_file.c. File.antt holds utility_file_readln and utility_file_read_bin on a
--     stream, File/Lines utility_file_read, File/Exact and File/Bounds the proofs.
--   Stats: the packed job_statistics and job_statistics_read of job.c; Stats/Block the proofs.
--   Task: task.c. Task.antt holds the parameters and their packed form, Task/Create task_create,
--     Task/Release the loops task_start_periodic and task_start_aperiodic, Task/Flush
--     flush_stats_ringbuf and close_logging_file, Task/Reading task_statistics_read, Task/Overhead
--     finish_to_start_overhead, Task/Stop task_stop and the loop of an aperiodic task as two threads.
--     Task/Probed, Task/Unset, Task/Stopped, Task/Created, Task/Periodic, Task/Flushed, Task/Header, Task/RoundTrip, Task/Flaws and
--     Task/EndToEnd hold the proofs.
--   Report: read_task_stats_file.c. Report.antt holds insert_response_time and
--     print_response_time_cdf, Report/Jobs the two callbacks and the program over an open log.
--     Report/Histogram, Report/Distribution and Report/Exact hold the proofs.
--   Sched: utility_sched.c (sched_save, sched_restore) over an interface of the calls of the kernel;
--     Sched/Fifo utility_sched_fifo.c, Sched/Deadline utility_sched_deadline.c, Sched/Restored the
--     proofs, for a kernel that gives back what was set. Sched/Plain is such a kernel.
--   Cpu: utility_cpu.c. Cpu.antt holds get_last_cpu and the affinity of a thread, Cpu/Frequency the
--     cpu_freq functions, Cpu/Governor the governor and enter_UP_mode_freq_max, Cpu/Busyloop
--     busyloop_search and create_cpu_busyloop. Cpu/Processors, Cpu/Listed and Cpu/Search hold the
--     proofs.
--   Getopt: the loops over options that the programs share.
--   Hog: Hog/Options the options of hrt_cbs.c and its task, Hog/Cycles hog_cpu of cpu_hog_cbs.c
--     and Hog/Chunks its options, each with its proof; Hog/Accepted the other proofs.
--   Bwi: bwi-client_server. Bwi.antt holds send_recv, Bwi/Server the requests of server.c,
--     Bwi/Signals its handler of SIGUSR1, Bwi/Client client_prog of client.c, Bwi/Client/Limits its
--     options -r and -l, with the proof, Bwi/Client/Options all its options, the charging of
--     overheads and its task, Bwi/ServerOptions those of server.c, with the proof, Bwi/Driver parse_config_file of main.c, Bwi/Driver/Argv
--     procs_make_argv, Bwi/Driver/Arguments parse_cmd_line_args, Bwi/Driver/Life the creation and the
--     termination of the processes. Bwi/Answers, Bwi/Toggled, Bwi/Client/Traced, Bwi/Client/Accepted and the other children of
--     Bwi/Driver hold the proofs.
--   Experiment: the programs as sequences of steps. Experiment.antt holds what a step is, MAIN_BEGIN of
--     utility_experimentation.h, the clean-up and the macros that the programs share;
--     Experiment/EarliestDeadlineFirst, Experiment/RateMonotonic, Experiment/PriorityInversion and
--     Experiment/Multicore hold the steps of each main.c. Experiment/Outcomes lists all outcomes
--     of a program; a resource of a program is a task, a busy loop, a time under manual collection, a
--     mutex or its attributes, a barrier, a file or a governor. Experiment/Releases and Experiment/Parallel hold the proofs; Experiment/Programs
--     the programs of the tasks in priority_inversion_in_RM, with the proof.
--
-- How the code is read. A host with 64-bit long, little-endian and with 8-byte pointers is
-- taken. A long is its bit pattern, a number below 2 ^ 64, and arithmetic wraps as the
-- compiler's does; the sums of signed times stay in range under the hypotheses of the theorems.
-- An object on the heap is a cell of a store, and a callback works on a state that is passed
-- through. malloc, realloc, fopen, fwrite, fread, clock_gettime and clock_nanosleep are
-- parameters: Booleans and functions that tell whether they succeed, or the bytes of a stream
-- and whether its device fails behind them. The clock is a function of a state of the world. The
-- program of a job is a function on that state. A double is an interface of the operations
-- that the search of a loop count uses. The calls of the kernel for schedulers are the record
-- Kernel, and what a socket answers is a result or an error number. What the calls of an experiment
-- answer is one function, of all calls at once. The threads of Task/Stop take turns at each access
-- to a member that they share, in any order that the scheduler allows; a pending cancellation
-- may take effect in the wait for the event or in the task program. Whether the main thread of a
-- client has stopped its task between two jobs, once SIGTERM was sent, is a function of the number
-- of jobs done. The counter of these jobs is an int: its overflow, which C leaves undefined, has
-- no result. What fork answers in turn is a list, of which the driver leaves the rest.
--
-- Bounds and fuel. utility_file_read is given two rounds more than the stream has bytes: every
-- line but the last takes a newline, and one call sees the end. jobstats_ringbuf_save is given a
-- round for each slot. task_statistics_read takes its fuel as an argument: one round more than
-- there are jobs is enough on a healthy stream, and on a failing device no number is. The
-- release loops take theirs as well: a round for each job until the task is told to stop. So does
-- hog_cpu: one round more than the stopping time has nanoseconds is enough if a cycle takes one
-- at least. get_last_cpu has the fuel of utility_file_read. busyloop_search recurs on the passes
-- left, the wait for a subserver on its counter.
-- Everything else recurs on the structure of its data.
--
-- Not modelled: the measuring of the overhead of an exchange (client.c); the readings of
-- busyloop_measurement and the empty loops, which only pass time (utility_cpu.c);
-- sched_deadline_bandwidth, a quotient of doubles; the locking of memory (utility_memory.c), which
-- calls the kernel; the macros to log and to test; the creation of threads
-- and sockets in bwi-client_server, and a process that cannot be executed; server_hog.c and cpu_hog.c, which send or burn in an endless loop;
-- SCHED_DEADLINE-and-special-kthreads;
-- sched_switch.c, a copy of another project's program. What is only printed or logged is left
-- out, as are the layout of the columns of the report, the lack of memory for its times and for the
-- times of the measured overheads (job.c, task.c), the times under automatic collection in the
-- experiments, and their numbers of slots and times of release.
pub mod Prelude
pub mod Time
pub mod Job
pub mod File
pub mod Stats
pub mod Task
pub mod Report
pub mod Sched
pub mod Cpu
pub mod Hog
pub mod Bwi
pub mod Experiment
pub mod Getopt
