-- ===== src/Lib.antt =====
-- Verification of the core of Upstart's init daemon.
--
-- Init keeps a queue of events. Job classes name event expressions (start on, stop on); an event is
-- offered to each expression, whose leaves match it or not, and an expression that becomes true
-- starts or stops a job, with the environment that its events carry. A job's state machine runs the
-- processes of the class, and emits events of its own, for which it waits. What waits for an event
-- or a job is told of its end by Blocked structures, and events count the references to them.
--
-- Which module models which file:
--   Environ            init/environ.c: tables of NAME=value strings. environ_add, environ_append,
--                      environ_remove, environ_lookup, environ_get, environ_getn, environ_all_valid
--   Environ/Expand     init/environ.c: environ_expand and environ_expand_until
--   Blocked            init/blocked.c: the structure and the names of its types
--   Event              init/event.c: event_new, event_block, event_unblock, the list index, the names
--   EventOperator      init/event_operator.c: the tree, event_operator_update, _match, _handle, _reset,
--                      _copy, _destroy; Serialise: its JSON form; Environment: _environment and
--                      _events; Collapse: _collapse, with state_collapse_env of init/state.c
--   Job                init/job.h: the job's data. Names: the names of goals and states. Emit:
--                      job_emit_event and its environment. Finished: job_finished, job_failed, and
--                      what init/job_process.c changes of a job when it starts or kills a process.
--                      State: job_next_state, job_change_state, job_change_goal; Next, Start, Stop and
--                      Goal: where these go. Errors: job_child_error_handler. Requests: job_start,
--                      job_stop and job_restart as request_start, request_stop and request_restart
--   Process            init/job_process.c: job_process_terminated and job_process_catch_runaway;
--                      Handler: job_process_handler, and what it does for a process that stops or is
--                      traced, and job_process_kill_timer. Stops, Terminated, Others, Runaway, Traced, Restart: where these go
--   System             init/event.c: event_finished, over several jobs
--   ParseOn            init/parse_job.c: the stack parser of start on and stop on, by tokens; Text: the
--                      same over the text, parse_on. Grammar: the expressions, told without a stack;
--                      Text/Tokens: the tokens in a text, told without the loop
--   State              init/state.c: state_data_to_hex and state_hex_to_data
--   Conf               init/conf.c: the names of configuration files, and conf_get_best_override
--   Quiesce            init/quiesce.c: the shutdown of a session; Deadline: when it ends
--   Base               lists, options, strings and tests that the others share
--
-- State. An event is a structure in a store at an address; a job, its events, the messages it sends
-- and whether it was freed make up a World. A failed nih_assert is a value (none, or
-- assertion_failed). Environment tables are lists of strings, strings are lists of bytes. The event
-- counter wraps at 2 ^ 32.
--
-- Parameters. getenv, fnmatch, and what a job asks of its surroundings (the new pid, whether a signal
-- could be sent, whether AppArmor is there, how numbers and signals print, the answer of
-- job_class_reconsider, what ptrace answers) are arguments of the definitions; nothing is assumed of
-- them but where a theorem names it. The tokeniser of libnih is an argument of parse_on; where a theorem
-- relies on it, it moves on past every word, and does not go back or leave the text. The clock,
-- whether respawning is disabled and whether a child that is set up has its data are arguments of
-- job_process_terminated; the clock is taken not to go back, there and in Quiesce. What lstat tells is
-- an argument of conf_get_best_override.
--
-- Fuel. environ_expand_until runs on fuel; environ_expand gives it one more than the string has
-- characters, and since each round consumes a character that is enough. job_change_state runs on
-- fuel; 20 is more than a job has states, and a start or a stop visits each state once. The loop of
-- parse_on has one round more than the text has bytes, and each round takes a byte.
--
-- Not modelled: allocation failures, which the callers' NIH_MUST repeats; D-Bus but for the order of
-- its messages; fork and exec, logs and utmp records; cgroups, without which the code is taken to be
-- built; the event loop (event_poll) and the offering of events to conditions, which come next, with job
-- classes; the stanzas of job files but for start on and stop on; the control interface, logging and
-- the utilities.
pub mod Base
pub mod Environ
pub mod Blocked
pub mod Event
pub mod EventOperator
pub mod Job
pub mod ParseOn
pub mod Process
pub mod System
pub mod State
pub mod Conf
pub mod Quiesce
