-- ===== src/Lib.antt =====
-- The DragonBench firmware: a bench device that runs one load at a time on an ESP32-S3 and
-- reports it over HTTP. The modelled code is firmware/common/db_run.c and db_network.c with their
-- headers, which are pure, and firmware/targets/esp32s3/main/main.c, which runs tasks and HTTP
-- handlers on ESP-IDF and FreeRTOS.
--
-- Run models db_run.c: workloads and their names, the validation of a request, and the life of
-- the run in current_run (begin, abort, finish). Network models db_network.c: the device's names,
-- the mDNS host name, the retry delay and the request numbers of the station, and the names of
-- states.
--
-- Events models the ring of events, emit_event on the state that it changes, and the snapshot
-- that events_get sends; Events/View is the log as its readers see it, a quotient that forgets
-- where the ring begins. Json has the trees that the code builds with cJSON and the record Cjson
-- of the calls of cJSON that it uses, which every definition that prints or parses takes as a
-- parameter.
--
-- Prog is the type of programs that talk to the platform. A task or handler of main.c is a tree
-- with a node for each call of ESP-IDF, FreeRTOS or the C library and for each access to a static
-- that tasks share, and with a branch for each reply. A read of a shared static is a call, so
-- another task or the outside may have changed it. Prog/Protocol says what it is that a program
-- keeps to a protocol for all replies; Prog/Locks, Prog/Slot, Prog/Clock and Prog/Duties are the
-- protocols of state_lock, of current_run and the ring, of the timer, and of what a task has to
-- finish, free and close. Prog/Apart has the rules by which code that touches nothing of a
-- protocol keeps it, which Wifi/Rules and Boot/Rules apply to the network and the boot.
-- Prog/Quiet names the programs that leave the run and the restart alone. Prog/Replay and
-- Prog/Time run a program against a given sequence of replies, Prog/Machine against a platform
-- with a state.
--
-- Stress models the loops that put load on the device (uptime_ms, should_abort, wait_abortable,
-- run_cpu, run_nvs, partition_cycle, connect_peer, run_network), Task models workload_task and
-- emit_event as programs, and Http models the handlers: Http/Runs the runs, Http/Pages what is
-- only read, Http/Station the credentials, Http/Drafts what the fields of a request are in its
-- body, Http/Server the table of routes and the handler of each.
--
-- Pages has the two pages that main.c holds, byte by byte in Pages/Landing and Pages/Setup, and
-- the logic of their scripts: Pages/Watch what the setup page makes of a submission and of the
-- answers to its polls, Pages/Dashboard the tiles and the freshness of the dashboard, Pages/Rows
-- its rows, chips and labels. A value of an answer that is missing is none where the script has
-- undefined. Pages/Outcome and Pages/Submission follow what the page tells back to the device's
-- statics, Pages/Order the numbers of the requests, Pages/Display and Pages/Lists what the
-- dashboard shows to the handlers that answer it, Pages/Answer the answer to a submission to what
-- was queued, and Pages/Requests the paths to the table of routes. Left out of the scripts are
-- the raw answers that the dashboard copies, its notes of failed polls, and the browser's timers
-- and transport.
--
-- Wifi models the station and the access point: nvs_load_sta, nvs_save_sta, configure_sta, the
-- retry timer, sta_config_task and wifi_event. Boot models reset_name, start_wifi, start_http and
-- app_main, with the build's configuration as the record Settings. The statics of the network are
-- shared without a lock, so each read and each write of one is a call. Tests runs the model at
-- inputs that can be followed in the source and applies the theorems there.
--
-- System puts the tasks of main.c together over the statics that state_lock protects: app_main
-- from the temperature sensor on, before which it is alone, the server's task with its handlers,
-- sta_config_task, the event loop with wifi_event, the timer with sta_retry_fire, and a task for
-- each run that was started. A step of the boot that succeeds starts the server's task,
-- sta_config_task, the event loop's handler or the timer. A step is one call of one task, in any
-- order; a task waits at take_lock until the lock is free; event_seq, which no lock protects, is
-- read and written in two steps; every other call has any reply. System/Threads says what every
-- thread keeps when it starts, System/Invariant carries the protocols of the components over
-- these steps, System/Schedule computes the execution of a given order, System/Progress finds a
-- next step. A task takes a place of an ended one, of which there are infinitely many. The
-- statics that the handlers read and that app_main wrote before the server started are one
-- arbitrary record.
--
-- Numbers of C are natural numbers with the wrap-around of their type written out where the code
-- can reach it. A text is the list of its bytes without the NUL, and snprintf cuts it to the
-- buffer. A number of a JSON body is its sign, integer part and whether it has a fraction, which
-- is all that the code reads of a finite double. A reply that a C function gives through an error
-- code and a pointer is an optional value; the count of a send is 0, and the bytes of a receive
-- are none, for every result that is not positive. Two statics that are read together in one
-- expression are one read of a record; status_get, whose answer has many, reads each by itself.
-- The clock's readings increase strictly from call to call where termination is proved.
--
-- The memory of cJSON is calls: one gives a tree, for cJSON_CreateObject and a cJSON_Parse that
-- succeeds, or a text, for cJSON_PrintUnformatted, and one takes it back, for cJSON_Delete and
-- cJSON_free. A tree that is added to another is a part of it, so the sensors of a list and the
-- parsed parameters of an event go with their root, and filling a tree is no call.
--
-- A loop of the model takes fuel. The loops of a workload need one round for each microsecond of
-- the duration at most, since each round reads the timer, and the longest duration is an hour, so
-- 3600000001 is enough. read_body needs at most as many rounds as the buffer has bytes, since a
-- round that goes on takes a byte. sta_config_task never returns, and its fuel is the number of
-- its rounds. The statements on System hold for every fuel. The other functions are structurally
-- recursive.
--
-- antenna_init, which sets a pin on boards that have an RF switch, and log lines are left out.
-- The command line (cli), the tools and the tests are Python and shell and have no model.
pub mod Common
pub mod Run
pub mod Network
pub mod Json
pub mod Events
pub mod Prog
pub mod Stress
pub mod Task
pub mod Pages
pub mod Http
pub mod Wifi
pub mod Boot
pub mod System
mod Tests
