-- ===== src/Lib.antt =====
-- gisland: a desktop island that shows what small programs, its modules, publish. This library
-- models the core of it in `src/` and `include/gisland/` and proves it correct.
--
-- How the parts interact. The `ModuleSupervisor` runs one process for each module: a thread takes
-- the commands of the application, serves the pipes of the processes, reaps what has exited and
-- emits events. A `ModuleLifecycle` decides when to start, stop, kill and restart a process. The
-- bytes that the process writes pass a `LineBuffer`, which cuts them into lines; the messages to
-- it pass a `WriteQueue`, whose front is written as far as the pipe takes it. The events of the
-- supervisor reach the `RuntimeCoordinator`, which keeps the contexts that the modules publish in
-- a `ContextArbiter`. The arbiter chooses the context that each view of the island shows, and the
-- coordinator tells the modules whether they are seen, returns what stood there before when the
-- application rejects a publication, and knows to which process an action goes.
--
-- The files and what they model:
-- - Lifecycle: `src/module_lifecycle.cpp`, `include/gisland/module_lifecycle.hpp`. `Types` has the
--   enumerations, `State` the fields of `ModuleLifecycle` and its private methods, `Exit` the
--   method `exited`, and `Lifecycle` the other methods under their own names.
-- - LineBuffer: `src/line_buffer.cpp`. `append` is the loop `append_loop` over `append_byte`.
-- - WriteQueue: `src/write_queue.cpp`. `push`, `front_span` and `consume` under their own names.
-- - Context: `src/context.cpp`. `Types` and `Store` have the data and the methods that change what
--   is held, `Choice` the selection, and `Context` the other methods. `find` is `find_context`.
-- - Runtime: `src/runtime.cpp`, and `ModuleViewState` of `src/scene_template.cpp`. `State` has the
--   constructor, `Messages` the method `consume`, `Updates` the method `visibility_updates`, and
--   `Runtime` the other methods. `Operations` lists them as one data type, for what all of them
--   keep.
-- - Scene: the tree of `include/gisland/scene.hpp`, as `Types`. A `Row` or `Column` holds its
--   children and an `Arrangement`, a `Button` or `ActionRegion` its content and an `Activation`.
-- - Supervisor: `src/module_supervisor.cpp` and what it uses of
--   `include/gisland/process_backend.hpp` and `include/gisland/protocol.hpp`. `Supervisor` has the
--   public methods, `Types` the data, and `Queue` the two queues with `enqueue` and `emit`. The
--   methods on one instance take a `Work`: the instance, the count of generations and the events.
--   They are in `Work`, `Outbound` (`spawn_instance`, `queue_message`), `Inbound`
--   (`service_stdout` down to `handle_protocol_line`) and `Service` (`service_stderr`,
--   `service_stdin`, `advance_lifecycle`), with the checks of the protocol in `Negotiation` and
--   `Features`. The methods on all instances are in `Fleet` (`handle_start`), `Commands`,
--   `Reconfigure`, `Reaping` and `Loop`, where `turn` is one turn of the loop of `run`. A function
--   whose name ends in `_with` is the rest of a method, from the answer to a call on.
-- - Interaction: `TextInputEditor` and `KeyboardActivationGate` (`Gate`) of `src/interaction.cpp`.
--   A text is a list of bytes. `Utf8` has the functions on UTF-8 and words, and `Interaction` the
--   methods. `Edits` lists them as one data type.
-- - Prelude: tests, lists, results and maps that the parts share. `Prelude.Maps` is `std::map` and
--   `std::set` as a list of entries with distinct keys.
-- The other files of a part hold its theorems, and `Tests` runs its definitions and applies its
-- theorems at concrete values.
--
-- Conventions. A method that changes its object takes the object and returns the new one beside
-- its result. `std::expected` is `Expected`, `std::optional` is `Option`, a pointer that may be
-- null is an `Option` of the value that it points to. A text that goes to people only is left out
-- of an error. `std::size_t` and `std::uint64_t` wrap around modulo 2 ^ 64, as written in each
-- definition. Times are natural numbers of nanoseconds and durations of milliseconds: that a clock
-- of 64 bits overflows is not modelled, nor that a duration is negative, which the configuration
-- refuses. Loops are structural recursion, on the bytes, records or entries that they go through.
-- The loops of `Interaction/Utf8` move an index: they have fuel, which each starts with the number
-- of bytes that are before or after the index, and a step passes at least one.
--
-- The services of the supervisor try 64 times at most, as in the source, with the answers of the
-- backend as a list; the loop over the pending starts has as many turns as there are such starts,
-- which is enough, since no start adds to them (`Supervisor/Pending`).
--
-- Parameters. For the supervisor `ModuleProtocol` gathers the parser and the printer of messages
-- (`src/protocol.cpp`, which stands on nlohmann/json) and the tree of a scene, and
-- `ProcessBackend` the answers of the system calls behind `ProcessBackend` of the source. Nothing
-- is assumed about either. The arbiter looks into no scene, so that the type of scenes is a
-- parameter. For the coordinator `ViewLanguage` gathers scenes, templates, JSON values (of the
-- library nlohmann/json) and the function `instantiate_template`, which is only called; nothing is
-- assumed about it.
--
-- Not modelled: the reload of a configuration (`src/reload.cpp`, and `prepare_reload` and
-- `commit_reload` of the coordinator); of the supervisor the thread with its locks and its wakeup
-- descriptor, the descriptors that `poll` waits for and the end of the thread by an exception; the
-- pointer and the focus of `src/interaction.cpp`; `src/display.cpp`, `src/island.cpp` and
-- `src/layout.cpp`, whose geometry is in floating point in part; templates and scenes beyond what
-- is said above. Rendering, the Lua host, sockets, processes, the X11 platform and the reading of
-- TOML and JSON are input and output or calls of third-party libraries.
pub mod Prelude
pub mod Scene
pub mod Lifecycle
pub mod LineBuffer
pub mod WriteQueue
pub mod Context
pub mod Runtime
pub mod Supervisor
pub mod Interaction
