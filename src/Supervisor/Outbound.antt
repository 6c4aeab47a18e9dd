-- ===== src/Supervisor/Outbound.antt =====
-- What goes out to a process: messages, and the start of the process itself.
use gisland.Prelude.{
  if◌then◌else◌, Expected, value, unexpected, ℕ, ◌+◌, ◌%◌, ◌^◌, String, Bool, true, false, Option,
  none, some, [],
}
use gisland.Lifecycle.Types.{spawn_error, unresponsive}
use gisland.Lifecycle.Exit.{exited}
use gisland.WriteQueue.{WriteQueueError, WriteQueue, push}
use gisland.Runtime.Types.{ViewLanguage, process_started}
use gisland.Supervisor.Types.{
  CoreMessage, init_message, shutdown_message, ModuleProtocol, Instance, ProcessBackend, new_stdout,
  new_stderr, new_writes,
}
use gisland.Supervisor.Work.{
  Work, id_of, emit_event, emit_error, with_lifecycle, emit_context_removal, emit_transitions,
  begin_failure,
}

-- `++next_process_generation_` on `std::uint64_t`.
abbrev pub next_generation : ℕ → ℕ
next_generation n = (n + 1) % 2 ^ 64

module _ {V : ViewLanguage} where
  -- What `spawn_instance` resets.
  abbrev pub fresh : Instance V → ℕ → Instance V
  fresh i generation = record i {
    stdout_buffer = new_stdout;
    stderr_buffer = new_stderr;
    writes = new_writes;
    consecutive_violations = 0;
    ready = false;
    contexts_removed = false;
    stdout_eof = false;
    stderr_eof = false;
    stdout_eof_at = none;
    negotiated_version = none;
    negotiated_capabilities = [];
    generation = generation;
  }

  abbrev pub reset_process : Work V → Work V
  reset_process w =
      let generation = next_generation w.next_process_generation in
      record w { inst = fresh w.inst generation; next_process_generation = generation }

  abbrev pub init_of : Instance V → CoreMessage V
  init_of i = init_message (record i.request.init { instance_id = i.request.instance_id })

  -- What `queue_message` does with a record and with the answer of the queue.
  unfoldable pub queued_with :
      Work V → WriteQueue × Expected (Unit {0}) WriteQueueError → ℕ → Work V × Bool
  queued_with w (writes, value _) now =
      (record w { inst = record w.inst { writes = writes } }, true)
  queued_with w (writes, unexpected error) now =
      (emit_error (record w { inst = record w.inst { writes = writes } }) now, false)

module _ {V : ViewLanguage} (P : ModuleProtocol V) where
  open P use {serialize_core_message}

  unfoldable pub queue_message : Work V → CoreMessage V → ℕ → Work V × Bool
  unfolding queued_with
  queue_message w message now = elim (serialize_core_message message) [
    | none ↦ (emit_error w now, false)
    | some bytes ↦ queued_with w (push w.inst.writes bytes) now
  ]

  unfoldable pub queue_shutdown : Work V → String → ℕ → Work V
  queue_shutdown w reason now =
      let (w', queued) =
        queue_message w (shutdown_message reason w.inst.request.timings.graceful_shutdown) now in
      if queued then w' else emit_error w' now

  -- A message that can not be queued is a failure of the process.
  unfoldable pub queue_or_fail : Work V → CoreMessage V → ℕ → Work V
  queue_or_fail w message now =
      let (w', queued) = queue_message w message now in
      if queued then w' else begin_failure w' unresponsive now

  -- What follows the answer of the backend to the start of a process.
  unfoldable pub spawned_with : Work V → Option ℕ → ℕ → Work V
  spawned_with w none now =
      let removed = emit_context_removal (emit_error w now) in
      let (lifecycle, transitions) = exited removed.inst.lifecycle spawn_error now in
      emit_transitions (with_lifecycle removed lifecycle) transitions
  spawned_with w (some pid) now =
      let started =
        emit_event (record w { inst = record w.inst { process = some pid } })
          (process_started (id_of w) w.inst.generation) in
      queue_or_fail started (init_of w.inst) now

  unfoldable pub spawn_instance : ProcessBackend → Work V → ℕ → Work V
  unfolding spawned_with
  spawn_instance B w now =
      let reset = reset_process w in
      spawned_with reset (B.spawn reset.inst.request.process reset.inst.generation) now
