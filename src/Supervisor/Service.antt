-- ===== src/Supervisor/Service.antt =====
-- The errors that a process writes, its input, and its timers.
use gisland.Prelude.{
  ltb, ◌==◌, if◌then◌else◌, is_some, is_empty, Expected, value, unexpected, ℕ, zero, suc, Bool,
  true, false, not, ◌&&◌, ◌||◌, Option, none, some, List, [], ◌∷◌,
}
use gisland.Lifecycle.Types.{
  starting, stopping, io_error, ShutdownSignal, StateTransition, LifecycleError, state_eq,
}
use gisland.Lifecycle.State.{ModuleLifecycle}
use gisland.Lifecycle.{due_signal, signal_sent}
use gisland.LineBuffer.{BufferedLine, LineBufferErrorCode, LineBuffer, append, finish}
use gisland.WriteQueue.{WriteQueueError, WriteQueue, consume, wants_write}
use gisland.Runtime.Types.{ViewLanguage, stderr_log}
use gisland.Supervisor.Types.{ModuleProtocol, IoRead, IoWrite, ProcessBackend}
use gisland.Supervisor.Work.{
  Work, id_of, with_process, emit_event, emit_error, with_lifecycle, emit_context_removal,
  emit_transition, begin_failure,
}
use gisland.Supervisor.Outbound.{spawn_instance}
use gisland.Supervisor.Inbound.{with_inst, service_stdout}
use gisland.Lifecycle

module _ {V : ViewLanguage} where
  abbrev pub emit_stderr : Work V → BufferedLine → ℕ → Work V
  emit_stderr w line now = emit_event w (
      stderr_log (record {
        instance_id = id_of w;
        line = line.text;
        truncated = line.truncated;
        repeated = 1;
        at = now;
      }))

  unfoldable pub emit_stderr_lines : Work V → List BufferedLine → ℕ → Work V
  emit_stderr_lines w [] now = w
  emit_stderr_lines w (line ∷ lines) now = emit_stderr_lines (emit_stderr w line now) lines now

  abbrev pub with_stderr : Work V → LineBuffer → Work V
  with_stderr w buffer = with_inst w (record w.inst { stderr_buffer = buffer })

  unfoldable pub stderr_lines_with :
      Work V → LineBuffer × Expected (List BufferedLine) LineBufferErrorCode → ℕ → Work V × Bool
  stderr_lines_with w (buffer, value lines) now =
      (emit_stderr_lines (with_stderr w buffer) lines now, true)
  stderr_lines_with w (buffer, unexpected error) now =
      (emit_error (with_stderr w buffer) now, false)

  unfoldable pub stderr_final_with :
      Work V → LineBuffer × Expected (Option BufferedLine) LineBufferErrorCode → ℕ → Work V
  stderr_final_with w (buffer, unexpected error) now = emit_error (with_stderr w buffer) now
  stderr_final_with w (buffer, value none) now = with_stderr w buffer
  stderr_final_with w (buffer, value (some line)) now = emit_stderr (with_stderr w buffer) line now

  unfoldable pub finish_stderr : Work V → ℕ → Work V
  unfolding stderr_final_with
  finish_stderr w now =
      stderr_final_with (with_inst w (record w.inst { stderr_eof = true }))
        (finish w.inst.stderr_buffer) now

  unfoldable pub consume_stderr : Work V → IoRead → ℕ → Work V × Bool
  unfolding stderr_lines_with
  consume_stderr w read now =
      if is_empty read.bytes
      then (w, true)
      else stderr_lines_with w (append w.inst.stderr_buffer read.bytes) now

  unfoldable pub stderr_loop : ℕ → Work V → List (Option IoRead) → ℕ → Work V
  unfolding consume_stderr finish_stderr
  stderr_loop zero w reads now = w
  stderr_loop (suc attempts) w [] now = w
  stderr_loop (suc attempts) w (none ∷ reads) now = begin_failure (emit_error w now) io_error now
  stderr_loop (suc attempts) w (some read ∷ reads) now =
      let (w', goes_on) = consume_stderr w read now in
      let rest = stderr_loop attempts w' reads now in
      if not goes_on
      then w'
      else if read.eof
      then finish_stderr w' now
      else if read.would_block || is_empty read.bytes
      then w'
      else rest

  unfoldable pub service_stderr : ProcessBackend → Work V → ℕ → Work V
  unfolding stderr_loop with_process
  service_stderr B w now =
      with_process w w.inst.process
        (λ pid. if w.inst.stderr_eof then w else stderr_loop 64 w (B.read_stderr pid now) now)

  -- What `service_stdin` does with the answer of the queue to what was written.
  unfoldable pub consumed_with :
      Work V → WriteQueue × Expected (Unit {0}) WriteQueueError → ℕ → Work V × Bool
  consumed_with w (writes, value _) now = (with_inst w (record w.inst { writes = writes }), true)
  consumed_with w (writes, unexpected error) now = (
    begin_failure (emit_error (with_inst w (record w.inst { writes = writes })) now) io_error now,
    false,
  )

  unfoldable pub consume_written : Work V → IoWrite → ℕ → Work V × Bool
  unfolding consumed_with
  consume_written w written now =
      if ltb 0 written.transferred
      then consumed_with w (consume w.inst.writes written.transferred) now
      else (w, true)

  unfoldable pub write_loop : ℕ → Work V → List (Option IoWrite) → ℕ → Work V
  unfolding consume_written
  write_loop zero w writes now = w
  write_loop (suc attempts) w [] now = w
  write_loop (suc attempts) w (none ∷ writes) now =
      if wants_write w.inst.writes then begin_failure (emit_error w now) io_error now else w
  write_loop (suc attempts) w (some written ∷ writes) now =
      let (w', goes_on) = consume_written w written now in
      let rest = write_loop attempts w' writes now in
      if not (wants_write w.inst.writes)
      then w
      else if not goes_on
      then w'
      else if written.eof
      then begin_failure w' io_error now
      else if written.would_block || written.transferred == 0
      then w'
      else rest

  unfoldable pub service_stdin : ProcessBackend → Work V → ℕ → Work V
  unfolding write_loop with_process
  service_stdin B w now =
      with_process w w.inst.process (λ pid. write_loop 64 w (B.write_stdin pid now) now)

  unfoldable pub signalled_with :
      Work V → ModuleLifecycle × Expected (Unit {0}) LifecycleError → ℕ → Work V
  signalled_with w (lifecycle, value _) now = with_lifecycle w lifecycle
  signalled_with w (lifecycle, unexpected error) now = emit_error (with_lifecycle w lifecycle) now

  -- The signal that is due goes to the process group.
  unfoldable pub signal_with : ProcessBackend → Work V → ℕ → Option ShutdownSignal → ℕ → Work V
  unfolding signalled_with
  signal_with B w pid none now = w
  signal_with B w pid (some sent) now =
      signalled_with (if B.signal_group pid sent now then w else emit_error w now)
        (signal_sent w.inst.lifecycle sent now) now

  unfoldable pub send_due_signal : ProcessBackend → Work V → ℕ → Work V
  unfolding signal_with with_process
  send_due_signal B w now =
      with_process w w.inst.process
        (λ pid. signal_with B w pid (due_signal w.inst.lifecycle now) now)

  module _ (P : ModuleProtocol V) where
    -- A transition is reported, and a process started where the instance is starting without one.
    unfoldable pub report_and_spawn : ProcessBackend → Work V → StateTransition → ℕ → Work V
    report_and_spawn B w transition now =
        let reported = emit_transition w transition in
        if state_eq transition.to starting && not (is_some reported.inst.process)
        then spawn_instance P B reported now
        else reported

    -- One turn of the loop of `advance_lifecycle`.
    unfoldable pub advance_transition : ProcessBackend → Work V → StateTransition → ℕ → Work V
    unfolding report_and_spawn
    advance_transition B w transition now =
        report_and_spawn B (if state_eq transition.to stopping then emit_context_removal w else w)
          transition now

    unfoldable pub advance_transitions : ProcessBackend → Work V → List StateTransition → ℕ → Work V
    unfolding advance_transition
    advance_transitions B w [] now = w
    advance_transitions B w (transition ∷ transitions) now =
        advance_transitions B (advance_transition B w transition now) transitions now

    unfoldable pub advance_lifecycle : ProcessBackend → Work V → ℕ → Work V
    unfolding advance_transitions
    advance_lifecycle B w now =
        let (lifecycle, transitions) = gisland.Lifecycle.tick w.inst.lifecycle now in
        send_due_signal B (advance_transitions B (with_lifecycle w lifecycle) transitions now) now

    -- `service_instances` for one instance.
    unfoldable pub service_instance : ProcessBackend → Work V → ℕ → Work V
    service_instance B w now = service_stdin B (service_stderr B (service_stdout P B w now) now) now
