-- ===== src/Supervisor/Inbound.antt =====
-- What comes in from a process: the lines of its output, and its errors.
use gisland.Prelude.{
  if◌then◌else◌, is_empty, Expected, value, unexpected, ℕ, zero, suc, String, Bool, true, false,
  not, ◌||◌, Option, none, some, List, [], ◌∷◌,
}
use gisland.Lifecycle.Types.{stopping, io_error, StateTransition, LifecycleError, state_eq}
use gisland.Lifecycle.State.{ModuleLifecycle}
use gisland.LineBuffer.{BufferedLine, LineBufferErrorCode, LineBuffer, append, finish}
use gisland.Runtime.Types.{
  ProtocolVersion, ViewLanguage, ProtocolError, ModuleMessage, ready_message, module_message,
}
use gisland.Supervisor.Types.{ModuleProtocol, Instance, IoRead, ProcessBackend}
use gisland.Supervisor.Negotiation.{ready_error, message_error}
use gisland.Supervisor.Work.{
  Work, state_of, id_of, with_process, emit_event, emit_error, with_lifecycle, emit_transition,
  begin_failure, record_violation,
}
use gisland.Lifecycle

abbrev pub type_error : ProtocolError
type_error = record { path = "/type" }

abbrev pub line_error : ProtocolError
line_error = record { path = "" }

module _ {V : ViewLanguage} where
  abbrev pub with_inst : Work V → Instance V → Work V
  with_inst w i = record w { inst = i }

  abbrev pub emit_message : Work V → ModuleMessage V → ℕ → Work V
  emit_message w message now = emit_event w (
      module_message (record {
        instance_id = id_of w;
        message = message;
        at = now;
        generation = w.inst.generation;
      }))

  -- What follows the answer of the lifecycle to `ready`.
  unfoldable pub readied_with :
      Work V
      → ModuleMessage V
      → ModuleLifecycle × Expected StateTransition LifecycleError
      → ℕ
      → Work V
  readied_with w message (lifecycle, unexpected error) now =
      record_violation (with_lifecycle w lifecycle) type_error now
  readied_with w message (lifecycle, value transition) now =
      emit_message (emit_transition (with_lifecycle w lifecycle) transition) message now

  abbrev pub accepted : Instance V → ProtocolVersion → List String → Instance V
  accepted i version capabilities = record i {
    negotiated_version = some version;
    negotiated_capabilities = capabilities;
    consecutive_violations = 0;
    ready = true;
  }

  -- What follows a check: a violation, or that the module has passed it.
  unfoldable pub or_violation : Work V → Option ProtocolError → Work V → ℕ → Work V
  or_violation w (some error) passed now = record_violation w error now
  or_violation w none passed now = passed

  -- The first valid message, which has to say that the module is ready.
  unfoldable pub first_message : Work V → ModuleMessage V → ℕ → Work V
  unfolding readied_with or_violation
  first_message w (ready_message version capabilities) now =
      let i = accepted w.inst version capabilities in
      or_violation w (ready_error w.inst version capabilities)
        (readied_with (with_inst w i) (ready_message version capabilities)
          (gisland.Lifecycle.ready i.lifecycle now) now)
        now
  first_message w _ now = record_violation w type_error now

  module _ (P : ModuleProtocol V) where
    open P use {parse_module_message}

    unfoldable pub later_message : Work V → ModuleMessage V → ℕ → Work V
    unfolding or_violation
    later_message w message now =
        or_violation w (message_error P w.inst message)
          (emit_message (with_inst w (record w.inst { consecutive_violations = 0 })) message now)
          now

    -- What follows the parser's answer to a line.
    unfoldable pub parsed_with : Work V → Expected (ModuleMessage V) ProtocolError → ℕ → Work V
    unfolding first_message later_message
    parsed_with w (unexpected error) now = record_violation w error now
    parsed_with w (value message) now =
        if w.inst.ready then later_message w message now else first_message w message now

    unfoldable pub handle_protocol_line : Work V → List ℕ → ℕ → Work V
    unfolding parsed_with
    handle_protocol_line w line now =
        if state_eq (state_of w.inst) stopping
        then w
        else parsed_with w (parse_module_message line) now

    unfoldable pub handle_lines : Work V → List BufferedLine → ℕ → Work V × Bool
    handle_lines w [] now = (w, true)
    handle_lines w (line ∷ lines) now =
        let w' = handle_protocol_line w line.text now in
        let rest = handle_lines w' lines now in
        if state_eq (state_of w'.inst) stopping then (w', false) else rest

    -- What `consume_stdout` does with the lines that the buffer gives.
    unfoldable pub lines_with :
        Work V → LineBuffer × Expected (List BufferedLine) LineBufferErrorCode → ℕ → Work V × Bool
    lines_with w (buffer, value lines) now =
        handle_lines (with_inst w (record w.inst { stdout_buffer = buffer })) lines now
    lines_with w (buffer, unexpected error) now = (
      record_violation (with_inst w (record w.inst { stdout_buffer = buffer })) line_error now,
      false,
    )

    unfoldable pub consume_stdout : Work V → List ℕ → ℕ → Work V × Bool
    unfolding lines_with
    consume_stdout w bytes now = lines_with w (append w.inst.stdout_buffer bytes) now

    unfoldable pub final_with :
        Work V → LineBuffer × Expected (Option BufferedLine) LineBufferErrorCode → ℕ → Work V
    final_with w (buffer, unexpected error) now =
        record_violation (with_inst w (record w.inst { stdout_buffer = buffer })) line_error now
    final_with w (buffer, value none) now = with_inst w (record w.inst { stdout_buffer = buffer })
    final_with w (buffer, value (some line)) now =
        handle_protocol_line (with_inst w (record w.inst { stdout_buffer = buffer })) line.text now

    unfoldable pub finish_stdout : Work V → ℕ → Work V
    unfolding final_with
    finish_stdout w now =
        let w' = with_inst w (record w.inst { stdout_eof = true; stdout_eof_at = some now }) in
        final_with w' (finish w'.inst.stdout_buffer) now

    -- What one attempt read, and whether the service goes on.
    unfoldable pub consume_read : Work V → IoRead → ℕ → Work V × Bool
    unfolding consume_stdout
    consume_read w read now =
        if is_empty read.bytes then (w, true) else consume_stdout w read.bytes now

    -- The attempts of `service_stdout`, with what each reads.
    unfoldable pub read_loop : ℕ → Work V → List (Option IoRead) → ℕ → Work V
    unfolding consume_read finish_stdout
    read_loop zero w reads now = w
    read_loop (suc attempts) w [] now = w
    read_loop (suc attempts) w (none ∷ reads) now = begin_failure (emit_error w now) io_error now
    read_loop (suc attempts) w (some read ∷ reads) now =
        let (w', goes_on) = consume_read w read now in
        let rest = read_loop attempts w' reads now in
        if not goes_on
        then w'
        else if read.eof
        then finish_stdout w' now
        else if read.would_block || is_empty read.bytes
        then w'
        else rest

    unfoldable pub service_stdout : ProcessBackend → Work V → ℕ → Work V
    unfolding read_loop with_process
    service_stdout B w now =
        with_process w w.inst.process
          (λ pid. if w.inst.stdout_eof then w else read_loop 64 w (B.read_stdout pid now) now)
