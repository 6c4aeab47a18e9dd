-- ===== src/Supervisor/Serving.antt =====
-- What serving an instance does to it: its output, its errors, its input and its timers.
use gisland.Prelude.{
  Expected, value, unexpected, ℕ, zero, suc, String, ◌≡◌, refl, true, Option, none, some, List, [],
  ◌∷◌, arith,
}
use gisland.Lifecycle.Types.{io_error}
use gisland.Runtime.Types.{
  ProtocolVersion, ViewLanguage, ProtocolError, ModuleMessage, ready_message,
}
use gisland.Supervisor.Types.{ModuleProtocol, IoRead, ProcessBackend}
use gisland.Supervisor.Work.{Work, emit_error, complete_restart, emit_transition}
use gisland.Supervisor.Inbound.{
  type_error, line_error, with_inst, readied_with, accepted, or_violation, first_message,
  later_message, parsed_with, handle_protocol_line, handle_lines, lines_with, consume_stdout,
  final_with, finish_stdout, consume_read, read_loop, service_stdout,
}
use gisland.Supervisor.Fleet.{is_active}
use gisland.Supervisor.Negotiation.{ready_error, message_error}
use gisland.Supervisor.Evolution.{
  Evolves, Evolves-refl, Evolves-trans, if-Evolves, with_process-Evolves, begin_failure-Evolves,
  record_violation-Evolves,
}
use gisland.LineBuffer.{BufferedLine, LineBufferErrorCode, LineBuffer, append}
use gisland.Lifecycle

module _ {V : ViewLanguage} (P : ModuleProtocol V) where
  or_violation-Evolves :
      (w passed : Work V) (checked : Option ProtocolError) (now : ℕ)
      → Evolves w.inst passed.inst
      → Evolves w.inst (or_violation w checked passed now).inst
  unfolding or_violation
  or_violation-Evolves w passed none now h = h
  or_violation-Evolves w passed (some error) now h = record_violation-Evolves w error now

  readied_with-Evolves :
      (w : Work V) (message : ModuleMessage V) (now : ℕ)
      → w.inst.ready ≡ true
      → Evolves w.inst
          (readied_with w message (gisland.Lifecycle.ready w.inst.lifecycle now) now).inst
  unfolding readied_with gisland.Lifecycle.ready emit_transition complete_restart is_active
  readied_with-Evolves w message now h = ground (arith, record_violation-Evolves w type_error now)

  accepted-Evolves :
      (w : Work V) (version : ProtocolVersion) (capabilities : List String)
      → Evolves w.inst (accepted w.inst version capabilities)
  unfolding is_active
  accepted-Evolves w version capabilities = ground arith

  first_message-Evolves :
      (w : Work V) (message : ModuleMessage V) (now : ℕ)
      → Evolves w.inst (first_message w message now).inst
  unfolding first_message
  first_message-Evolves w (ready_message version capabilities) now =
      let accepting = with_inst w (accepted w.inst version capabilities) in
      let message = ready_message version capabilities in
      or_violation-Evolves w _ (ready_error w.inst version capabilities) now (
        Evolves-trans (accepted-Evolves w version capabilities)
          (readied_with-Evolves accepting message now refl))
  first_message-Evolves w message now = record_violation-Evolves w type_error now

  later_message-Evolves :
      (w : Work V) (message : ModuleMessage V) (now : ℕ)
      → Evolves w.inst (later_message P w message now).inst
  unfolding later_message
  later_message-Evolves w message now =
      or_violation-Evolves w _ (message_error P w.inst message) now (ground arith)

  parsed_with-Evolves :
      (w : Work V) (answer : Expected (ModuleMessage V) ProtocolError) (now : ℕ)
      → Evolves w.inst (parsed_with P w answer now).inst
  unfolding parsed_with
  parsed_with-Evolves w (unexpected error) now = record_violation-Evolves w error now
  parsed_with-Evolves w (value message) now =
      ground (arith, later_message-Evolves w message now, first_message-Evolves w message now)

  handle_protocol_line-Evolves :
      (w : Work V) (line : List ℕ) (now : ℕ)
      → Evolves w.inst (handle_protocol_line P w line now).inst
  unfolding handle_protocol_line
  handle_protocol_line-Evolves w line now =
      ground (arith, Evolves-refl w.inst, parsed_with-Evolves w (P.parse_module_message line) now)

  handle_lines-Evolves :
      (w : Work V) (lines : List BufferedLine) (now : ℕ)
      → Evolves w.inst (handle_lines P w lines now).0.inst
  unfolding handle_lines
  handle_lines-Evolves w [] now = Evolves-refl w.inst
  handle_lines-Evolves w (line ∷ lines) now =
      let w' = handle_protocol_line P w line.text now in
      let e = handle_protocol_line-Evolves w line.text now in
      ground (arith, e, Evolves-trans e (handle_lines-Evolves w' lines now))

  -- The buffers are no part of what evolves.
  with_stdout-Evolves :
      (w : Work V) (buffer : LineBuffer) → Evolves w.inst (record w.inst { stdout_buffer = buffer })
  with_stdout-Evolves w buffer = ground arith

  ended-Evolves :
      (w : Work V) (now : ℕ)
      → Evolves w.inst (record w.inst { stdout_eof = true; stdout_eof_at = some now })
  ended-Evolves w now = ground arith

  lines_with-Evolves :
      (w : Work V) (answer : LineBuffer × Expected (List BufferedLine) LineBufferErrorCode)
      (now : ℕ)
      → Evolves w.inst (lines_with P w answer now).0.inst
  unfolding lines_with
  lines_with-Evolves w (buffer, value lines) now =
      Evolves-trans (with_stdout-Evolves w buffer)
        (handle_lines-Evolves (with_inst w (record w.inst { stdout_buffer = buffer })) lines now)
  lines_with-Evolves w (buffer, unexpected error) now =
      Evolves-trans (with_stdout-Evolves w buffer) (
        record_violation-Evolves (with_inst w (record w.inst { stdout_buffer = buffer })) line_error
          now)

  final_with-Evolves :
      (w : Work V) (answer : LineBuffer × Expected (Option BufferedLine) LineBufferErrorCode)
      (now : ℕ)
      → Evolves w.inst (final_with P w answer now).inst
  unfolding final_with
  final_with-Evolves w (buffer, unexpected error) now =
      Evolves-trans (with_stdout-Evolves w buffer) (
        record_violation-Evolves (with_inst w (record w.inst { stdout_buffer = buffer })) line_error
          now)
  final_with-Evolves w (buffer, value none) now = with_stdout-Evolves w buffer
  final_with-Evolves w (buffer, value (some line)) now =
      Evolves-trans (with_stdout-Evolves w buffer) (
        handle_protocol_line-Evolves (with_inst w (record w.inst { stdout_buffer = buffer }))
          line.text now)

  finish_stdout-Evolves : (w : Work V) (now : ℕ) → Evolves w.inst (finish_stdout P w now).inst
  unfolding finish_stdout
  finish_stdout-Evolves w now = Evolves-trans (ended-Evolves w now) (final_with-Evolves _ _ now)

  consume_read-Evolves :
      (w : Work V) (read : IoRead) (now : ℕ) → Evolves w.inst (consume_read P w read now).0.inst
  unfolding consume_read consume_stdout
  consume_read-Evolves w read now = ground (
    arith,
    Evolves-refl w.inst,
    lines_with-Evolves w (append w.inst.stdout_buffer read.bytes) now,
  )

  read_loop-Evolves :
      (attempts : ℕ) (w : Work V) (reads : List (Option IoRead)) (now : ℕ)
      → Evolves w.inst (read_loop P attempts w reads now).inst
  unfolding read_loop
  read_loop-Evolves zero w reads now = Evolves-refl w.inst
  read_loop-Evolves (suc attempts) w [] now = Evolves-refl w.inst
  read_loop-Evolves (suc attempts) w (none ∷ reads) now =
      begin_failure-Evolves (emit_error w now) io_error now
  read_loop-Evolves (suc attempts) w (some read ∷ reads) now =
      let w' = (consume_read P w read now).0 in
      let e = consume_read-Evolves w read now in
      if-Evolves _ _ _ e (
        if-Evolves _ _ read.eof (Evolves-trans e (finish_stdout-Evolves w' now))
          (if-Evolves _ _ _ e (Evolves-trans e (read_loop-Evolves attempts w' reads now))))

  pub service_stdout-Evolves :
      (B : ProcessBackend) (w : Work V) (now : ℕ) → Evolves w.inst (service_stdout P B w now).inst
  unfolding service_stdout
  service_stdout-Evolves B w now = with_process-Evolves w w.inst.process _ (λ pid.
      if-Evolves _ _ w.inst.stdout_eof (Evolves-refl w.inst)
        (read_loop-Evolves 64 w (B.read_stdout pid now) now))
