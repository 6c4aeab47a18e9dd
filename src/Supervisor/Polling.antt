-- ===== src/Supervisor/Polling.antt =====
-- What one turn of the loop does to an instance: it serves its pipes and advances its timers.
use gisland.Prelude.{
  Expected, value, unexpected, ℕ, zero, suc, ◌≡◌, refl, sym, subst, true, Option, none, some, List,
  [], ◌∷◌, arith,
}
use gisland.Lifecycle.Types.{io_error, ShutdownSignal}
use gisland.Runtime.Types.{ViewLanguage}
use gisland.Supervisor.Types.{IoRead, IoWrite, ProcessBackend}
use gisland.Supervisor.Work.{Work, emit_error, begin_failure}
use gisland.Supervisor.Inbound.{with_inst}
use gisland.Supervisor.Service.{
  emit_stderr, emit_stderr_lines, with_stderr, stderr_lines_with, stderr_final_with, finish_stderr,
  consume_stderr, stderr_loop, service_stderr, consumed_with, consume_written, write_loop,
  service_stdin, signalled_with, signal_with, send_due_signal,
}
use gisland.Supervisor.Fleet.{is_active}
use gisland.Supervisor.Evolution.{
  Evolves, Evolves-refl, Evolves-trans, if-Evolves, with_process-Evolves, begin_failure-Evolves,
}
use gisland.LineBuffer.{BufferedLine, LineBufferErrorCode, LineBuffer, append, finish}
use gisland.WriteQueue.{WriteQueueError, WriteQueue, consume}
use gisland.Lifecycle

module _ {V : ViewLanguage} where
  -- An answer that is an error stops the service and fails the instance.
  io_failure-Evolves :
      (w : Work V) (now : ℕ) → Evolves w.inst (begin_failure (emit_error w now) io_error now).inst
  io_failure-Evolves w now = begin_failure-Evolves (emit_error w now) io_error now

  emit_stderr_lines-same :
      (w : Work V) (lines : List BufferedLine) (now : ℕ)
      → (emit_stderr_lines w lines now).inst ≡ w.inst
  unfolding emit_stderr_lines
  emit_stderr_lines-same w [] now = refl
  emit_stderr_lines-same w (line ∷ lines) now =
      emit_stderr_lines-same (emit_stderr w line now) lines now

  with_stderr-Evolves :
      (w : Work V) (buffer : LineBuffer) → Evolves w.inst (record w.inst { stderr_buffer = buffer })
  with_stderr-Evolves w buffer = ground arith

  stderr_lines_with-Evolves :
      (w : Work V) (answer : LineBuffer × Expected (List BufferedLine) LineBufferErrorCode)
      (now : ℕ)
      → Evolves w.inst (stderr_lines_with w answer now).0.inst
  unfolding stderr_lines_with
  stderr_lines_with-Evolves w (buffer, value lines) now =
      subst (λ i. Evolves w.inst i) (sym (emit_stderr_lines-same (with_stderr w buffer) lines now))
        (with_stderr-Evolves w buffer)
  stderr_lines_with-Evolves w (buffer, unexpected error) now = with_stderr-Evolves w buffer

  consume_stderr-Evolves :
      (w : Work V) (read : IoRead) (now : ℕ) → Evolves w.inst (consume_stderr w read now).0.inst
  unfolding consume_stderr
  consume_stderr-Evolves w read now = ground (
    arith,
    Evolves-refl w.inst,
    stderr_lines_with-Evolves w (append w.inst.stderr_buffer read.bytes) now,
  )

  stderr_final_with-Evolves :
      (w : Work V) (answer : LineBuffer × Expected (Option BufferedLine) LineBufferErrorCode)
      (now : ℕ)
      → Evolves w.inst (stderr_final_with w answer now).inst
  unfolding stderr_final_with
  stderr_final_with-Evolves w (buffer, unexpected error) now = with_stderr-Evolves w buffer
  stderr_final_with-Evolves w (buffer, value none) now = with_stderr-Evolves w buffer
  stderr_final_with-Evolves w (buffer, value (some line)) now = with_stderr-Evolves w buffer

  stderr_ended-Evolves : (w : Work V) → Evolves w.inst (record w.inst { stderr_eof = true })
  stderr_ended-Evolves w = ground arith

  stderr_loop-Evolves :
      (attempts : ℕ) (w : Work V) (reads : List (Option IoRead)) (now : ℕ)
      → Evolves w.inst (stderr_loop attempts w reads now).inst
  unfolding stderr_loop finish_stderr
  stderr_loop-Evolves zero w reads now = Evolves-refl w.inst
  stderr_loop-Evolves (suc attempts) w [] now = Evolves-refl w.inst
  stderr_loop-Evolves (suc attempts) w (none ∷ reads) now = io_failure-Evolves w now
  stderr_loop-Evolves (suc attempts) w (some read ∷ reads) now =
      let w' = (consume_stderr w read now).0 in
      let e = consume_stderr-Evolves w read now in
      let ended = with_inst w' (record w'.inst { stderr_eof = true }) in
      if-Evolves _ _ _ e (
        if-Evolves _ _ read.eof
          (Evolves-trans e (
            Evolves-trans (stderr_ended-Evolves w')
              (stderr_final_with-Evolves ended (finish w'.inst.stderr_buffer) now)))
          (if-Evolves _ _ _ e (Evolves-trans e (stderr_loop-Evolves attempts w' reads now))))

  pub service_stderr-Evolves :
      (B : ProcessBackend) (w : Work V) (now : ℕ) → Evolves w.inst (service_stderr B w now).inst
  unfolding service_stderr
  service_stderr-Evolves B w now = with_process-Evolves w w.inst.process _ (λ pid.
      if-Evolves _ _ w.inst.stderr_eof (Evolves-refl w.inst)
        (stderr_loop-Evolves 64 w (B.read_stderr pid now) now))

  pub with_writes-Evolves :
      (w : Work V) (writes : WriteQueue) → Evolves w.inst (record w.inst { writes = writes })
  with_writes-Evolves w writes = ground arith

  consumed_with-Evolves :
      (w : Work V) (answer : WriteQueue × Expected (Unit {0}) WriteQueueError) (now : ℕ)
      → Evolves w.inst (consumed_with w answer now).0.inst
  unfolding consumed_with
  consumed_with-Evolves w (writes, value _) now = with_writes-Evolves w writes
  consumed_with-Evolves w (writes, unexpected error) now =
      Evolves-trans (with_writes-Evolves w writes)
        (io_failure-Evolves (with_inst w (record w.inst { writes = writes })) now)

  consume_written-Evolves :
      (w : Work V) (written : IoWrite) (now : ℕ)
      → Evolves w.inst (consume_written w written now).0.inst
  unfolding consume_written
  consume_written-Evolves w written now = ground (
    arith,
    Evolves-refl w.inst,
    consumed_with-Evolves w (consume w.inst.writes written.transferred) now,
  )

  write_loop-Evolves :
      (attempts : ℕ) (w : Work V) (answers : List (Option IoWrite)) (now : ℕ)
      → Evolves w.inst (write_loop attempts w answers now).inst
  unfolding write_loop
  write_loop-Evolves zero w answers now = Evolves-refl w.inst
  write_loop-Evolves (suc attempts) w [] now = Evolves-refl w.inst
  write_loop-Evolves (suc attempts) w (none ∷ answers) now =
      if-Evolves _ _ _ (io_failure-Evolves w now) (Evolves-refl w.inst)
  write_loop-Evolves (suc attempts) w (some written ∷ answers) now =
      let w' = (consume_written w written now).0 in
      let e = consume_written-Evolves w written now in
      if-Evolves _ _ _ (Evolves-refl w.inst) (
        if-Evolves _ _ _ e (
          if-Evolves _ _ written.eof (Evolves-trans e (begin_failure-Evolves w' io_error now))
            (if-Evolves _ _ _ e (Evolves-trans e (write_loop-Evolves attempts w' answers now)))))

  pub service_stdin-Evolves :
      (B : ProcessBackend) (w : Work V) (now : ℕ) → Evolves w.inst (service_stdin B w now).inst
  unfolding service_stdin
  service_stdin-Evolves B w now =
      with_process-Evolves w w.inst.process _
        (λ pid. write_loop-Evolves 64 w (B.write_stdin pid now) now)

  signal_with-Evolves :
      (B : ProcessBackend) (w : Work V) (pid : ℕ) (due : Option ShutdownSignal) (now : ℕ)
      → Evolves w.inst (signal_with B w pid due now).inst
  unfolding signal_with signalled_with gisland.Lifecycle.signal_sent is_active
  signal_with-Evolves B w pid none now = Evolves-refl w.inst
  signal_with-Evolves B w pid (some sent) now = ground arith

  pub send_due_signal-Evolves :
      (B : ProcessBackend) (w : Work V) (now : ℕ) → Evolves w.inst (send_due_signal B w now).inst
  unfolding send_due_signal
  send_due_signal-Evolves B w now =
      with_process-Evolves w w.inst.process _
        (λ pid. signal_with-Evolves B w pid (gisland.Lifecycle.due_signal w.inst.lifecycle now) now)
