-- ===== src/Middleware/Transparent.antt =====
-- Logging changes nothing of what a connection does, unless a formatter raises.
use flockwave_conn.Common.{◌≡◌, none, List, [], ◌∷◌, ◌++◌, append-nil, append_assoc, map}
use flockwave_conn.Middleware.Base.{
  Formatter, Outcome, returns, raises, sleeps_forever, Operations, Line, read_line, written_line,
  logging, log_result, write_unless, Request, Answer, opens, closes, reads, writes, read_done,
  perform, perform_all,
}

module _ (R W E : Type 0) (format_read : Formatter E R) (format_written : Formatter E W) where
  -- The lines of one request and its answer, and of all.
  abbrev pub lines_of : Request R W E → Answer R W E → List Line
  lines_of reads (read_done (returns r)) = map read_line (format_read r).0
  lines_of (writes bytes) a = map written_line (format_written bytes).0
  lines_of q a = []

  abbrev pub transcript : List (Request R W E) → List (Answer R W E) → List Line
  transcript (q ∷ qs) (a ∷ as_) = lines_of q a ++ transcript qs as_
  transcript qs as_ = []

  -- The formatters do not raise on what is read and written.
  abbrev pub IsFormatted : Request R W E → Answer R W E → Type 0
  IsFormatted reads (read_done (returns r)) = (format_read r).1 ≡ none
  IsFormatted (writes bytes) a = (format_written bytes).1 ≡ none
  IsFormatted q a = Unit

  abbrev pub AllFormatted : List (Request R W E) → List (Answer R W E) → Type 0
  AllFormatted (q ∷ qs) (a ∷ as_) = IsFormatted q a × AllFormatted qs as_
  AllFormatted qs as_ = Unit

  log_result-formatted :
      {S : Type 0} (r : Outcome E R) (s : S) (log : List Line)
      → IsFormatted reads (read_done r)
      → log_result R W E format_read format_written r s log
        ≡ (r, (s, log ++ lines_of reads (read_done r)))
  unfolding log_result
  log_result-formatted (returns r) s log h = rw h
  log_result-formatted (raises e) s log h = rw append-nil
  log_result-formatted sleeps_forever s log h = rw append-nil

  module _ {S : Type 0} (c : Operations R W E S) where
    perform-logging :
        (q : Request R W E) (s : S) (log : List Line)
        → IsFormatted q (perform R W E c q s).0
        → let (a, s') = perform R W E c q s in
          perform R W E (logging R W E format_read format_written c) q (s, log)
          ≡ (a, (s', log ++ lines_of q a))
    unfolding perform logging write_unless
    perform-logging opens s log h = rw append-nil
    perform-logging closes s log h = rw append-nil
    perform-logging reads s log h = rw (log_result-formatted (c.read s).0 (c.read s).1 log h)
    perform-logging (writes bytes) s log h = rw h

    -- A program that reads from, writes to, opens and closes a connection through the logging middleware
    -- gets the same answers and leaves the connection in the same state as without it, if the formatters
    -- raise on nothing that it reads or writes; the log then has the formatted lines of what was read and
    -- of what was written, in the order of the calls. A read that raises leaves no line.
    pub logging_transparent :
        (qs : List (Request R W E)) (s : S) (log : List Line)
        → AllFormatted qs (perform_all R W E c qs s).0
        → let (as_, s') = perform_all R W E c qs s in
          perform_all R W E (logging R W E format_read format_written c) qs (s, log)
          ≡ (as_, (s', log ++ transcript qs as_))
    unfolding perform_all
    logging_transparent [] s log h = rw append-nil
    logging_transparent (q ∷ qs) s log h =
        let (a, t) = perform R W E c q s in
        let logged : List Line = log ++ lines_of q a in
        rw (perform-logging q s log h.0, logging_transparent qs t logged h.1, append_assoc)
