-- ===== src/Middleware/Base.antt =====
-- The middleware classes (src/flockwave/connections/middleware: base.py, read_only.py, write_only.py and
-- log.py). A connection is its four operations over a state; a wrapper passes on each operation that it
-- does not override. A formatter of the logging middleware is the lines that it yields and the exception
-- that ends it, if one does; a writer adds a line to a log and raises nothing.
use flockwave_conn.Common.{Text, Option, none, some, List, [], ◌∷◌, ◌++◌, map}

pub data Outcome (E A : Type 0) : Type 0 where
  returns : A → Outcome E A
  raises : E → Outcome E A
  sleeps_forever : Outcome E A

pub record Operations (R W E S : Type 0) : Type 0 where
  pub opening : S → Outcome E (Unit {0}) × S
  pub closing : S → Outcome E (Unit {0}) × S
  pub read : S → Outcome E R × S
  pub write : W → S → Outcome E (Unit {0}) × S

-- A line of the log, by the writer to which it went.
pub data Line : Type 0 where
  read_line written_line : Text → Line

abbrev pub Formatter : Type 0 → Type 0 → Type 0
Formatter E A = A → List Text × Option E

-- `prefix_formatter`
unfoldable pub prefix_formatter : {E A : Type 0} → Formatter E A → Text → Formatter E A
prefix_formatter formatter start obj =
    let (lines, ended) = formatter obj in (map (λ (line : Text). start ++ line) lines, ended)

module _ (R W E : Type 0) where
  -- `ReadOnlyMiddleware`
  unfoldable pub read_only : {S : Type 0} → Operations R W E S → Operations R W E S
  read_only c = record c { write = λ bytes s. (returns tt, s) }

  -- `WriteOnlyMiddleware`
  unfoldable pub write_only : {S : Type 0} → Operations R W E S → Operations R W E S
  write_only c = record c { read = λ s. (sleeps_forever, s) }

  -- An operation that is passed on.
  abbrev pub pass_on :
      {A S : Type 0} → (S → Outcome E A × S) → S × List Line → Outcome E A × (S × List Line)
  pass_on operation (s, log) = let (r, s') = operation s in (r, (s', log))

  module _ (format_read : Formatter E R) (format_written : Formatter E W) where
    -- What a read returns is lost if its formatter raises.
    unfoldable pub returned_or : R → Option E → Outcome E R
    returned_or r none = returns r
    returned_or r (some e) = raises e

    unfoldable pub log_result :
        {S : Type 0} → Outcome E R → S → List Line → Outcome E R × (S × List Line)
    unfolding returned_or
    log_result (returns r) s log =
        let (lines, ended) = format_read r in (returned_or r ended, (s, log ++ map read_line lines))
    log_result (raises e) s log = (raises e, (s, log))
    log_result sleeps_forever s log = (sleeps_forever, (s, log))

    -- `LoggingMiddleware.read`
    unfoldable pub log_read :
        {S : Type 0} → Operations R W E S → S × List Line → Outcome E R × (S × List Line)
    unfolding log_result
    log_read c (s, log) = let (r, s') = c.read s in log_result r s' log

    -- The data is not written if its formatter raises.
    unfoldable pub write_unless :
        {S : Type 0}
        → Option E
        → Operations R W E S
        → W
        → S × List Line
        → Outcome E (Unit {0}) × (S × List Line)
    write_unless none c bytes s = pass_on (c.write bytes) s
    write_unless (some e) c bytes s = (raises e, s)

    -- `LoggingMiddleware.write`
    unfoldable pub log_write :
        {S : Type 0}
        → Operations R W E S
        → W
        → S × List Line
        → Outcome E (Unit {0}) × (S × List Line)
    unfolding write_unless
    log_write c bytes (s, log) =
        let (lines, ended) = format_written bytes in
        write_unless ended c bytes (s, log ++ map written_line lines)

    unfoldable pub logging : {S : Type 0} → Operations R W E S → Operations R W E (S × List Line)
    unfolding log_read log_write
    logging c = record {
      opening = pass_on c.opening;
      closing = pass_on c.closing;
      read = log_read c;
      write = log_write c;
    }

  -- What a program does with a connection, and what it gets.
  pub data Request : Type 0 where
    opens closes reads : Request
    writes : W → Request

  pub data Answer : Type 0 where
    done : Outcome E (Unit {0}) → Answer
    read_done : Outcome E R → Answer

  unfoldable pub perform : {S : Type 0} → Operations R W E S → Request → S → Answer × S
  perform c opens s = let (r, s') = c.opening s in (done r, s')
  perform c closes s = let (r, s') = c.closing s in (done r, s')
  perform c reads s = let (r, s') = c.read s in (read_done r, s')
  perform c (writes bytes) s = let (r, s') = c.write bytes s in (done r, s')

  unfoldable pub perform_all :
      {S : Type 0} → Operations R W E S → List Request → S → List Answer × S
  unfolding perform
  perform_all c [] s = ([], s)
  perform_all c (q ∷ qs) s =
      let (a, s') = perform c q s in let (as_, end) = perform_all c qs s' in (a ∷ as_, end)
