-- ===== src/Middleware/Tests.antt =====
-- A connection that gives back what was written to it, alone and behind the middleware.
use flockwave_conn.Common.{ℕ, Text, none, codes, ◌≡◌, refl, List, [], some, ◌∷◌, ◌++◌}
use flockwave_conn.Middleware.Base.{
  Formatter, Outcome, returns, raises, sleeps_forever, Operations, read_line, written_line,
  read_only, write_only, logging, prefix_formatter, Request, opens, reads, writes, done, read_done,
  perform_all,
}
use flockwave_conn.Middleware.Format.{format_bytes, one, create}
use flockwave_conn.Middleware.Transparent.{transcript, logging_transparent}

abbrev take_first : List ℕ → Outcome ℕ ℕ × List ℕ
take_first [] = (raises 0, [])
take_first (n ∷ ns) = (returns n, ns)

abbrev echo : Operations ℕ ℕ ℕ (List ℕ)
echo = record {
  opening = λ s. (returns tt, s);
  closing = λ s. (returns tt, []);
  read = take_first;
  write = λ n s. (returns tt, s ++ n ∷ []);
}

abbrev show_number : Formatter ℕ ℕ
show_number n = ((n ∷ []) ∷ [], none)

abbrev show_read : Formatter ℕ ℕ
show_read = prefix_formatter show_number (codes "<")

abbrev program : List (Request ℕ ℕ ℕ)
program = opens ∷ writes 7 ∷ writes 8 ∷ reads ∷ []

read_only_hides_writes :
    (perform_all ℕ ℕ ℕ (read_only ℕ ℕ ℕ echo) program []).0
    ≡ done (returns tt) ∷ done (returns tt) ∷ done (returns tt) ∷ read_done (raises 0) ∷ []
unfolding perform_all read_only
read_only_hides_writes = refl

write_only_never_reads :
    (perform_all ℕ ℕ ℕ (write_only ℕ ℕ ℕ echo) program []).0
    ≡ done (returns tt) ∷ done (returns tt) ∷ done (returns tt) ∷ read_done sleeps_forever ∷ []
unfolding perform_all write_only
write_only_never_reads = refl

lines_logged :
    (perform_all ℕ ℕ ℕ (logging ℕ ℕ ℕ show_read show_number echo) program ([], [])).1.1
    ≡ written_line (7 ∷ []) ∷ written_line (8 ∷ []) ∷ read_line (60 ∷ 7 ∷ []) ∷ []
unfolding perform_all logging prefix_formatter
lines_logged = refl

logging_transparent_example :
    let (as_, s') = perform_all ℕ ℕ ℕ echo program [] in
    perform_all ℕ ℕ ℕ (logging ℕ ℕ ℕ show_read show_number echo) program ([], [])
    ≡ (as_, (s', [] ++ transcript ℕ ℕ ℕ show_read show_number program as_))
unfolding perform_all prefix_formatter
logging_transparent_example =
    logging_transparent ℕ ℕ ℕ show_read show_number echo program [] []
      (tt, (refl, (refl, (refl, tt))))

-- A hex dump of one line, and a line without a colon; the exception is the number 5.
abbrev dump_once : Formatter ℕ Text
dump_once bytes = ((codes "00000000: " ++ bytes) ∷ bytes ∷ [], none)

bytes_behind_addresses : format_bytes 5 dump_once (codes "abc") ≡ (codes " abc" ∷ [], some 5)
unfolding format_bytes
bytes_behind_addresses = refl

-- With a formatter that raises, what was read is lost, and nothing is written.
abbrev fails_to_show : Formatter ℕ ℕ
fails_to_show n = ([], some 5)

failing_formatter :
    perform_all ℕ ℕ ℕ
      (logging ℕ ℕ ℕ fails_to_show fails_to_show echo)
      (writes 7 ∷ reads ∷ [])
      (8 ∷ [], [])
    ≡ (done (raises 5) ∷ read_done (raises 5) ∷ [], ([], []))
unfolding perform_all logging
failing_formatter = refl

one_formatter_logs_both :
    (perform_all ℕ ℕ ℕ (create (one show_number) echo) program ([], [])).1.1
    ≡ written_line (7 ∷ []) ∷ written_line (8 ∷ []) ∷ read_line (7 ∷ []) ∷ []
unfolding perform_all create
one_formatter_logs_both = refl
