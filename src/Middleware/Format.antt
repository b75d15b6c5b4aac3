-- ===== src/Middleware/Format.antt =====
-- The formatter of bytes and `LoggingMiddleware.create` (src/flockwave/connections/middleware/log.py).
-- The hex dump library is a parameter: the lines that `hexdump(obj, "generator")` yields, and the exception
-- that it raises, if it does.
use flockwave_conn.Common.{
  ℕ, suc, Text, ◌≡◌, ◌≢◌, refl, ap, Option, none, some, List, [], ◌∷◌, ◌++◌, map, arith, ◌==◌,
  if◌then◌else◌, length, drop, All,
}
use flockwave_conn.Middleware.Base.{Formatter, Operations, Line, logging}

-- `line.find(":")`
abbrev shift : Option ℕ → Option ℕ
shift none = none
shift (some i) = some (suc i)

unfoldable find_colon : Text → Option ℕ
find_colon [] = none
find_colon (c ∷ s) = if c == 58 then some 0 else shift (find_colon s)

-- `line[line.index(":") + 1 :]`; `none` is the ValueError of a line without a colon.
after_colon : Option ℕ → Text → Option Text
after_colon none line = none
after_colon (some i) line = some (drop (suc i) line)

unfoldable format_line : Text → Option Text
unfolding after_colon find_colon
format_line line = after_colon (find_colon line) line

-- The lines up to the first without a colon, and the ValueError or what ended the lines before it.
keep_formatted : {E : Type 0} → E → List (Option Text) → Option E → List Text × Option E
keep_formatted value_error [] ended = ([], ended)
keep_formatted value_error (none ∷ rest) ended = ([], some value_error)
keep_formatted value_error (some line ∷ rest) ended =
    let (lines, e) = keep_formatted value_error rest ended in (line ∷ lines, e)

-- `format_bytes_for_logging`, of an object of any type, for which the dump may raise.
unfoldable pub format_bytes : {E A : Type 0} → E → Formatter E A → Formatter E A
unfolding format_line keep_formatted
format_bytes value_error hexdump obj =
    let (lines, ended) = hexdump obj in keep_formatted value_error (map format_line lines) ended

abbrev NoColon : Text → Type 0
NoColon t = All (λ c. c ≢ 58) t

find_colon-append : (s t : Text) → NoColon s → find_colon (s ++ 58 ∷ t) ≡ some (length s)
unfolding find_colon
find_colon-append [] t h = refl
find_colon-append (c ∷ s) t h = ground (arith, find_colon-append s t h.1)

drop-colon : (s t : Text) → drop (suc (length s)) (s ++ 58 ∷ t) ≡ t
drop-colon [] t = refl
drop-colon (c ∷ s) t = drop-colon s t

-- A line with an address, a colon and a rest.
abbrev addressed : Text × Text → Text
addressed (address, rest) = address ++ 58 ∷ rest

format_line-addressed : (a t : Text) → NoColon a → format_line (addressed (a, t)) ≡ some t
unfolding format_line
format_line-addressed a t h = rw (find_colon-append a t h) (ap some (drop-colon a t))

format_lines :
    {E : Type 0} (value_error : E) (ls : List (Text × Text)) (ended : Option E)
    → All (λ l. NoColon l.0) ls
    → keep_formatted value_error (map format_line (map addressed ls)) ended
      ≡ (map (λ l. l.1) ls, ended)
unfolding keep_formatted
format_lines value_error [] ended h = refl
format_lines value_error ((a, t) ∷ ls) ended h =
    rw (format_line-addressed a t h.0, format_lines value_error ls ended h.1)

-- If each line of the dump is an address without a colon, a colon and a rest, then the formatter of
-- bytes gives the rests, and raises only what the dump raises.
format_bytes_lem :
    {E A : Type 0} (value_error : E) (hexdump : Formatter E A) (obj : A) (ls : List (Text × Text))
    (ended : Option E)
    → hexdump obj ≡ (map addressed ls, ended)
    → All (λ l. NoColon l.0) ls
    → format_bytes value_error hexdump obj ≡ (map (λ l. l.1) ls, ended)
unfolding format_bytes
format_bytes_lem value_error hexdump obj ls ended made h =
    rw made (format_lines value_error ls ended h)

-- An argument that is given once for both directions, or for reading and for writing.
pub data OneOrTwo (A : Type 0) : Type 0 where
  one : A → OneOrTwo A
  two : A → A → OneOrTwo A

unfoldable pub both_of : {A : Type 0} → OneOrTwo A → A × A
both_of (one a) = (a, a)
both_of (two a b) = (a, b)

-- `LoggingMiddleware.create` for one type of data, applied to a connection. The writers are the two
-- kinds of lines.
unfoldable pub create :
    {A E S : Type 0}
    → OneOrTwo (Formatter E A)
    → Operations A A E S
    → Operations A A E (S × List Line)
unfolding both_of logging
create {A} {E} formatter c = logging A A E (both_of formatter).0 (both_of formatter).1 c
