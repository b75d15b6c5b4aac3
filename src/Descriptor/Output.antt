-- ===== src/Descriptor/Output.antt =====
-- What a write of FDConnectionBase makes of its file, and the descriptors that FDConnection opens.
use flockwave_conn.Common.{
  Text, ◌≡◌, Bool, some, List, [], ◌∷◌, ◌++◌, append_assoc, append-nil, arith, if◌then◌else◌,
}
use flockwave_conn.Common.Results.{ok}
use flockwave_conn.Descriptor.State.{Stored, FileCall, writes, flushes, Descriptor}
use flockwave_conn.Descriptor.Operations.{Answers, write, flush}

-- The writes and the flushes of a list of data, written one after another to an object.
abbrev pub write_all : Answers → List Text → Descriptor → Descriptor
write_all answers [] d = d
write_all answers (t ∷ ts) d = write_all answers ts (write answers t d).1

abbrev pub calls_of : Bool → Stored → List Text → List (Stored × FileCall)
calls_of autoflush obj [] = []
calls_of autoflush obj (t ∷ ts) =
    (if autoflush then (obj, writes t) ∷ (obj, flushes) ∷ [] else (obj, writes t) ∷ [])
    ++ calls_of autoflush obj ts

module _ (answers : Answers) (obj : Stored) where
  -- One write that the object accepts.
  write_one :
      (t : Text) (d : Descriptor)
      → d.file_object ≡ some obj
      → answers.on_write obj t ≡ ok tt
      → (write answers t d).1 ≡ record d {
        calls =
            d.calls
            ++ (if d.autoflush
                then (obj, writes t) ∷ (obj, flushes) ∷ []
                else (obj, writes t) ∷ []);
      }
  unfolding write flush
  write_one t d there fine =
      ground (arith, append_assoc d.calls ((obj, writes t) ∷ []) ((obj, flushes) ∷ []))

  -- While the file object of a connection accepts what is written to it, the data is written in order,
  -- each piece followed by one flush if `autoflush` is set and by none if it is not; nothing else of
  -- the connection changes.
  write_all_lem :
      (ts : List Text) (d : Descriptor)
      → d.file_object ≡ some obj
      → ((t : Text) → answers.on_write obj t ≡ ok tt)
      → write_all answers ts d ≡ record d { calls = d.calls ++ calls_of d.autoflush obj ts }
  write_all_lem [] d there fine = rw append-nil
  write_all_lem (t ∷ ts) d there fine = rw (write_one t d there (fine t)) (
      rw
        (write_all_lem ts
          (record d {
            calls =
                d.calls
                ++ (if d.autoflush
                    then (obj, writes t) ∷ (obj, flushes) ∷ []
                    else (obj, writes t) ∷ []);
          })
          there fine)
        (rw append_assoc))
