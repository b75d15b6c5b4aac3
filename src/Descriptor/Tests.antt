-- ===== src/Descriptor/Tests.antt =====
-- Connections to files of which the object number n has the handle n.
use flockwave_conn.Common.{codes, ◌≡◌, refl, true, false, none, some, List, [], ◌∷◌, inr}
use flockwave_conn.Common.Results.{ok, err}
use flockwave_conn.Connection.State.{set_state}
use flockwave_conn.Descriptor.State.{
  object, handle, Descriptor, new_descriptor, System, Stored, as_is, runtime_error, attach, detach,
}
use flockwave_conn.Descriptor.Operations.{Answers, read, write, flush, open_descriptor, close}
use flockwave_conn.Descriptor.Files.{FileSystem, get_fd_object, new_fd_connection}
use flockwave_conn.Descriptor.Laws.{IsLinked}
use flockwave_conn.Descriptor.Linked.{
  Request, open_request, close_request, read_request, write_request, perform_all,
  perform_all-IsLinked,
}

abbrev system : System
system = record { fdopen = λ n. ok (record { id = n; has_aclose = false }); fileno = λ f. ok f.id }

abbrev answers : Answers
answers = record { on_read = λ f n. ok []; on_write = λ f t. ok tt; on_flush = λ f. ok tt }

abbrev requests : List Request
requests =
    open_request system (ok (handle 5))
    ∷ write_request answers (codes "x")
    ∷ read_request answers none
    ∷ close_request system
    ∷ open_request system (err runtime_error)
    ∷ open_request system (ok (object (record { id = 6; has_aclose = true })))
    ∷ []

abbrev start : Descriptor
unfolding new_descriptor
start = new_descriptor true

start-IsLinked : IsLinked start
unfolding new_descriptor
start-IsLinked = record { settled = inr refl; has_object = refl; has_handle = refl; trail = refl }

handles :
    (perform_all requests start).changes ≡ (none, some 5) ∷ (some 5, none) ∷ (none, some 6) ∷ []
unfolding perform_all new_descriptor open_descriptor close attach detach set_state read write flush
handles = refl

perform_all-IsLinked_example : IsLinked (perform_all requests start)
perform_all-IsLinked_example = perform_all-IsLinked requests start start-IsLinked

abbrev file_five : Stored
file_five = as_is (record { id = 5; has_aclose = true })

abbrev opened : Descriptor
unfolding new_descriptor
opened = record start { file_object = some file_five; file_handle = some 5 }

abbrev files : FileSystem
files = record {
  open_file = λ p m. ok (record { id = 9; has_aclose = true });
  fdopen = λ n m. ok (record { id = n; has_aclose = false });
  stdin = record { id = 0; has_aclose = false };
  stdout = record { id = 1; has_aclose = false };
  stderr = record { id = 2; has_aclose = false };
}

-- A descriptor above the standard ones wants a mode.
mode_is_wanted : get_fd_object files (new_fd_connection 3 none false) ≡ err runtime_error
unfolding get_fd_object new_fd_connection new_descriptor
mode_is_wanted = refl
