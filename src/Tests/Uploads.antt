-- ===== src/Tests/Uploads.antt =====
-- multipart.c and upload.c: the parts of a body.
use bluewing_cpp_server.Prelude.{
  ℕ, true, false, Option, none, some, List, [], ◌∷◌, ◌++◌, ◌≡◌, refl, arith, inl, codes, map,
}
use bluewing_cpp_server.Request.Lifecycle.{Exchange}
use bluewing_cpp_server.Request.Lifecycle.Answers.{Answered, IsWellBehaved}
use bluewing_cpp_server.Multipart.Uploads.{
  content_type, Event, headers_complete, part_data, part_data_end, body_end, autosave_close, closed,
  any_open, Multipart, UploadHooks, on_autosave_close,
}
use bluewing_cpp_server.Multipart.Uploads.Hook.{AreQuiet, Keeps-refl, Answers}
use bluewing_cpp_server.Multipart.Uploads.Answers.{on_autosave_close-early}
use bluewing_cpp_server.Tests.Fixtures.{still, demo, idle}

-- A handler that writes "ok" and leaves the rest to the server.
abbrev approve : Exchange demo → Option (Exchange demo)
approve x = some (record x { queued = x.queued ++ codes "ok" })

approve-IsWellBehaved : IsWellBehaved demo approve
approve-IsWellBehaved x open_ = (
  record x { queued = x.queued ++ codes "ok" },
  refl,
  inl (record { responses = omega arith; finished = open_; auto = refl }),
)

-- Each upload goes to a file.
abbrev saving : UploadHooks demo ℕ
saving = record {
  client = still;
  new_child = λ value. none;
  process = λ k x b. (k, (x, 0));
  child_done = λ k. false;
  on_upload_start = λ u x. (x, true);
  on_upload_chunk = λ u b x. x;
  on_upload_done = λ u x. x;
  on_upload_post = some (λ uploads. approve);
}

saving-AreQuiet : AreQuiet demo ℕ saving
saving-AreQuiet = record {
  client = λ x. refl;
  start = λ u x. Keeps-refl demo ℕ x;
  chunk = λ u b x. Keeps-refl demo ℕ x;
  finish = λ u x. Keeps-refl demo ℕ x;
  post = λ uploads. approve-IsWellBehaved;
}

abbrev begun : Multipart demo ℕ
begun = record {
  exchange = idle;
  done = false;
  called_handler = false;
  parsing_headers = true;
  child = none;
  cur_upload = none;
  uploads = [];
}

-- A text item and an upload, whose file closes behind the body.
abbrev parts : List Event
parts =
    content_type (codes "text/plain")
    ∷ headers_complete none
    ∷ part_data (codes "a")
    ∷ part_data_end (codes "x")
    ∷ headers_complete (some 100)
    ∷ part_data (codes "b")
    ∷ part_data_end (codes "y")
    ∷ body_end
    ∷ autosave_close 100
    ∷ []

-- Behind the first of two uploads.
abbrev half : Multipart demo ℕ
half = record begun { uploads = record { address = 100; autosave_file = true } ∷ [] }

all_closed : any_open (map (closed 100) half.uploads) ≡ false
unfolding any_open closed
all_closed = refl

on_autosave_close-early_example :
    (y : Multipart demo ℕ) × (on_autosave_close demo ℕ saving half 100 ≡ some y)
    × (y.called_handler ≡ true)
    × (y.done ≡ false)
    × (y.uploads ≡ map (closed 100) half.uploads)
    × Answered demo idle 1 true y.exchange
on_autosave_close-early_example =
    on_autosave_close-early demo ℕ saving half 100 saving-AreQuiet refl refl refl all_closed
