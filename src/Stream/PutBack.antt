-- ===== src/Stream/PutBack.antt =====
-- The rest of a head in front of a queue.
use bluewing_cpp_server.Prelude.{
  false, none, some, List, [], ◌∷◌, ◌++◌, ◌==◌, if◌then◌else◌, ◌>>=◌, Bytes, length, ◌≡◌, refl, sym,
  arith, inl, inr, All, Bool-cases, ap, ◌∙◌, nil_of_length,
}
use bluewing_cpp_server.Stream.{queued_data, queued_stream, Queued, Stream, data_item}
use bluewing_cpp_server.Stream.Write.{Result, put_back}
use bluewing_cpp_server.Stream.Order.{waiting, waiting-data, IsStored}
use bluewing_cpp_server.Stream.Free.{Free}

-- The queue with the rest of a head in its first item, or in front of it.
unfoldable pub put_first : Queued → List Queued → Bytes → List Queued
put_first q queue rest =
    if length q.buffer == 0
    then record q { buffer = q.buffer ++ rest } ∷ queue
    else data_item rest ∷ q ∷ queue

pub put_back-first :
    (q : Queued) (queue : List Queued) (rest : Bytes)
    → put_back (q ∷ queue) rest ≡ some (put_first q queue rest)
unfolding put_back put_first
put_back-first q queue rest = elim (Bool-cases (length q.buffer == 0)) [
  | inl e ↦ rw e refl
  | inr e ↦ rw e refl
]

put_first_empty :
    (q : Queued) (queue : List Queued) (rest : Bytes)
    → length q.buffer ≡ 0
    → put_first q queue rest ≡ record q { buffer = q.buffer ++ rest } ∷ queue
unfolding put_first
put_first_empty q queue rest e = rw e refl

in_front : (b rest behind : Bytes) → b ≡ [] → (b ++ rest) ++ behind ≡ rest ++ (b ++ behind)
in_front b rest behind e = rw e refl

unread :
    (q : Queued) (queue : List Queued)
    → q.type ≡ queued_stream
    → waiting (q ∷ queue) ≡ waiting queue
unread q queue d = rw d refl

pub waiting-put_first :
    (q : Queued) (queue : List Queued) (rest : Bytes)
    → q.type ≡ queued_data
    → waiting (put_first q queue rest) ≡ rest ++ waiting (q ∷ queue)
unfolding put_first
waiting-put_first q queue rest d = elim (Bool-cases (length q.buffer == 0)) [
  | inl e ↦
      let z : length q.buffer ≡ 0 = ground (arith, e) in
      ap waiting (put_first_empty q queue rest z)
      ∙ waiting-data (record q { buffer = q.buffer ++ rest }) queue d
      ∙ in_front q.buffer rest (waiting queue) (nil_of_length q.buffer z)
      ∙ ap (λ b. rest ++ b) (sym (waiting-data q queue d))
  | inr e ↦ rw e refl
]

pub All-IsStored-put_first :
    (q : Queued) (queue : List Queued) (rest : Bytes)
    → All IsStored (q ∷ queue)
    → All IsStored (put_first q queue rest)
unfolding put_first
All-IsStored-put_first q queue rest a = elim (Bool-cases (length q.buffer == 0)) [
  | inl e ↦ rw e a
  | inr e ↦ rw e (λ e. cc, a)
]

-- A source in front of the queue keeps the rest of a head in a buffer that is not written.
pub waiting-put_first_source :
    (q : Queued) (queue : List Queued) (rest : Bytes)
    → q.type ≡ queued_stream
    → length q.buffer ≡ 0
    → waiting (put_first q queue rest) ≡ waiting (q ∷ queue)
unfolding put_first
waiting-put_first_source q queue rest d e =
    ap waiting (put_first_empty q queue rest e)
    ∙ unread (record q { buffer = q.buffer ++ rest }) queue d
    ∙ sym (unread q queue d)

pub unqueued-Free : (s : Stream) → Free s → Free (record s { queueing = false })
unqueued-Free s f = record {
  steady = record {
    opened = f.steady.opened;
    idle = f.steady.idle;
    front_stored = f.steady.front_stored;
    back_stored = f.steady.back_stored;
  };
  alone = f.alone;
  no_front = f.no_front;
}

pub nothing_first :
    (rest : Bytes) (go_on : List Queued → Result) → (put_back [] rest >>= go_on) ≡ none
unfolding put_back
nothing_first rest go_on = refl

pub no_middle : (a b c : Bytes) → b ≡ [] → a ++ (b ++ c) ≡ a ++ c
no_middle a b c e = rw e refl
