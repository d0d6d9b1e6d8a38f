-- ===== src/HttpClient.antt =====
-- webserver/http/http-client.c: what the stream of an HTTP client does with the data that come in. The
-- children Callbacks, Head and Requests have http-parse.c.
pub mod Sink
pub mod Pieces
pub mod Callbacks
pub mod Head
pub mod Requests
use bluewing_cpp_server.Prelude.{
  ℕ, ◌+◌, ◌-◌, Bool, true, false, not, ◌&&◌, ◌||◌, [], ◌∷◌, ◌++◌, ltb, ◌==◌, if◌then◌else◌, Bytes,
  length, take, drop,
}

-- What the sink uses of its client: `execute` is http_parser_execute of the http-parser library with
-- the callbacks, which returns how much it has parsed.
pub record Connection (C : Type 0) : Type 0 where
  pub execute : C → Bytes → ℕ × C
  pub responded : C → Bool
  pub parsing_headers : C → Bool
  pub is_paused : C → Bool
  pub upgrade : C → Bool
  pub signal_eof : C → Bool
  pub touch : C → C
  pub unpause : C → C
  pub clear_eof : C → C
  pub close : C → C

-- Where the loop over the header lines ends: with a closed socket, or behind so many bytes, before
-- these.
pub data Lines (C : Type 0) : Type 0 where
  closed : C → Lines C
  stopped : C → ℕ → Bytes → Lines C

abbrev pub is_line_end : ℕ → Bool
is_line_end b = b == 13 || b == 10

module _ {C : Type 0} (K : Connection C) where
  -- The loop over `i`: `line` is what stands between `processed` and `i`.
  unfoldable pub header_lines : C → ℕ → Bytes → Bytes → Lines C
  header_lines c processed line [] = stopped c processed line
  header_lines c processed line (b ∷ behind) =
      let chunk = line ++ b ∷ [] in
      let (parsed, d) = K.execute c chunk in
      let kept = drop parsed chunk in
      let resumed = header_lines (K.unpause d) (processed + parsed) kept behind in
      let went_on = header_lines d (processed + parsed) kept behind in
      let waits = header_lines c processed chunk behind in
      if not (is_line_end b)
      then waits
      else if K.is_paused d
      then resumed
      else if not (parsed == length chunk) || K.upgrade d
      then closed (K.close d)
      else if not (K.parsing_headers d)
      then stopped d (processed + parsed) (kept ++ behind)
      else went_on

  -- The call behind `signal_eof`
  unfoldable pub finish : ℕ → C → ℕ × C
  finish processed c =
      let (parsed, d) = K.execute c [] in
      if K.signal_eof c then (processed, K.clear_eof d) else (processed, c)

  -- The body, behind so many bytes of a buffer of this size.
  unfoldable pub sink_body : ℕ → C → ℕ → Bytes → ℕ × C
  unfolding finish
  sink_body size c processed behind =
      let (parsed, d) = K.execute c behind in
      if K.is_paused d
      then finish (processed + parsed) (K.unpause d)
      else if not (parsed == length behind) || K.upgrade d
      then (size, K.close d)
      else finish (processed + parsed) d

  -- Behind the loop over the header lines.
  unfoldable pub after_lines : ℕ → Lines C → ℕ × C
  unfolding sink_body
  after_lines size (closed c) = (size, c)
  after_lines size (stopped c processed behind) =
      if K.parsing_headers c
      then (processed, c)
      else if processed == size
      then (processed, c)
      else sink_body size c processed behind

  -- def_sink_data; every path returns in the first round of its loop.
  unfoldable pub def_sink_data : C → Bytes → ℕ × C
  unfolding header_lines after_lines sink_body
  def_sink_data old buffer =
      let c = K.touch old in
      if not (K.responded c)
      then (0, c)
      else if length buffer == 0
      then (0, c)
      else if K.parsing_headers c
      then after_lines (length buffer) (header_lines c 0 [] buffer)
      else sink_body (length buffer) c 0 buffer

  -- client_tick, with the time that has passed since the last activity
  unfoldable pub client_tick : ℕ → ℕ → C → C
  client_tick timeout idle c = if K.responded c && ltb timeout idle then K.close c else c
