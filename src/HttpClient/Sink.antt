-- ===== src/HttpClient/Sink.antt =====
-- What the parser sees of the data that the sink takes.
use bluewing_cpp_server.Prelude.{
  ℕ, zero, suc, ◌+◌, ◌≤◌, Bool, true, false, not, ◌||◌, [], ◌∷◌, ◌++◌, ◌==◌, if◌then◌else◌, Bytes,
  length, take, drop, ◌≡◌, refl, sym, arith, inl, inr, ◌⊎◌, ap, ◌∙◌, subst, append_assoc,
  append-nil, take-append-drop, length-append, length-take, take-append,
}
use bluewing_cpp_server.HttpClient.{
  Connection, Lines, closed, stopped, is_line_end, header_lines, finish, sink_body, after_lines,
  def_sink_data,
}

-- The data that a client's parser has parsed, and whether its socket was closed: the parser parses no
-- more than it is given, and nothing else of the client touches either.
pub record Records {C : Type 0} (K : Connection C) : Type 0 where
  pub seen : C → Bytes
  pub is_closed : C → Bool
  pub parsed_all : (c : C) (b : Bytes) → seen (K.execute c b).1 ≡ seen c ++ take (K.execute c b).0 b
  pub parsed_bound : (c : C) (b : Bytes) → (K.execute c b).0 ≤ length b
  pub touch_seen : (c : C) → seen (K.touch c) ≡ seen c
  pub unpause_seen : (c : C) → seen (K.unpause c) ≡ seen c
  pub clear_eof_seen : (c : C) → seen (K.clear_eof c) ≡ seen c
  pub close_closed : (c : C) → is_closed (K.close c) ≡ true

take_nil : (n : ℕ) → take {A = ℕ} n [] ≡ []
take_nil zero = refl
take_nil (suc n) = refl

module _ {C : Type 0} (K : Connection C) (R : Records K) where
  -- The parser has seen the first so many bytes, and what is left is the rest.
  pub record Upto (old c : C) (buffer : Bytes) (processed : ℕ) (behind : Bytes) : Type 0 where
    pub sees : Bytes
    pub was_seen : R.seen c ≡ R.seen old ++ sees
    pub count : length sees ≡ processed
    pub rest : sees ++ behind ≡ buffer

  abbrev pub LinesUpto : C → Bytes → Lines C → Type 0
  LinesUpto old buffer (closed c) = R.is_closed c ≡ true
  LinesUpto old buffer (stopped c processed behind) = Upto old c buffer processed behind

  execute-Upto :
      (old c : C) (buffer : Bytes) (processed : ℕ) (chunk behind : Bytes)
      → Upto old c buffer processed (chunk ++ behind)
      → let (parsed, d) = K.execute c chunk in
        Upto old d buffer (processed + parsed) (drop parsed chunk ++ behind)
  execute-Upto old c buffer processed chunk behind u =
      let parsed = (K.execute c chunk).0 in
      record {
        sees = u.sees ++ take parsed chunk;
        was_seen =
            R.parsed_all c chunk
            ∙ ap (λ b. b ++ take parsed chunk) u.was_seen
            ∙ append_assoc (R.seen old) u.sees (take parsed chunk);
        count = omega (
          arith,
          length-append u.sees (take parsed chunk),
          length-take parsed chunk,
          R.parsed_bound c chunk,
          u.count,
        );
        rest =
            append_assoc u.sees (take parsed chunk) (drop parsed chunk ++ behind)
            ∙ ap (λ b. u.sees ++ b)
                (sym (append_assoc (take parsed chunk) (drop parsed chunk) behind)
                  ∙ ap (λ b. b ++ behind) (take-append-drop parsed chunk))
            ∙ u.rest;
      }

  unpause-Upto :
      (old c : C) (buffer : Bytes) (processed : ℕ) (behind : Bytes)
      → Upto old c buffer processed behind
      → Upto old (K.unpause c) buffer processed behind
  unpause-Upto old c buffer processed behind u = record {
    sees = u.sees;
    was_seen = R.unpause_seen c ∙ u.was_seen;
    count = u.count;
    rest = u.rest;
  }

  LinesUpto-if :
      (b : Bool) (old : C) (buffer : Bytes) (x y : Lines C)
      → LinesUpto old buffer x
      → LinesUpto old buffer y
      → LinesUpto old buffer (if b then x else y)
  LinesUpto-if true old buffer x y k l = k
  LinesUpto-if false old buffer x y k l = l

  header_lines-LinesUpto :
      (old c : C) (buffer : Bytes) (processed : ℕ) (line behind : Bytes)
      → Upto old c buffer processed (line ++ behind)
      → LinesUpto old buffer (header_lines K c processed line behind)
  unfolding header_lines
  header_lines-LinesUpto old c buffer processed line [] u =
      subst (λ b. Upto old c buffer processed b) (append-nil line) u
  header_lines-LinesUpto old c buffer processed line (b ∷ behind) u =
      let chunk = line ++ b ∷ [] in
      let (parsed, d) = K.execute c chunk in
      let w : Upto old c buffer processed (chunk ++ behind) =
        subst (λ x. Upto old c buffer processed x) (sym (append_assoc line (b ∷ []) behind)) u in
      let v = execute-Upto old c buffer processed chunk behind w in
      LinesUpto-if (not (is_line_end b)) old buffer _ _
        (header_lines-LinesUpto old c buffer processed chunk behind w)
        (LinesUpto-if (K.is_paused d) old buffer _ _
          (header_lines-LinesUpto old (K.unpause d) buffer (processed + parsed) (drop parsed chunk)
            behind (unpause-Upto old d buffer (processed + parsed) (drop parsed chunk ++ behind) v))
          (LinesUpto-if (not (parsed == length chunk) || K.upgrade d) old buffer _ _
            (R.close_closed d)
            (LinesUpto-if (not (K.parsing_headers d)) old buffer _ _ v (
              header_lines-LinesUpto old d buffer (processed + parsed) (drop parsed chunk) behind
                v))))

  -- The socket was closed, or the parser has seen as many bytes of the buffer as are reported.
  abbrev pub Sinks : C → Bytes → ℕ × C → Type 0
  Sinks old buffer (n, c) =
      (R.is_closed c ≡ true) ⊎ ((n ≤ length buffer) × (R.seen c ≡ R.seen old ++ take n buffer))

  Sinks-if :
      (b : Bool) (old : C) (buffer : Bytes) (x y : ℕ × C)
      → Sinks old buffer x
      → Sinks old buffer y
      → Sinks old buffer (if b then x else y)
  Sinks-if true old buffer x y k l = k
  Sinks-if false old buffer x y k l = l

  Upto-Sinks :
      (old c : C) (buffer : Bytes) (processed : ℕ) (behind : Bytes)
      → Upto old c buffer processed behind
      → Sinks old buffer (processed, c)
  Upto-Sinks old c buffer processed behind u =
      let l : length (u.sees ++ behind) ≡ length buffer = ap length u.rest in
      inr (
        omega (arith, l, length-append u.sees behind, u.count),
        u.was_seen
            ∙ ap (λ b. R.seen old ++ b)
                (sym (take-append u.sees behind)
                  ∙ ap (λ b. take (length u.sees) b) u.rest
                  ∙ ap (λ k. take k buffer) u.count),
      )

  eof-Upto :
      (old c : C) (buffer : Bytes) (processed : ℕ) (behind : Bytes)
      → Upto old c buffer processed behind
      → Upto old (K.clear_eof (K.execute c []).1) buffer processed behind
  eof-Upto old c buffer processed behind u = record {
    sees = u.sees;
    was_seen =
        R.clear_eof_seen (K.execute c []).1
        ∙ R.parsed_all c []
        ∙ ap (λ b. R.seen c ++ b) (take_nil (K.execute c []).0)
        ∙ append-nil (R.seen c)
        ∙ u.was_seen;
    count = u.count;
    rest = u.rest;
  }

  finish-Sinks :
      (old c : C) (buffer : Bytes) (processed : ℕ) (behind : Bytes)
      → Upto old c buffer processed behind
      → Sinks old buffer (finish K processed c)
  unfolding finish
  finish-Sinks old c buffer processed behind u =
      Sinks-if (K.signal_eof c) old buffer _ _
        (Upto-Sinks old (K.clear_eof (K.execute c []).1) buffer processed behind
          (eof-Upto old c buffer processed behind u))
        (Upto-Sinks old c buffer processed behind u)

  sink_body-Sinks :
      (old c : C) (buffer : Bytes) (processed : ℕ) (behind : Bytes)
      → Upto old c buffer processed behind
      → Sinks old buffer (sink_body K (length buffer) c processed behind)
  unfolding sink_body
  sink_body-Sinks old c buffer processed behind u =
      let (parsed, d) = K.execute c behind in
      let v : Upto old d buffer (processed + parsed) (drop parsed behind ++ []) =
        execute-Upto old c buffer processed behind []
          (subst (λ b. Upto old c buffer processed b) (sym (append-nil behind)) u) in
      Sinks-if (K.is_paused d) old buffer _ _
        (finish-Sinks old (K.unpause d) buffer (processed + parsed) (drop parsed behind ++ [])
          (unpause-Upto old d buffer (processed + parsed) (drop parsed behind ++ []) v))
        (Sinks-if (not (parsed == length behind) || K.upgrade d) old buffer _ _
          (inl (R.close_closed d))
          (finish-Sinks old d buffer (processed + parsed) (drop parsed behind ++ []) v))

  after_lines-Sinks :
      (old : C) (buffer : Bytes) (lines : Lines C)
      → LinesUpto old buffer lines
      → Sinks old buffer (after_lines K (length buffer) lines)
  unfolding after_lines
  after_lines-Sinks old buffer (closed c) u = inl u
  after_lines-Sinks old buffer (stopped c processed behind) u =
      Sinks-if (K.parsing_headers c) old buffer _ _ (Upto-Sinks old c buffer processed behind u) (
        Sinks-if (processed == length buffer) old buffer _ _
          (Upto-Sinks old c buffer processed behind u)
          (sink_body-Sinks old c buffer processed behind u))

  -- Whatever comes in, the sink returns; unless it has closed the socket, the parser has then parsed,
  -- once and in order, just the bytes that the sink reports as taken, and these are not more than it
  -- was given.
  pub def_sink_data-Sinks :
      (old : C) (buffer : Bytes) → Sinks old buffer (def_sink_data K old buffer)
  unfolding def_sink_data
  def_sink_data-Sinks old buffer =
      let c = K.touch old in
      let start : Upto old c buffer 0 buffer = record {
        sees = [];
        was_seen = R.touch_seen old ∙ sym (append-nil (R.seen old));
        count = refl;
        rest = refl;
      } in
      Sinks-if (not (K.responded c)) old buffer _ _ (Upto-Sinks old c buffer 0 buffer start) (
        Sinks-if (length buffer == 0) old buffer _ _ (Upto-Sinks old c buffer 0 buffer start) (
          Sinks-if (K.parsing_headers c) old buffer _ _
            (after_lines-Sinks old buffer (header_lines K c 0 [] buffer)
              (header_lines-LinesUpto old c buffer 0 [] buffer start))
            (sink_body-Sinks old c buffer 0 buffer start)))
