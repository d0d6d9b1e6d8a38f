-- ===== src/HttpClient/Pieces.antt =====
-- The header lines of a client, whatever pieces the data come in.
use bluewing_cpp_server.Prelude.{
  ℕ, true, false, [], ◌∷◌, ◌++◌, if◌then◌else◌, Bytes, length, ◌≡◌, List,
}
use bluewing_cpp_server.HttpClient.{Connection, Lines, closed, stopped, is_line_end, header_lines}

abbrev pub HasNoEnd : Bytes → Type 0
HasNoEnd [] = Unit
HasNoEnd (b ∷ line) = (is_line_end b ≡ false) × HasNoEnd line

-- A client whose parser, while it parses headers and is given one line, pauses only at the end of the
-- line, with the head of the next request to come: on_message_complete of http-parse.c pauses it so. Of
-- the pauses in other data, which a body may stand in, nothing is said.
pub record Pauses {C : Type 0} (K : Connection C) : Type 0 where
  pub takes_line :
      (c : C) (line : Bytes) (b : ℕ)
      → K.parsing_headers c ≡ true
      → HasNoEnd line
      → is_line_end b ≡ true
      → K.is_paused (K.execute c (line ++ b ∷ [])).1 ≡ true
      → (K.execute c (line ++ b ∷ [])).0 ≡ length (line ++ b ∷ [])
  pub next_head :
      (c : C) (line : Bytes) (b : ℕ)
      → K.parsing_headers c ≡ true
      → HasNoEnd line
      → is_line_end b ≡ true
      → K.is_paused (K.execute c (line ++ b ∷ [])).1 ≡ true
      → K.parsing_headers (K.unpause (K.execute c (line ++ b ∷ [])).1) ≡ true

module _ {C : Type 0} (K : Connection C) where
  -- What comes of further data, where the loop has ended: the data that it has not taken come again,
  -- with these behind them.
  unfoldable pub go_on : Lines C → Bytes → Lines C
  go_on (closed c) more = closed c
  go_on (stopped c processed behind) more =
      if K.parsing_headers c
      then header_lines K c processed [] (behind ++ more)
      else stopped c processed (behind ++ more)

  -- One call for each piece.
  unfoldable pub each_piece : Lines C → List Bytes → Lines C
  each_piece lines [] = lines
  each_piece lines (a ∷ pieces) = each_piece (go_on lines a) pieces
