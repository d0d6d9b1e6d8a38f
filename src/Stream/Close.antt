-- ===== src/Stream/Close.antt =====
-- lw_stream_close, for the stream itself: its links, its close hooks and its flags.
use bluewing_cpp_server.Prelude.{
  Bool, true, false, not, ◌&&◌, Option, none, some, [], ◌++◌, if◌then◌else◌,
}
use bluewing_cpp_server.Stream.{Stream, StreamDef, may_close}

abbrev pub agrees : Option (Bool → Bool) → Bool → Bool
agrees none immediate = true
agrees (some close) immediate = close immediate

module _ (E : StreamDef) where
  -- The result is `none` where the assertion on an immediate close fails.
  unfoldable pub close : Stream → Bool → Option (Stream × Bool)
  close s immediate =
      if s.closing
      then some (s, false)
      else if not immediate && not (may_close s)
      then some (record s { close_asap = true }, false)
      else if s.dead
      then some (s, true)
      else if not (agrees E.close immediate)
      then (if immediate then none else some (s, false))
      else some (
        record s { prev = []; hooks_called = s.hooks_called ++ s.close_hooks; closing = false },
        true,
      )
