-- ===== src/Multipart/Uploads/Answers.antt =====
-- The response to a body with uploads, in whatever order their files close.
use bluewing_cpp_server.Prelude.{codes, ℕ, true, false, some, ◌≡◌, refl, ◌∙◌, map}
use bluewing_cpp_server.HeapBuffer
use bluewing_cpp_server.Util.{begins_with}
use bluewing_cpp_server.Request.{Platform}
use bluewing_cpp_server.Request.Lifecycle.Answers.{Answered}
use bluewing_cpp_server.Multipart.Uploads.{
  content_type, Event, headers_complete, part_data, part_data_end, body_end, autosave_close,
  any_open, Multipart, UploadHooks, multipart_call_hook, on_autosave_close, closed, closed_current,
}
use bluewing_cpp_server.Multipart.Uploads.Hook.{neither, AreQuiet, Answers, handler-Answered}

-- No part is a multipart of its own.
abbrev pub IsPlain : Event → Type 0
IsPlain (content_type value) = begins_with value (codes "multipart") ≡ false
IsPlain (headers_complete upload) = Unit
IsPlain (part_data bytes) = Unit
IsPlain (part_data_end name) = Unit
IsPlain body_end = Unit
IsPlain (autosave_close address) = Unit

module _ (P : Platform) (K : Type 0) where
  -- When the file of an upload closes, and no other upload whose part has ended has an open file, the
  -- handler is called for the parts so far, and a response is sent, although the body may go on: `done` is
  -- not looked at. The hooks for an upload leave the response alone, the handler returns and finishes its
  -- request at most once, the retry behind a response finds nothing that waits, requests are finished
  -- automatically, the request before is finished, and the handler was not called before.
  pub on_autosave_close-early :
      (hooks : UploadHooks P K) (ctx : Multipart P K) (address : ℕ)
      → AreQuiet P K hooks
      → ctx.exchange.request.responded ≡ true
      → ctx.exchange.request.auto_finish ≡ true
      → ctx.called_handler ≡ false
      → any_open (map (closed address) ctx.uploads) ≡ false
      → (y : Multipart P K) × (on_autosave_close P K hooks ctx address ≡ some y)
        × (y.called_handler ≡ true)
        × (y.done ≡ ctx.done)
        × (y.uploads ≡ map (closed address) ctx.uploads)
        × Answered P ctx.exchange 1 true y.exchange
  unfolding on_autosave_close multipart_call_hook
  on_autosave_close-early hooks ctx address q r auto c o =
      let closing = record ctx {
        uploads = map (closed address) ctx.uploads;
        cur_upload = closed_current P K address ctx.cur_upload;
      } in
      let (y, e, after) = handler-Answered P K hooks closing q r auto in
      (
        record closing { called_handler = true; exchange = y },
        neither ctx.called_handler (any_open closing.uploads) _ _ _ c o ∙ e,
        refl,
        refl,
        refl,
        after,
      )
