-- ===== src/Multipart/Uploads.antt =====
-- Lacewing/src/webserver/multipart.c and upload.c: the parts of a body that is not itself a part, and the
-- hook that is called behind them. Of the content-disposition the callbacks carry what they read of it.
pub mod Hook
pub mod Answers
use bluewing_cpp_server.Prelude.{
  ℕ, Bool, true, false, not, ◌||◌, Option, none, some, List, [], ◌∷◌, ◌++◌, map, ◌==◌,
  if◌then◌else◌, ◌>>=◌, Bytes, codes, length,
}
use bluewing_cpp_server.HeapBuffer
use bluewing_cpp_server.NvHash
use bluewing_cpp_server.Util.{begins_with}
use bluewing_cpp_server.Request.{Platform, Request}
use bluewing_cpp_server.Request.Lifecycle.{
  Client, Exchange, Handler, before_handler, after_handler, run,
}

-- `struct _lw_ws_upload`: its address, and whether it has an autosave file.
pub record Upload : Type 0 where
  pub address : ℕ
  pub autosave_file : Bool

-- Whether an upload of the list has a file.
unfoldable pub any_open : List Upload → Bool
any_open [] = false
any_open (u ∷ uploads) = u.autosave_file || any_open uploads

unfoldable pub closed : ℕ → Upload → Upload
closed address u = if u.address == address then record u { autosave_file = false } else u

-- What calls back: `content_type` is that header of a part, `headers_complete` has the address of a new upload where the part has a file name,
-- `part_data_end` the name of the part, and `autosave_close` the upload whose file has closed, in the
-- call that closes it or later.
pub data Event : Type 0 where
  content_type : Bytes → Event
  headers_complete : Option ℕ → Event
  part_data : Bytes → Event
  part_data_end : Bytes → Event
  body_end : Event
  autosave_close : ℕ → Event

module _ (P : Platform) (K : Type 0) where
  -- `struct _lwp_ws_multipart`, with the request that it fills; `child` is for a part that is a multipart
  -- of its own.
  pub record Multipart : Type 0 where
    pub exchange : Exchange P
    pub done : Bool
    pub called_handler : Bool
    pub parsing_headers : Bool
    pub child : Option K
    pub cur_upload : Option Upload
    pub uploads : List Upload

  -- The upload hooks of the webserver, and the operations of a child: lwp_ws_multipart_new, and
  -- lwp_ws_multipart_process, which fills the same request, may call the hook, and returns how much it has
  -- taken. The hook for the start of an upload also says whether it has called
  -- lw_ws_upload_set_autosave.
  pub record UploadHooks : Type 0 where
    pub client : Client P
    pub new_child : Bytes → Option K
    pub process : K → Exchange P → Bytes → K × (Exchange P × ℕ)
    pub child_done : K → Bool
    pub on_upload_start : Upload → Exchange P → Exchange P × Bool
    pub on_upload_chunk : Upload → Bytes → Exchange P → Exchange P
    pub on_upload_done : Upload → Exchange P → Exchange P
    pub on_upload_post : Option (List Upload → Handler P)

  abbrev pub post_handler : Option (List Upload → Handler P) → List Upload → Option (Handler P)
  post_handler none uploads = none
  post_handler (some h) uploads = some (h uploads)

  -- The second half of lwp_ws_multipart_call_hook; `none` is a failed assertion.
  unfoldable pub call_handler : UploadHooks → Multipart → Option Multipart
  call_handler hooks ctx = do
    b ← before_handler P ctx.exchange
    y ← run P (post_handler hooks.on_upload_post ctx.uploads) b >>= after_handler P hooks.client
    some (record ctx { called_handler = true; exchange = y })

  -- lwp_ws_multipart_call_hook
  unfoldable pub multipart_call_hook : UploadHooks → Multipart → Option Multipart
  unfolding call_handler
  multipart_call_hook hooks ctx =
      let called = call_handler hooks ctx in
      if ctx.called_handler then some ctx else if any_open ctx.uploads then some ctx else called

  abbrev pub with_buffer : Exchange P → Option HeapBuffer.HeapBuffer → Exchange P
  with_buffer x buffer = record x { request = record x.request { buffer = buffer } }

  unfoldable pub on_headers_complete : UploadHooks → Multipart → Option ℕ → Multipart
  on_headers_complete hooks ctx none = record ctx {
    parsing_headers = false;
    exchange = with_buffer ctx.exchange (HeapBuffer.reset ctx.exchange.request.buffer);
  }
  on_headers_complete hooks ctx (some address) =
      let reset = with_buffer ctx.exchange (HeapBuffer.reset ctx.exchange.request.buffer) in
      let fresh : Upload = record { address = address; autosave_file = false } in
      let (exchange, autosave) = hooks.on_upload_start fresh reset in
      record ctx {
        parsing_headers = false;
        exchange = exchange;
        cur_upload = some (record fresh { autosave_file = autosave });
      }

  -- The callback for a content type, of those for headers.
  unfoldable pub on_content_type : UploadHooks → Multipart → Bytes → Multipart
  on_content_type hooks ctx value =
      if begins_with value (codes "multipart")
      then record ctx { child = hooks.new_child value }
      else ctx

  -- What on_part_data does behind its child, by the upload of the part.
  unfoldable pub take_data : UploadHooks → Multipart → Option Upload → Bytes → Multipart
  take_data hooks ctx none bytes = record ctx {
    exchange =
        with_buffer ctx.exchange
          (HeapBuffer.add P.alloc ctx.exchange.request.buffer bytes (length bytes)).0;
  }
  take_data hooks ctx (some upload) bytes =
      if upload.autosave_file
      then ctx
      else record ctx { exchange = hooks.on_upload_chunk upload bytes ctx.exchange }

  -- A callback's multipart, and whether it returns 0; `none` is a failed assertion or a null pointer.
  abbrev pub Called : Type 0
  Called = Option (Multipart × Bool)

  -- The child of the part gets the data first; where it goes on, they are taken as well.
  unfoldable pub on_part_data : UploadHooks → Multipart → Option K → Bytes → Called
  unfolding take_data
  on_part_data hooks ctx none bytes = some (take_data hooks ctx ctx.cur_upload bytes, true)
  on_part_data hooks ctx (some child) bytes =
      let (after, (exchange, taken)) = hooks.process child ctx.exchange bytes in
      let fed = record ctx { exchange = exchange; child = some after } in
      let gone = record ctx { exchange = exchange; child = none } in
      if not (taken == length bytes)
      then some (gone, false)
      else if hooks.child_done after
      then some (gone, true)
      else some (take_data hooks fed ctx.cur_upload bytes, true)

  -- A part without a file name becomes an item of the request.
  unfoldable pub add_item : Exchange P → Bytes → Option (Exchange P)
  add_item x name =
      let ended = (HeapBuffer.add P.alloc x.request.buffer (0 ∷ []) 1).0 in
      HeapBuffer.buffer ended >>= (λ value. some (record x {
        request = record x.request {
          post_items = NvHash.set P.names x.request.post_items name value true;
          buffer = HeapBuffer.reset ended;
        };
      }))

  unfoldable pub on_part_data_end :
      UploadHooks → Multipart → Option Upload → Bytes → Option Multipart
  unfolding add_item
  on_part_data_end hooks ctx none name =
      add_item ctx.exchange name
      >>= (λ x. some (record ctx { parsing_headers = true; exchange = x }))
  on_part_data_end hooks ctx (some upload) name = some (record ctx {
    parsing_headers = true;
    uploads = ctx.uploads ++ upload ∷ [];
    exchange =
        if upload.autosave_file then ctx.exchange else hooks.on_upload_done upload ctx.exchange;
    cur_upload = none;
  })

  unfoldable pub on_body_end : UploadHooks → Multipart → Option Multipart
  unfolding multipart_call_hook
  on_body_end hooks ctx = multipart_call_hook hooks (record ctx { done = true })

  abbrev pub closed_current : ℕ → Option Upload → Option Upload
  closed_current address none = none
  closed_current address (some u) = some (closed address u)

  unfoldable pub on_autosave_close : UploadHooks → Multipart → ℕ → Option Multipart
  unfolding multipart_call_hook
  on_autosave_close hooks ctx address = multipart_call_hook hooks (record ctx {
    uploads = map (closed address) ctx.uploads;
    cur_upload = closed_current address ctx.cur_upload;
  })

  abbrev pub returned : Option Multipart → Called
  returned none = none
  returned (some ctx) = some (ctx, true)

  unfoldable pub on_event : UploadHooks → Multipart → Event → Called
  unfolding on_content_type on_headers_complete on_part_data on_part_data_end on_body_end
      on_autosave_close
  on_event hooks ctx (content_type value) = some (on_content_type hooks ctx value, true)
  on_event hooks ctx (headers_complete upload) = some (on_headers_complete hooks ctx upload, true)
  on_event hooks ctx (part_data bytes) = on_part_data hooks ctx ctx.child bytes
  on_event hooks ctx (part_data_end name) =
      returned (on_part_data_end hooks ctx ctx.cur_upload name)
  on_event hooks ctx body_end = returned (on_body_end hooks ctx)
  on_event hooks ctx (autosave_close address) = returned (on_autosave_close hooks ctx address)

  -- The callbacks in a row, up to one that fails.
  unfoldable pub on_events : UploadHooks → Multipart → List Event → Called
  unfolding on_event
  on_events hooks ctx [] = some (ctx, true)
  on_events hooks ctx (e ∷ events) =
      on_event hooks ctx e
      >>= (λ (next, ok). if ok then on_events hooks next events else some (next, false))
