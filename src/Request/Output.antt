-- ===== src/Request/Output.antt =====
-- request.c: what a handler sets of the response, and what it asks of the request.
use bluewing_cpp_server.Prelude.{
  ℕ, Option, List, [], ◌∷◌, ◌++◌, ◌==◌, if◌then◌else◌, Bytes, codes, length, get_or, take,
}
use bluewing_cpp_server.CLib.Decimal.{dec, dec2}
use bluewing_cpp_server.HeapBuffer
use bluewing_cpp_server.MimeTypes.{guess_mimetype}
use bluewing_cpp_server.Request.{Platform, Request, set_header}

abbrev pub weekdays : List Bytes
weekdays =
    codes "Sun"
    ∷ codes "Mon"
    ∷ codes "Tue"
    ∷ codes "Wed"
    ∷ codes "Thu"
    ∷ codes "Fri"
    ∷ codes "Sat"
    ∷ []

abbrev pub months : List Bytes
months =
    codes "Jan"
    ∷ codes "Feb"
    ∷ codes "Mar"
    ∷ codes "Apr"
    ∷ codes "May"
    ∷ codes "Jun"
    ∷ codes "Jul"
    ∷ codes "Aug"
    ∷ codes "Sep"
    ∷ codes "Oct"
    ∷ codes "Nov"
    ∷ codes "Dec"
    ∷ []

-- `struct tm`, with the full year.
pub record Tm : Type 0 where
  pub wday : ℕ
  pub mday : ℕ
  pub mon : ℕ
  pub year : ℕ
  pub hour : ℕ
  pub minute : ℕ
  pub sec : ℕ

-- The date that `lw_ws_req_set_last_modified` prints.
unfoldable pub http_date : Tm → Bytes
http_date tm =
    get_or weekdays tm.wday []
    ++ (codes ", "
        ++ (dec2 tm.mday
            ++ (codes " "
                ++ (get_or months tm.mon []
                    ++ (codes " "
                        ++ (dec tm.year
                            ++ (codes " "
                                ++ (dec2 tm.hour
                                    ++ (codes ":"
                                        ++ (dec2 tm.minute
                                            ++ (codes ":"
                                                ++ (dec2 tm.sec ++ codes " GMT"))))))))))))

module _ (P : Platform) where
  -- The message goes to a buffer of 64 bytes, whatever its length.
  unfoldable pub set_status : Request P → ℕ → Bytes → Request P
  set_status ctx code message = record ctx { status = dec code ++ (codes " " ++ message) }

  unfoldable pub set_unmodified : Request P → Request P
  unfolding set_status
  set_unmodified ctx = set_status ctx 304 (codes "Not Modified")

  unfoldable pub set_mimetype_ex : Request P → Bytes → Bytes → Request P
  set_mimetype_ex ctx mimetype charset =
      if length charset == 0
      then set_header P ctx (codes "content-type") mimetype
      else set_header P ctx (codes "content-type")
          (take 255 (mimetype ++ (codes "; charset=" ++ charset)))

  unfoldable pub set_mimetype : Request P → Bytes → Request P
  unfolding set_mimetype_ex
  set_mimetype ctx mimetype = set_mimetype_ex ctx mimetype []

  unfoldable pub set_guessed_mimetype : Request P → Bytes → Request P
  unfolding set_mimetype
  set_guessed_mimetype ctx filename = set_mimetype ctx (guess_mimetype filename)

  unfoldable pub set_redirect : Request P → Bytes → Request P
  set_redirect ctx url =
      set_header P (set_status ctx 303 (codes "See Other")) (codes "location") url

  unfoldable pub disable_cache : Request P → Request P
  disable_cache ctx = set_header P ctx (codes "cache-control") (codes "no-cache")

  -- `tm` is what `gmtime` gives for the time.
  unfoldable pub set_last_modified : Request P → Tm → Request P
  set_last_modified ctx tm = set_header P ctx (codes "last-modified") (http_date tm)

  unfoldable pub body : Request P → Option Bytes
  body ctx = HeapBuffer.buffer ctx.buffer

  unfoldable pub set_idle_timeout : Request P → ℕ → Request P
  set_idle_timeout ctx seconds = record ctx { timeout = seconds }
