-- ===== src/Request/Lifecycle/Head.antt =====
-- The bytes of a response.
use bluewing_cpp_server.Prelude.{
  joined, codes, ◌==◌, map, ap, ap₂, if◌then◌else◌, false, not, ◌||◌, ℕ, suc, ◌+◌, ◌-◌, ◌≤◌, ltb,
  Bool, true, Option, none, some, List, [], ◌∷◌, ◌++◌, ◌≡◌, ◌∙◌, refl, sym, arith, fun_ext, Bytes,
  length, length-append, append_assoc, append-nil, take-drop,
}
use bluewing_cpp_server.HeapBuffer.{HeapBuffer, addf, reset, pending, buffer, size_sub}
use bluewing_cpp_server.HeapBuffer.Inv.{IsValid, used, max_used, add-IsValid, reset-IsValid}
use bluewing_cpp_server.HeapBuffer.Refine.{
  contents, add-contents, add_succeeds, used-add, reset-contents,
}
use bluewing_cpp_server.CLib.{cstr}
use bluewing_cpp_server.CLib.Decimal.{dec}
use bluewing_cpp_server.Request.{Platform, Request, Header, Cookie}
use bluewing_cpp_server.Request.Lifecycle.{
  Exchange, write_all, buffered, head_pieces, header_line, cookie_lines, all_cookie_lines, Client,
  responded, client_respond,
}

abbrev has_room : ℕ → Bool
has_room n = true

-- One formatted piece behind what is there.
record Added (hb : Option HeapBuffer) (piece : Bytes) (hb' : Option HeapBuffer) : Type 0 where
  valid : IsValid hb'
  behind : contents hb' ≡ contents hb ++ piece
  room : used hb' ≤ used hb + length piece

addf-Added :
    (hb : Option HeapBuffer) (piece : Bytes)
    → IsValid hb
    → used hb + length piece ≤ max_used
    → Added hb piece (addf has_room hb (some piece))
unfolding addf
addf-Added hb [] v small = record {
  valid = v;
  behind = sym (append-nil (contents hb));
  room = omega arith;
}
addf-Added hb (c ∷ piece) v small =
    let nonempty : ltb 0 (suc (length piece)) ≡ true = ground arith in
    let bytes = c ∷ piece in
    rw nonempty (record {
      valid = add-IsValid has_room hb bytes (length bytes) v small refl;
      behind =
          add-contents has_room hb bytes (length bytes) v small refl
            (add_succeeds hb bytes (length bytes));
      room = used-add has_room hb bytes (length bytes) v small refl;
    })

write_all-contents :
    (ps : List Bytes) (hb : Option HeapBuffer)
    → IsValid hb
    → used hb + length (joined ps) ≤ max_used
    → IsValid (write_all has_room hb ps)
      × (contents (write_all has_room hb ps) ≡ contents hb ++ joined ps)
unfolding write_all
write_all-contents [] hb v small = (v, sym (append-nil (contents hb)))
write_all-contents (p ∷ ps) hb v small =
    let len = length-append p (joined ps) in
    let a = addf-Added hb p v (omega (arith, len)) in
    let (valid, rest) =
      write_all-contents ps (addf has_room hb (some p)) a.valid (omega (arith, len, a.room)) in
    (valid, rest ∙ rw (a.behind, append_assoc (contents hb) p (joined ps)))

buffered-contents : (hb : Option HeapBuffer) → IsValid hb → buffered hb ≡ contents hb
unfolding buffered pending buffer
buffered-contents none v = refl
buffered-contents (some hb) v =
    let no_wrap : size_sub hb.length hb.offset ≡ hb.length - hb.offset = omega arith in
    let end : hb.offset + (hb.length - hb.offset) ≡ hb.length = omega arith in
    rw (no_wrap, take-drop (hb.length - hb.offset) hb.offset hb.buffer, end)

used-reset : (hb : Option HeapBuffer) → used (reset hb) ≡ 0
unfolding reset
used-reset none = refl
used-reset (some hb) = refl

-- The text of the headers of a response, and of the cookies that have changed.
abbrev pub header_text : List Header → Bytes
header_text [] = []
header_text (h ∷ headers) =
    b'\r' ∷ b'\n' ∷ (cstr h.name ++ b':' ∷ b' ' ∷ (cstr h.value ++ header_text headers))

-- One cookie: whether it has changed, and its attributes.
abbrev pub cookie_text : Bool → Bytes → Bytes → Bytes → Bytes
cookie_text false name value attr = []
cookie_text true name value [] = b'\r' ∷ b'\n' ∷ (codes "set-cookie: " ++ (name ++ b'=' ∷ value))
cookie_text true name value (c ∷ attr) =
    b'\r' ∷ b'\n' ∷ (codes "set-cookie: " ++ (name ++ b'=' ∷ (value ++ b';' ∷ b' ' ∷ c ∷ attr)))

abbrev pub cookies_text : List (Bytes × Cookie) → Bytes
cookies_text [] = []
cookies_text ((key, k) ∷ cookies) =
    cookie_text k.changed (cstr k.name) (cstr k.value) (cstr k.attr) ++ cookies_text cookies

-- The head of a response with a body of this length.
abbrev pub head_text : (P : Platform) → Request P → ℕ → Bytes
head_text P request size =
    codes "HTTP/"
    ++ (dec request.version_major
        ++ b'.'
          ∷ (dec request.version_minor
              ++ b' '
                ∷ (cstr request.status
                    ++ (header_text request.headers_out
                        ++ (cookies_text (P.cookies.items request.cookies)
                            ++ (b'\r'
                                ∷ b'\n'
                                ∷ (codes "content-length: " ++ (dec size ++ codes "\r\n\r\n"))))))))

joined-append : (xs ys : List Bytes) → joined (xs ++ ys) ≡ joined xs ++ joined ys
joined-append [] ys = refl
joined-append (x ∷ xs) ys =
    ap (λ b. x ++ b) (joined-append xs ys) ∙ sym (append_assoc x (joined xs) (joined ys))

header_lines-text : (headers : List Header) → joined (map header_line headers) ≡ header_text headers
unfolding header_line
header_lines-text [] = refl
header_lines-text (h ∷ headers) = simp (append_assoc, header_lines-text headers)

cookie_pieces-text :
    (changed : Bool) (name value attr : Bytes)
    → let set = codes "\r\nset-cookie: " ++ (name ++ (codes "=" ++ value)) in
      joined (
        if not changed
        then []
        else if length attr == 0
        then set ∷ []
        else set ∷ (codes "; " ++ attr) ∷ [])
      ≡ cookie_text changed name value attr
cookie_pieces-text false name value attr = refl
cookie_pieces-text true name value [] = simp (append_assoc, append-nil)
cookie_pieces-text true name value (c ∷ attr) =
    let some_attr : (length (c ∷ attr) == 0) ≡ false = ground arith in
    rw some_attr (simp (append_assoc, append-nil))

cookie_lines-text :
    (k : Cookie)
    → joined (cookie_lines k) ≡ cookie_text k.changed (cstr k.name) (cstr k.value) (cstr k.attr)
unfolding cookie_lines
cookie_lines-text k = cookie_pieces-text k.changed (cstr k.name) (cstr k.value) (cstr k.attr)

all_cookie_lines-text :
    (cookies : List (Bytes × Cookie)) → joined (all_cookie_lines cookies) ≡ cookies_text cookies
unfolding all_cookie_lines
all_cookie_lines-text [] = refl
all_cookie_lines-text ((key, k) ∷ cookies) =
    joined-append (cookie_lines k) (all_cookie_lines cookies)
    ∙ ap₂ (λ a b. a ++ b) (cookie_lines-text k) (all_cookie_lines-text cookies)

head_pieces-text :
    (P : Platform) (request : Request P) (size : ℕ)
    → joined (head_pieces P request size) ≡ head_text P request size
unfolding head_pieces
head_pieces-text P request size =
    simp (append_assoc, joined-append, header_lines-text, all_cookie_lines-text, append-nil)

-- Where every allocation succeeds, the buffer is valid and the head has at most 2 ^ 62 bytes, a
-- response is sent in one piece: the status line, each header on a line of its own and in order, a
-- set-cookie line for each changed cookie, with its attributes if it has any, the length of the queued
-- body, an empty line, and that body. Nothing is queued then, the request is finished, a connection that
-- is not kept alive is asked to close, and the client's stream is retried after all that.
pub client_respond-sent :
    (P : Platform) (client : Client P) (x : Exchange P)
    → ((n : ℕ) → P.alloc n ≡ true)
    → IsValid x.request.buffer
    → length (head_text P x.request (length x.queued)) ≤ max_used
    → (y : Exchange P) × (client_respond P client x ≡ client.retry y)
      × (y.sent ≡ x.sent ++ (head_text P x.request (length x.queued) ++ x.queued) ∷ [])
      × (y.queued ≡ [])
      × (y.request.responded ≡ true)
      × (y.closing ≡ x.closing || not (client.should_keep_alive x.request))
unfolding client_respond responded
client_respond-sent P client x memory v small =
    let pieces = head_pieces P x.request (length x.queued) in
    let fresh = reset x.request.buffer in
    let all_room : P.alloc ≡ has_room = fun_ext memory in
    let whole = head_pieces-text P x.request (length x.queued) in
    let (valid, text) =
      write_all-contents pieces fresh (reset-IsValid x.request.buffer v)
        (omega (arith, used-reset x.request.buffer, ap length whole, small)) in
    let written : buffered (write_all P.alloc fresh pieces)
        ≡ head_text P x.request (length x.queued) =
      ap (λ a. buffered (write_all a fresh pieces)) all_room
      ∙ buffered-contents (write_all has_room fresh pieces) valid
      ∙ text
      ∙ rw (reset-contents x.request.buffer) whole in
    (responded P client x, refl, ap (λ b. x.sent ++ (b ++ x.queued) ∷ []) written, refl, refl, refl)
