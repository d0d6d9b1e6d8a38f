-- ===== src/Error/Laws.antt =====
-- What the text of an error is after messages have been added to it.
use bluewing_cpp_server.Prelude.{
  nil_of_length, false, ◌+◌, ◌-◌, ◌≤◌, ◌<◌, ◌++◌, ◌≡◌, ◌≢◌, ◌∙◌, ap, arith, ◌==◌, if◌then◌else◌,
  Bytes, length, take, length-append, take_all, append-nil, Bool-cases, inl, inr,
}
use bluewing_cpp_server.Error.{LwError, buffer_size, prepend, separate, separator, addv}

-- The buffer holds the text and its terminator.
abbrev pub Fits : LwError → Type 0
Fits e = length e.text < buffer_size

prepend-Fits : (e : LwError) (m : Bytes) → Fits e → Fits (prepend e m)
unfolding prepend
prepend-Fits e m h = ground (arith, length-append m e.text)

size-prepend : (e : LwError) (m : Bytes) → (prepend e m).size ≡ e.size
unfolding prepend
size-prepend e m = ground arith

separate-Fits : (e : LwError) → Fits e → Fits (separate e)
unfolding separate
separate-Fits e h = ground (arith, prepend-Fits e separator h)

size-separate : (e : LwError) → (separate e).size ≡ e.size
unfolding separate
size-separate e = ground (arith, size-prepend e separator)

text-prepend :
    (e : LwError) (m : Bytes)
    → length m + length e.text < buffer_size
    → (prepend e m).text ≡ m ++ e.text
unfolding prepend
text-prepend e m h = ground arith

prepend_full :
    (e : LwError) (m : Bytes) → Fits e → buffer_size ≤ length m + length e.text → prepend e m ≡ e
unfolding prepend
prepend_full e m f h = ground arith

text-separate :
    (e : LwError)
    → 3 + length e.text < buffer_size
    → (separate e).text ≡ (if length e.text == 0 then e.text else separator ++ e.text)
unfolding separate
text-separate e h = ground (arith, text-prepend e separator)

-- Adding a message of any length to a text that fits into the buffer leaves one that fits, and
-- counts the message.
pub addv-Fits :
    (e : LwError) (m : Bytes) → Fits e → Fits (addv e m) × ((addv e m).size ≡ e.size + 1)
unfolding addv
addv-Fits e m h =
    let counted = record e { size = e.size + 1 } in
    (
      prepend-Fits (separate counted) (take (buffer_size - 1) m) (separate-Fits counted h),
      size-prepend (separate counted) _ ∙ size-separate counted,
    )

-- Where the message, the separator and the text fit, the new text is the message, the separator and
-- the old text, without the separator if there was no text.
pub text-addv :
    (e : LwError) (m : Bytes)
    → length m + 3 + length e.text < buffer_size
    → (addv e m).text ≡ (if length e.text == 0 then m else m ++ (separator ++ e.text))
unfolding addv
text-addv e m h =
    let counted = record e { size = e.size + 1 } in
    let whole : take (buffer_size - 1) m ≡ m = take_all (buffer_size - 1) m (omega arith) in
    let sep = text-separate counted (omega arith) in
    rw whole (elim (Bool-cases (length e.text == 0)) [
      | inl empty ↦ rw empty (
          let alone : (separate counted).text ≡ e.text = rw empty at sep in
          text-prepend (separate counted) m (omega (arith, ap length alone))
          ∙ rw (alone, nil_of_length e.text (ground arith), append-nil))
      | inr more ↦ rw more (
          let joined : (separate counted).text ≡ separator ++ e.text = rw more at sep in
          text-prepend (separate counted) m (omega (arith, ap length joined))
          ∙ ap (λ t. m ++ t) joined)
    ])

-- Where there is a text and the separator fits in front of it but the message does not fit any
-- more, the text gets the separator and no message.
pub addv_dangling :
    (e : LwError) (m : Bytes)
    → length e.text ≢ 0
    → length e.text + 3 < buffer_size
    → length m < buffer_size
    → buffer_size ≤ length m + 3 + length e.text
    → (addv e m).text ≡ separator ++ e.text
unfolding addv
addv_dangling e m ne room short full =
    let counted = record e { size = e.size + 1 } in
    let whole : take (buffer_size - 1) m ≡ m = take_all (buffer_size - 1) m (omega arith) in
    let more : (length e.text == 0) ≡ false = ground arith in
    let joined : (separate counted).text ≡ separator ++ e.text =
      rw more at (text-separate counted (omega arith)) in
    rw whole (
      ap (λ r. r.text)
        (prepend_full (separate counted) m (omega (arith, ap length joined))
          (omega (arith, ap length joined)))
      ∙ joined)
