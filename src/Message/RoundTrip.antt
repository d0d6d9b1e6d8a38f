-- ===== src/Message/RoundTrip.antt =====
-- What is built is read again, and what is read past the end is nothing.
use bluewing_cpp_server.Prelude.{
  ℕ, zero, suc, ◌+◌, ◌/◌, ◌^◌, ◌<◌, ◌≤◌, Bool, true, false, some, List, [], ◌∷◌, ◌++◌, Bytes,
  length, take, drop, ◌≡◌, refl, sym, arith, ap, ◌∙◌, subst, All, length-append, append_assoc,
  take-append, drop-append, append-nil, map,
}
use bluewing_cpp_server.FrameReader.{little_endian}
use bluewing_cpp_server.Message.{Field, number, text, bytes_of, encode, encode_all}
use bluewing_cpp_server.Message.Builder.{Builder, new as new_builder, add_all}
use bluewing_cpp_server.Message.Grow.{new-Valid, contents, max_message, add_all-Puts}
use bluewing_cpp_server.Message.Reader.{Reader, new, check, get, get_bytes, read_field, read_all}

-- A value of a number of this width.
abbrev pub FitsIn : ℕ → ℕ → Type 0
FitsIn zero value = value ≡ 0
FitsIn (suc width) value = FitsIn width (value / 256)

abbrev pub IsField : Field → Type 0
IsField (number width value) = FitsIn width value
IsField (text bytes) = Unit

length-bytes_of : (width value : ℕ) → length (bytes_of width value) ≡ width
unfolding bytes_of
length-bytes_of zero value = refl
length-bytes_of (suc width) value = ap suc (length-bytes_of width (value / 256))

little_endian-bytes_of :
    (width value : ℕ) → FitsIn width value → little_endian (bytes_of width value) ≡ value
unfolding bytes_of
little_endian-bytes_of zero value f = sym f
little_endian-bytes_of (suc width) value f =
    omega (arith, little_endian-bytes_of width (value / 256) f)

abbrev pub field_size : Field → ℕ
field_size (number width value) = width
field_size (text bytes) = length bytes

-- A reader that has this before it, and then this.
pub record At (r : Reader) (done rest : Bytes) : Type 0 where
  pub whole : r.buffer ≡ done ++ rest
  pub size_all : r.size ≡ length done + length rest
  pub here : r.offset ≡ length done
  pub going : r.failed ≡ false
  pub word : r.size < 2 ^ 64

abbrev pub moved : Reader → ℕ → Reader
moved r n = record r { offset = r.offset + n }

check_ok :
    (r : Reader) (n : ℕ)
    → r.failed ≡ false
    → r.offset + n ≤ r.size
    → r.size < 2 ^ 64
    → check r n ≡ (true, r)
unfolding check
check_ok r n f h w = ground (arith, f)

next_bytes :
    (r : Reader) (done bytes rest : Bytes)
    → At r done (bytes ++ rest)
    → take (length bytes) (drop r.offset r.buffer) ≡ bytes
next_bytes r done bytes rest a =
    ap (λ k. take (length bytes) (drop k r.buffer)) a.here
    ∙ ap (λ b. take (length bytes) (drop (length done) b)) a.whole
    ∙ ap (λ b. take (length bytes) b) (drop-append done (bytes ++ rest))
    ∙ take-append bytes rest

moved-At :
    (r : Reader) (done bytes rest : Bytes)
    → At r done (bytes ++ rest)
    → At (moved r (length bytes)) (done ++ bytes) rest
moved-At r done bytes rest a = record {
  whole = a.whole ∙ sym (append_assoc done bytes rest);
  size_all = omega (arith, a.size_all, length-append bytes rest, length-append done bytes);
  here = omega (arith, a.here, length-append done bytes);
  going = a.going;
  word = a.word;
}

get_ok :
    (r : Reader) (width : ℕ)
    → check r width ≡ (true, r)
    → get width r ≡ (little_endian (take width (drop r.offset r.buffer)), moved r width)
unfolding get
get_ok r width e = rw e refl

get_bytes_ok :
    (r : Reader) (n : ℕ)
    → check r n ≡ (true, r)
    → get_bytes n r ≡ (take n (drop r.offset r.buffer), moved r n)
unfolding get_bytes
get_bytes_ok r n e = rw e refl

room :
    (r : Reader) (done bytes rest : Bytes)
    → At r done (bytes ++ rest)
    → check r (length bytes) ≡ (true, r)
room r done bytes rest a =
    check_ok r (length bytes) a.going (omega (arith, a.here, a.size_all, length-append bytes rest))
      a.word

read_field-encode :
    (f : Field) (r : Reader) (done rest : Bytes)
    → IsField f
    → At r done (encode f ++ rest)
    → read_field f r ≡ (f, moved r (length (encode f)))
unfolding read_field encode
read_field-encode (number width value) r done rest i a =
    let l = length-bytes_of width value in
    let k = room r done (bytes_of width value) rest a in
    ap (λ w. (number width (get w r).0, (get w r).1)) (sym l)
    ∙ ap (λ x. (number width x.0, x.1)) (get_ok r (length (bytes_of width value)) k)
    ∙ ap (λ b. (number width (little_endian b), moved r (length (bytes_of width value))))
        (next_bytes r done (bytes_of width value) rest a)
    ∙ ap (λ v. (number width v, moved r (length (bytes_of width value))))
        (little_endian-bytes_of width value i)
read_field-encode (text bytes) r done rest i a =
    ap (λ x. (text x.0, x.1)) (get_bytes_ok r (length bytes) (room r done bytes rest a))
    ∙ ap (λ b. (text b, moved r (length bytes))) (next_bytes r done bytes rest a)

-- A reader that stands before the encoding of some fields reads them as they are.
pub read_all-encode_all :
    (fields : List Field) (r : Reader) (done rest : Bytes)
    → All IsField fields
    → At r done (encode_all fields ++ rest)
    → read_all fields r ≡ (fields, moved r (length (encode_all fields)))
unfolding read_all encode_all
read_all-encode_all [] r done rest i a = ap (λ n. ([], record r { offset = n })) (omega arith)
read_all-encode_all (f ∷ fields) r done rest i a =
    let b : At r done (encode f ++ (encode_all fields ++ rest)) =
      subst (λ x. At r done x) (append_assoc (encode f) (encode_all fields) rest) a in
    let s = moved r (length (encode f)) in
    let n : r.offset + length (encode f) + length (encode_all fields)
        ≡ r.offset + length (encode f ++ encode_all fields) =
      omega (arith, length-append (encode f) (encode_all fields)) in
    ap
      (λ (x : Field × Reader). let (g, t) = x in let (more, u) = read_all fields t in (g ∷ more, u))
      (read_field-encode f r done (encode_all fields ++ rest) i.0 b)
    ∙ ap (λ x. (f ∷ x.0, x.1))
        (read_all-encode_all fields s (done ++ encode f) rest i.1
          (moved-At r done (encode f) (encode_all fields ++ rest) b))
    ∙ ap (λ k. (f ∷ fields, record r { offset = k })) n

-- Where every allocation succeeds, and the fields encode to less than 2 ^ 30 bytes and each number fits
-- in its width, fields that are added to a new message are read from its bytes as they were, and the
-- reader has then come to its end without a failure.
pub read_all-add_all :
    (alloc : ℕ → Bool) (fields : List Field)
    → ((n : ℕ) → alloc n ≡ true)
    → All IsField fields
    → length (encode_all fields) < max_message
    → (b : Builder) × (add_all alloc new_builder fields ≡ some b)
      × (read_all fields (new (contents b) b.size)
          ≡ (fields, record (new (contents b) b.size) { offset = b.size }))
unfolding new new_builder
read_all-add_all alloc fields a i small =
    let (b, r, v, s, e) = add_all-Puts alloc new_builder fields a new-Valid (omega arith) in
    let sent = new (contents b) b.size in
    let at : At sent [] (encode_all fields ++ []) = record {
      whole = e ∙ sym (append-nil (encode_all fields));
      size_all = omega (arith, length-append (encode_all fields) []);
      here = refl;
      going = refl;
      word = omega arith;
    } in
    (
      b,
      r,
      read_all-encode_all fields sent [] [] i at
          ∙ ap (λ k. (fields, record sent { offset = k })) (sym s),
    )

-- What is read of a field when there is no more.
abbrev pub blank : Field → Field
blank (number width value) = number width 0
blank (text bytes) = text []

failed_field : (f : Field) (r : Reader) → r.failed ≡ true → read_field f r ≡ (blank f, r)
unfolding read_field get get_bytes check
failed_field (number width value) r e = rw e refl
failed_field (text bytes) r e = rw e refl

failed_fields :
    (fields : List Field) (r : Reader) → r.failed ≡ true → read_all fields r ≡ (map blank fields, r)
unfolding read_all
failed_fields [] r e = refl
failed_fields (f ∷ fields) r e = rw (failed_field f r e, failed_fields fields r e) refl

past_end :
    (r : Reader) (n : ℕ)
    → r.failed ≡ false
    → r.size < r.offset + n
    → r.offset + n < 2 ^ 64
    → check r n ≡ (false, record r { failed = true })
unfolding check
past_end r n e l w = ground (arith, e)

past_end_field :
    (f : Field) (r : Reader)
    → r.failed ≡ false
    → r.size < r.offset + field_size f
    → r.offset + field_size f < 2 ^ 64
    → read_field f r ≡ (blank f, record r { failed = true })
unfolding read_field get get_bytes
past_end_field (number width value) r e l w = rw (past_end r width e l w) refl
past_end_field (text bytes) r e l w = rw (past_end r (length bytes) e l w) refl

-- Where the reader has not failed before, a field that ends behind the end of a message, and below
-- 2 ^ 64, where the sum of the test wraps, is read as zero or empty, and so is every field after it; the
-- reader has then failed.
pub read_all_past_end :
    (f : Field) (fields : List Field) (r : Reader)
    → r.failed ≡ false
    → r.size < r.offset + field_size f
    → r.offset + field_size f < 2 ^ 64
    → read_all (f ∷ fields) r ≡ (map blank (f ∷ fields), record r { failed = true })
unfolding read_all
read_all_past_end f fields r e l w =
    rw (past_end_field f r e l w, failed_fields fields (record r { failed = true }) refl) refl
