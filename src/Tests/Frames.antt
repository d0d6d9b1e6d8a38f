-- ===== src/Tests/Frames.antt =====
-- FrameReader.h and FrameBuilder.h.
use bluewing_cpp_server.Prelude.{
  ℕ, zero, suc, Bool, true, ◌≡◌, refl, ap, arith, inl, List, [], ◌∷◌, ◌++◌, Bytes, codes, length,
}
use bluewing_cpp_server.FrameReader.{
  Reader, process, header, header_step, body, whole_message, part_message,
}
use bluewing_cpp_server.FrameReader.Feed.{feed_all}
use bluewing_cpp_server.FrameReader.Process.{IsAccepting, process-feed_all}
use bluewing_cpp_server.FrameReader.Frames.{frame, process_pieces}
use bluewing_cpp_server.FrameReader.RoundTrip.{
  at_frame, frames, length-frame, process-frames, process-frame_lost,
}

-- A handler that keeps the messages.
abbrev keep : List (ℕ × Bytes) → ℕ → Bytes → List (ℕ × Bytes) × Bool
keep s type message = (s ++ (type, message) ∷ [], true)

keep-IsAccepting : IsAccepting keep
keep-IsAccepting s t m = refl

abbrev start : Reader
start = at_frame 0 0 0

-- The first part of a frame, and its end with another frame.
frame_in_parts :
    (let (s, r) = process keep 9 [] start (16 ∷ 3 ∷ b'a' ∷ []) in
      process keep 9 s r (b'b' ∷ b'c' ∷ 32 ∷ 0 ∷ [])).0
    ≡ (16, codes "abc") ∷ (32, []) ∷ []
unfolding process header header_step body whole_message part_message
frame_in_parts = refl

process-feed_all_example :
    process keep 9 [] start (16 ∷ 1 ∷ b'a' ∷ 32 ∷ [])
    ≡ feed_all keep [] start (16 ∷ 1 ∷ b'a' ∷ 32 ∷ [])
process-feed_all_example =
    process-feed_all keep keep-IsAccepting 9 [] start (16 ∷ 1 ∷ b'a' ∷ 32 ∷ [])
      (inl (refl, inl refl)) (omega arith)

process_pieces_example :
    (let (s, r) = process keep 9 [] start (16 ∷ 3 ∷ b'a' ∷ []) in
      process keep 9 s r (b'b' ∷ b'c' ∷ []))
    ≡ process keep 9 [] start (16 ∷ 3 ∷ b'a' ∷ b'b' ∷ b'c' ∷ [])
process_pieces_example =
    process_pieces keep 9 9 9 [] start (16 ∷ 3 ∷ b'a' ∷ []) (b'b' ∷ b'c' ∷ []) keep-IsAccepting
      (inl (refl, inl refl)) (omega arith) (omega arith) (omega arith)

process-frames_example :
    (process keep 20 [] start (frames ((16, codes "ab") ∷ (32, []) ∷ []))).0
    ≡ (16, codes "ab") ∷ (32, []) ∷ []
unfolding frame
process-frames_example =
    process-frames keep 20 [] 0 0 0 ((16, codes "ab") ∷ (32, []) ∷ []) keep-IsAccepting
      (inl (omega arith), (inl (omega arith), tt))
      (omega (arith, length-frame 16 (codes "ab"), length-frame 32 []))

-- A message of this length.
run_of : ℕ → Bytes
run_of zero = []
run_of (suc n) = b'x' ∷ run_of n

length-run_of : (n : ℕ) → length (run_of n) ≡ n
unfolding run_of
length-run_of zero = refl
length-run_of (suc n) = ap suc (length-run_of n)

process-frame_lost_example : (process keep 50000 [] start (frame 16 (run_of 40000))).0 ≡ []
process-frame_lost_example =
    process-frame_lost keep 50000 [] 0 0 0 16 (run_of 40000) keep-IsAccepting
      (omega (arith, length-run_of 40000)) (omega (arith, length-run_of 40000))
      (omega (arith, length-run_of 40000, length-frame 16 (run_of 40000)))
