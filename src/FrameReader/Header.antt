-- ===== src/FrameReader/Header.antt =====
-- What the header loop leaves.
use bluewing_cpp_server.Prelude.{
  ℕ, ◌<◌, ◌≤◌, true, false, [], ◌∷◌, ◌≡◌, ◌≢◌, ◌⊎◌, inl, inr, refl, arith, Bool-cases, ltb, ◌==◌,
  Bytes, length,
}
use bluewing_cpp_server.FrameReader.{Reader, header_step, header}
use bluewing_cpp_server.FrameReader.Feed.{header_done, header_below}

-- Nothing is kept between frames, and a message that has begun is not complete.
abbrev pub IsOpen : Reader → Type 0
IsOpen r =
    ((ltb r.state 3 ≡ true) × ((r.buffer ≡ []) ⊎ ((r.state ≢ 0) × (0 < r.sizebytesleft))))
    ⊎ ((ltb r.state 3 ≡ false) × (length r.buffer < r.messagesize))

-- What the header loop leaves: a header or a message to go on with.
abbrev pub Found : Reader → Type 0
Found r =
    ((ltb r.state 3 ≡ true) × ((r.buffer ≡ []) ⊎ ((r.state ≢ 0) × (0 < r.sizebytesleft))))
    ⊎ ((ltb r.state 3 ≡ false) × ((r.buffer ≡ []) ⊎ (length r.buffer < r.messagesize)))

pub header_step-Found :
    (r : Reader) (byte : ℕ)
    → ltb r.state 3 ≡ true
    → (r.buffer ≡ []) ⊎ ((r.state ≢ 0) × (0 < r.sizebytesleft))
    → Found (header_step r byte)
unfolding header_step
header_step-Found r byte below (inl e) = elim (Bool-cases (r.state == 0)) [
  | inl start ↦ rw start (inl (refl, inl e))
  | inr named ↦ elim (Bool-cases (ltb 0 r.sizebytesleft)) [
    | inl more ↦ elim (Bool-cases (r.sizebytesleft == 1)) [
      | inl last ↦ rw (named, more, last) (inr (refl, inl refl))
      | inr some_ ↦
          rw (named, more, some_)
            (inl (below, inr (λ h. ground (arith, named), ground (arith, some_, more))))
    ]
    | inr first ↦ elim (Bool-cases (byte == 254)) [
      | inl two ↦ rw (named, first, two) (inl (below, inl e))
      | inr not_two ↦ elim (Bool-cases (byte == 255)) [
        | inl four ↦ rw (named, first, not_two, four) (inl (below, inl e))
        | inr small ↦ rw (named, first, not_two, small) (inr (refl, inl e))
      ]
    ]
  ]
]
header_step-Found r byte below (inr (n, k)) =
    let named : (r.state == 0) ≡ false = ground arith in
    let more : ltb 0 r.sizebytesleft ≡ true = ground arith in
    elim (Bool-cases (r.sizebytesleft == 1)) [
      | inl last ↦ rw (named, more, last) (inr (refl, inl refl))
      | inr some_ ↦ rw (named, more, some_) (inl (below, inr (n, ground (arith, some_, k))))
    ]

pub header_nil : (r : Reader) → header r [] ≡ (r, [])
unfolding header
header_nil r = refl

pub header-Found : (r : Reader) (input : Bytes) → Found r → Found (header r input).0
header-Found r [] f = rw header_nil f
header-Found r (byte ∷ input) (inr (three, f)) =
    rw (header_done r (byte ∷ input) three) (inr (three, f))
header-Found r (byte ∷ input) (inl (below, f)) =
    rw (header_below r byte input below)
      (header-Found (header_step r byte) input (header_step-Found r byte below f))

-- The loop goes on to the end of the input or of the header.
pub header_rest :
    (r : Reader) (input : Bytes) → ltb (header r input).0.state 3 ≡ true → (header r input).1 ≡ []
header_rest r [] h = rw header_nil
header_rest r (byte ∷ input) h = elim (Bool-cases (ltb r.state 3)) [
  | inl below ↦
      rw (header_below r byte input below)
        (header_rest (header_step r byte) input (rw (header_below r byte input below) at h))
  | inr three ↦
      let stays : ltb r.state 3 ≡ true = rw (header_done r (byte ∷ input) three) at h in cc
]

pub header_shorter : (r : Reader) (input : Bytes) → length (header r input).1 ≤ length input
unfolding header
header_shorter r [] = omega arith
header_shorter r (byte ∷ input) = ground (arith, header_shorter (header_step r byte) input)
