-- ===== src/CLib/Decimal.antt =====
-- `printf`'s %d and %02d for a number that is not negative.
use bluewing_cpp_server.Prelude.{ℕ, zero, suc, ◌+◌, ◌/◌, ◌%◌, [], ◌∷◌, ltb, if◌then◌else◌, Bytes}

-- The last digit first; a number has fewer digits than its successor counts.
dec_loop : ℕ → ℕ → Bytes → Bytes
dec_loop zero n acc = acc
dec_loop (suc fuel) n acc =
    let acc' = (n % 10 + b'0') ∷ acc in
    let rest = dec_loop fuel (n / 10) acc' in if ltb n 10 then acc' else rest

unfoldable pub dec : ℕ → Bytes
unfolding dec_loop
dec n = dec_loop (suc n) n []

unfoldable pub dec2 : ℕ → Bytes
unfolding dec
dec2 n = if ltb n 10 then b'0' ∷ dec n else dec n
