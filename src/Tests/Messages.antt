-- ===== src/Tests/Messages.antt =====
-- MessageBuilder.h and MessageReader.h.
use bluewing_cpp_server.Prelude.{ℕ, Bool, true, false, some, List, [], ◌∷◌, codes, ◌≡◌, refl, arith}
use bluewing_cpp_server.Message.{Field, number, text, encode, encode_all, bytes_of}
use bluewing_cpp_server.Message.Builder.{Builder, new as new_builder, add_all}
use bluewing_cpp_server.Message.Grow.{contents}
use bluewing_cpp_server.Message.Reader.{Reader, new, read_all}
use bluewing_cpp_server.Message.RoundTrip.{read_all-add_all, read_all_past_end}

abbrev plenty : ℕ → Bool
plenty n = true

-- A channel message: a subchannel, a number of a channel and of a peer, and text.
abbrev channel_message : List Field
channel_message = number 1 7 ∷ number 2 300 ∷ number 2 65535 ∷ text (codes "hello") ∷ []

read_all-add_all_example :
    (b : Builder) × (add_all plenty new_builder channel_message ≡ some b)
    × (read_all channel_message (new (contents b) b.size)
        ≡ (channel_message, record (new (contents b) b.size) { offset = b.size }))
unfolding encode_all encode bytes_of
read_all-add_all_example =
    read_all-add_all plenty channel_message (λ n. refl) (refl, (refl, (refl, (tt, tt))))
      (omega arith)

abbrev cut_off : Reader
cut_off = record { buffer = codes "abc"; size = 3; offset = 2; failed = false }

read_all_past_end_example :
    read_all (number 2 5 ∷ text (codes "x") ∷ []) cut_off
    ≡ (number 2 0 ∷ text [] ∷ [], record cut_off { failed = true })
read_all_past_end_example =
    read_all_past_end (number 2 5) (text (codes "x") ∷ []) cut_off refl (omega arith) (omega arith)
