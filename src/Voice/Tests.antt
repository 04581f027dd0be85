-- ===== src/Voice/Tests.antt =====
-- The theorems on the voice server at concrete inputs, and runs of the code.
use baston.Prelude.{refl, ℕ, List, ◌<◌, ◌≤◌, take, drop}
use baston.Voice.Framing.{
  text_message, max_msgsize, preamble_size, from_u16, tag, parse, frame_len, encode, decode, ok,
  err, too_large,
}
use baston.Voice.Framing.Laws.{decode-encode}
use baston.Prelude.{◌+◌, ◌≡◌, arith, some, [], ◌∷◌, ◌++◌, length}
use baston.Voice.Pds.{advance, read_u64, write_u64}
use baston.Voice.Pds.RoundTrip.{read_u64-write_u64}

read_u64-write_u64_example :
    read_u64 (advance (write_u64 300 ++ 9 ∷ []) 0)
    ≡ some (300, advance (9 ∷ []) (0 + length (write_u64 300)))
read_u64-write_u64_example = read_u64-write_u64 300 (9 ∷ []) 0 (omega arith)

decode-encode_example :
    (max_msgsize < 3 → encode (λ msg. msg) text_message (1 ∷ 2 ∷ 3 ∷ []) ≡ err (too_large 3))
    × (3 ≤ max_msgsize
        → (out : List ℕ) × (encode (λ msg. msg) text_message (1 ∷ 2 ∷ 3 ∷ []) ≡ ok out)
          × (parse (out ++ 9 ∷ []) ≡ some (record { ty = tag text_message; len = 3 }))
          × (from_u16 (tag text_message) ≡ some text_message)
          × (take (frame_len (record { ty = tag text_message; len = 3 })) (out ++ 9 ∷ []) ≡ out)
          × (decode some text_message (drop preamble_size out) ≡ ok (1 ∷ 2 ∷ 3 ∷ [])))
decode-encode_example = decode-encode (λ msg. msg) some text_message (1 ∷ 2 ∷ 3 ∷ []) (9 ∷ []) refl
