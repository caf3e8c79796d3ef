-- ===== src/WebSocket/Connection/Progress.antt =====
-- What a frame that is read off the socket leaves.
use geruest.Prelude.{
  ℕ, ◌+◌, ◌%◌, ◌≤◌, ◌≡◌, Bool, not, some, Text, length, take, drop, length-take, length-drop,
  Option-cases, get_or, leb, if_elim, inl, inr, arith,
}
use geruest.Routes.{WebSocketLimits}
use geruest.WebSocket.Masking.{length-unmask_from}
use geruest.WebSocket.Connection.{
  read_exactly, read_length, FrameRead, not_masked, frame, read_payload, read_frame,
}

read_exactly-length :
    (n : ℕ) (input : Text) {bytes rest : Text}
    → read_exactly n input ≡ some (bytes, rest)
    → length rest + n ≡ length input
unfolding read_exactly
read_exactly-length n input h = ground (arith, length-drop n input)

read_length-length :
    (short : ℕ) (input : Text) {len : ℕ} {rest : Text}
    → read_length short input ≡ some (len, rest)
    → length rest ≤ length input
unfolding read_length read_exactly
read_length-length short input h = ground (arith, length-drop 2 input, length-drop 8 input)

-- A frame that is read leaves less to read, and its payload is within the limit.
abbrev pub Fits : WebSocketLimits → ℕ → FrameRead → Type 0
Fits limits n (frame fin op payload rest) =
    (length rest + 4 ≤ n) × (length payload ≤ limits.max_frame_bytes)
Fits limits n _ = Unit

read_payload-Fits :
    (limits : WebSocketLimits) (fin : Bool) (op n len : ℕ) (input : Text)
    → length input ≤ n
    → Fits limits n (read_payload limits fin op (some (len, input)))
unfolding read_payload read_exactly
read_payload-Fits limits fin op n len input h = ground (
  arith,
  length-drop 4 input,
  length-drop len (drop 4 input),
  length-take len (drop 4 input),
  length-unmask_from 0 (take 4 input) (take len (drop 4 input)),
)

read_frame-masked :
    (limits : WebSocketLimits) (n : ℕ) (header input : Text)
    → length input ≤ n
    → Fits limits n (
        read_payload limits
          (leb 128 (get_or header 0 0 % 256))
          (get_or header 0 0 % 16)
          (read_length (get_or header 1 0 % 128) input))
read_frame-masked limits n header input h =
    elim (Option-cases (read_length (get_or header 1 0 % 128) input)) [
      | inl e ↦ rw (e, Fits) (unfold read_payload in tt)
      | inr ((len, rest), e) ↦ rw e (
          read_payload-Fits limits (leb 128 (get_or header 0 0 % 256)) (get_or header 0 0 % 16) n
            len rest (omega (arith, read_length-length (get_or header 1 0 % 128) input e)))
    ]

pub read_frame-Fits :
    (limits : WebSocketLimits) (input : Text) → Fits limits (length input) (read_frame limits input)
unfolding read_frame
read_frame-Fits limits input = elim (Option-cases (read_exactly 2 input)) [
  | inl e ↦ rw (e, Fits) tt
  | inr ((header, rest), e) ↦
      rw (e, Fits)
        (if_elim (Fits limits (length input)) (not (leb 128 (get_or header 1 0 % 256))) not_masked
          (read_payload limits (leb 128 (get_or header 0 0 % 256)) (get_or header 0 0 % 16)
            (read_length (get_or header 1 0 % 128) rest))
          (λ _. tt)
          (λ _.
            read_frame-masked limits (length input) header rest
              (omega (arith, read_exactly-length 2 input e))))
]
