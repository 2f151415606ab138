-- ===== src/Protocol/Frames.antt =====
-- Length-prefixed frames and their incremental decoder (packages/execution-host/src/protocol.ts:
-- `encodeFrame`, `decodeFrame`, `FrameDecoder`). Bytes are numbers below 256.
use anastom.Prelude.{
  ℕ, zero, suc, ◌+◌, ◌*◌, ◌/◌, ◌%◌, ◌&&◌, ◌||◌, List, [], ◌∷◌, ◌++◌, Option, none, some, Result, ok,
  err, ◌>>=◌, ◌>>◌, guard, length, take, drop, leb, ltb, ◌==◌, number_equality, if◌then◌else◌,
}

-- One constructor for each error; `undecodable` is what `TextDecoder` and `JSON.parse` throw, and
-- `out_of_range` what `writeUInt32BE` throws.
pub data FrameError : Type 0 where
  byte_limit out_of_range invalid_length incomplete length_mismatch undecodable : FrameError
  ended_early closed_early closed_incomplete partial_frame : FrameError

abbrev pub Framed : Type 0 → Type 0
Framed A = Result FrameError A

-- `writeUInt32BE` and `readUInt32BE` at offset 0.
abbrev pub write_uint32 : ℕ → List ℕ
write_uint32 n = (n / 16_777_216 % 256) ∷ (n / 65_536 % 256) ∷ (n / 256 % 256) ∷ (n % 256) ∷ []

unfoldable pub read_uint32 : List ℕ → ℕ
read_uint32 (a ∷ b ∷ c ∷ d ∷ rest) = a * 16_777_216 + b * 65_536 + c * 256 + d
read_uint32 _ = 0

unfoldable pub finish : List ℕ → Framed (Unit {0})
finish bytes = guard (length bytes == 0) FrameError.partial_frame

-- The bytes of `canonicalJson`, and the value that the decoder and the parser read from bytes.
pub record Codec (V : Type 0) : Type 0 where
  pub print : V → List ℕ
  pub parse : List ℕ → Option V

module _ {V : Type 0} (codec : Codec V) where
  unfoldable pub encode_frame : V → ℕ → Framed (List ℕ)
  encode_frame value max_bytes = do
    let payload = codec.print value
    guard (leb 1 (length payload) && leb (length payload) max_bytes) FrameError.byte_limit
    guard (leb (length payload) 4_294_967_295) FrameError.out_of_range
    ok (write_uint32 (length payload) ++ payload)

  abbrev parsed : Option V → Framed V
  parsed none = err FrameError.undecodable
  parsed (some value) = ok value

  unfoldable pub decode_frame : List ℕ → ℕ → Framed V
  unfolding read_uint32
  decode_frame frame max_bytes = do
    guard (leb 5 (length frame)) FrameError.incomplete
    let size = read_uint32 frame
    guard (leb 1 size && leb size max_bytes && length frame == size + 4) FrameError.length_mismatch
    parsed (codec.parse (drop 4 frame))

  -- The loop of `push`: the bytes that stay, and the values or the error. Each round takes at least
  -- five bytes, so that the number of bytes is enough fuel.
  unfoldable pub drain : ℕ → ℕ → List ℕ → List V → List ℕ × Framed (List V)
  unfolding read_uint32
  drain max_bytes zero bytes values = (bytes, ok values)
  drain max_bytes (suc fuel) bytes values =
      let size = read_uint32 bytes in
      let frame = decode_frame (take (size + 4) bytes) max_bytes in
      let rest = drop (size + 4) bytes in
      if ltb (length bytes) 4
      then (bytes, ok values)
      else if ltb size 1 || ltb max_bytes size
      then (bytes, err FrameError.invalid_length)
      else if ltb (length bytes) (size + 4)
      then (bytes, ok values)
      else elim frame [
        | err e ↦ (bytes, err e)
        | ok value ↦ drain max_bytes fuel rest (values ++ value ∷ [])
      ]

  abbrev pub within : ℕ → List ℕ × Framed (List V) → List ℕ × Framed (List V)
  within max_bytes (bytes, err e) = (bytes, err e)
  within max_bytes (bytes, ok values) =
      if ltb (max_bytes + 4) (length bytes)
      then (bytes, err FrameError.byte_limit)
      else (bytes, ok values)

  -- `push`: the decoder's bytes afterwards, and what the call returns or throws.
  unfoldable pub push : ℕ → List ℕ → List ℕ → List ℕ × Framed (List V)
  unfolding drain
  push max_bytes bytes chunk =
      within max_bytes (drain max_bytes (length (bytes ++ chunk)) (bytes ++ chunk) [])

  abbrev push_next :
      (List ℕ → Framed (List V × List ℕ)) → List ℕ × Framed (List V) → Framed (List V × List ℕ)
  push_next rest (bytes, err e) = err e
  push_next rest (bytes, ok values) = do later ← rest bytes; ok (values ++ later.0, later.1)

  -- A reader that pushes one chunk behind the other, and stops at the first error: the values in
  -- order and the bytes that are left.
  unfoldable pub push_all : ℕ → List ℕ → List (List ℕ) → Framed (List V × List ℕ)
  unfolding push
  push_all max_bytes bytes [] = ok ([], bytes)
  push_all max_bytes bytes (chunk ∷ chunks) =
      push_next (λ left. push_all max_bytes left chunks) (push max_bytes bytes chunk)

  -- The bytes of values that are written one behind the other.
  unfoldable pub encode_all : List V → ℕ → Framed (List ℕ)
  encode_all [] max_bytes = ok []
  encode_all (value ∷ values) max_bytes = do
    frame ← encode_frame value max_bytes
    rest ← encode_all values max_bytes
    ok (frame ++ rest)
