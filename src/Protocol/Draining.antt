-- ===== src/Protocol/Draining.antt =====
-- One round of the decoder on the frames that the encoder writes
-- (packages/execution-host/src/protocol.ts).
use anastom.Prelude.{
  ℕ, zero, suc, ◌+◌, ◌≤◌, ◌<◌, ◌≡◌, refl, sym, ap, ◌∙◌, inl, inr, Bool-cases, true, List, [], ◌∷◌,
  ◌++◌, some, ok, length, length-append, take, drop, ltb, arith,
}
use mathlib.Core.List.{append_assoc}
use anastom.Protocol.Frames.{
  Codec, decode_frame, drain, encode_all, encode_frame, read_uint32, write_uint32,
}
use anastom.Protocol.Splits.{append_split, drop-front, read_uint32-write_uint32, take-front}

pub ltb→lt : (a b : ℕ) → ltb a b ≡ true → a < b
ltb→lt a b h = ground arith

module _ {V : Type 0} (codec : Codec V) where
  pub encode_frame-eq-ok :
      (value : V) (max_bytes : ℕ) {frame : List ℕ}
      → encode_frame codec value max_bytes ≡ ok frame
      → (frame ≡ write_uint32 (length (codec.print value)) ++ codec.print value)
        × (1 ≤ length (codec.print value))
        × (length (codec.print value) ≤ max_bytes)
        × (length (codec.print value) < 4_294_967_296)
  unfolding encode_frame
  encode_frame-eq-ok value max_bytes h = ground arith

  -- One frame decodes to the value that was encoded.
  pub decode_frame-encode_frame :
      (value : V) (max_bytes : ℕ) {frame : List ℕ}
      → codec.parse (codec.print value) ≡ some value
      → encode_frame codec value max_bytes ≡ ok frame
      → decode_frame codec frame max_bytes ≡ ok value
  unfolding decode_frame
  decode_frame-encode_frame value max_bytes {frame} read h =
      let (whole, least, most, word) = encode_frame-eq-ok value max_bytes h in
      let payload = codec.print value in
      let size : read_uint32 frame ≡ length payload =
        ap read_uint32 whole ∙ read_uint32-write_uint32 (length payload) payload word in
      let long : length frame ≡ length payload + 4 = ap length whole ∙ omega arith in
      let body : drop 4 frame ≡ payload = ap (drop 4) whole in ground (arith, ap codec.parse body)

  -- The loop takes a whole frame off the front.
  pub drain_frame :
      (value : V) (max_bytes fuel : ℕ) (rest : List ℕ) (values : List V) {frame : List ℕ}
      → codec.parse (codec.print value) ≡ some value
      → encode_frame codec value max_bytes ≡ ok frame
      → drain codec max_bytes (suc fuel) (frame ++ rest) values
        ≡ drain codec max_bytes fuel rest (values ++ value ∷ [])
  unfolding drain
  drain_frame value max_bytes fuel rest values {frame} read h =
      let (whole, least, most, word) = encode_frame-eq-ok value max_bytes h in
      let payload = codec.print value in
      let bytes = frame ++ rest in
      let long : length frame ≡ length payload + 4 = ap length whole ∙ omega arith in
      let size : read_uint32 bytes ≡ length payload =
        ap (λ f. read_uint32 (f ++ rest)) whole
        ∙ read_uint32-write_uint32 (length payload) (payload ++ rest) word in
      let cut : length frame ≡ read_uint32 bytes + 4 = long ∙ omega (arith, size) in
      let all = length-append frame rest in
      let front : decode_frame codec (take (read_uint32 bytes + 4) bytes) max_bytes ≡ ok value =
        ap (λ f. decode_frame codec f max_bytes) (take-front frame rest _ cut)
        ∙ decode_frame-encode_frame value max_bytes read h in
      let back : drop (read_uint32 bytes + 4) bytes ≡ rest = drop-front frame rest _ cut in
      ground (arith, ap (λ b. drain codec max_bytes fuel b (values ++ value ∷ [])) back)

  -- The loop waits for the rest of a frame.
  pub drain_partial :
      (value : V) (max_bytes fuel : ℕ) (bytes rest more : List ℕ) (values : List V) {frame : List ℕ}
      → encode_frame codec value max_bytes ≡ ok frame
      → bytes ++ rest ≡ frame ++ more
      → length bytes < length frame
      → (drain codec max_bytes fuel bytes values ≡ (bytes, ok values))
        × (length bytes ≤ max_bytes + 4)
  unfolding drain
  drain_partial value max_bytes zero bytes rest more values {frame} h e short =
      let (whole, least, most, word) = encode_frame-eq-ok value max_bytes h in
      let long : length frame ≡ length (codec.print value) + 4 = ap length whole ∙ omega arith in
      (refl, omega arith)
  drain_partial value max_bytes (suc fuel) bytes rest more values {frame} h e short =
      let (whole, least, most, word) = encode_frame-eq-ok value max_bytes h in
      let payload = codec.print value in
      let long : length frame ≡ length payload + 4 = ap length whole ∙ omega arith in
      (
        elim (Bool-cases (ltb (length bytes) 4)) [
          | inl few ↦ ground arith
          | inr enough ↦
              let (middle, cut, left) =
                append_split (write_uint32 (length payload)) (payload ++ more) bytes rest
                  (ap (λ f. f ++ more) (sym whole) ∙ sym e) (ground arith) in
              let size : read_uint32 bytes ≡ length payload =
                ap read_uint32 cut ∙ read_uint32-write_uint32 (length payload) middle word in
              ground arith
        ],
        omega arith,
      )

  -- What is read of values whose encoding begins with `bytes` and goes on with `rest`.
  abbrev pub Reads : List V → ℕ → ℕ → List ℕ → List ℕ → List V → Type 0
  Reads vs max_bytes fuel bytes rest values =
      (whole left : List V) × (kept later : List ℕ) × (drain codec max_bytes fuel bytes values
        ≡ (kept, ok (values ++ whole)))
      × (vs ≡ whole ++ left)
      × (encode_all codec left max_bytes ≡ ok later)
      × (kept ++ rest ≡ later)
      × (length kept ≤ max_bytes + 4)
      × (rest ≡ [] → left ≡ [])

  pub drain_next :
      (v : V) (vs : List V) (max_bytes fuel : ℕ) (bytes tail rest : List ℕ) (values : List V)
      {frame : List ℕ}
      → encode_frame codec v max_bytes ≡ ok frame
      → bytes ≡ frame ++ tail
      → codec.parse (codec.print v) ≡ some v
      → length bytes ≤ fuel
      → ((k : ℕ) → length tail ≤ k → Reads vs max_bytes k tail rest (values ++ v ∷ []))
      → Reads (v ∷ vs) max_bytes fuel bytes rest values
  drain_next v vs max_bytes zero bytes tail rest values {frame} first cut read fits more =
      let (whole, least, most, word) = encode_frame-eq-ok v max_bytes first in
      absurd (omega (arith, ap length cut, length-append frame tail, ap length whole))
  drain_next v vs max_bytes (suc fuel) bytes tail rest values {frame} first cut read fits more =
      let (begun, least, most, word) = encode_frame-eq-ok v max_bytes first in
      let (whole, left, kept, later, drained, split, coded, joined, small, last) =
        more fuel (omega (arith, ap length cut, length-append frame tail, ap length begun)) in
      (
        v ∷ whole,
        left,
        kept,
        later,
        ap (λ b. drain codec max_bytes (suc fuel) b values) cut
            ∙ drain_frame v max_bytes fuel tail values read first
            ∙ drained
            ∙ ap (λ vs. (kept, ok vs)) (append_assoc values (v ∷ []) whole),
        ap (λ vs. v ∷ vs) split,
        coded,
        joined,
        small,
        last,
      )
