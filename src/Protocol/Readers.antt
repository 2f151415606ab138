-- ===== src/Protocol/Readers.antt =====
-- Reading one frame from a stream (packages/execution-host/src/protocol.ts, `readEndedFrame` and
-- `readInitialFrame`): the events of the stream in order, and what the promise settles to.
use anastom.Prelude.{
  ℕ, ◌+◌, ◌≤◌, ◌≡◌, ◌∙◌, sym, ap, subst, Bool, false, ◌||◌, List, [], ◌∷◌, ◌++◌, Option, none, some,
  ok, err, length, length-append, concat, ltb, leb, arith, if◌then◌else◌,
}
use mathlib.Core.List.{append-nil, append_assoc}
use anastom.Protocol.Frames.{Codec, FrameError, Framed, decode_frame, encode_frame, read_uint32}
use anastom.Protocol.Draining.{decode_frame-encode_frame, encode_frame-eq-ok}

pub data StreamEvent : Type 0 where
  data_event : (chunk : List ℕ) → StreamEvent
  end_event close_event : StreamEvent
  error_event : FrameError → StreamEvent

module _ {V : Type 0} (codec : Codec V) where
  -- `bytes` are those of the chunks so far; `none` is a promise that is still pending.
  unfoldable pub read_ended_frame : ℕ → List ℕ → List StreamEvent → Option (Framed V)
  read_ended_frame max_bytes bytes [] = none
  read_ended_frame max_bytes bytes (data_event chunk ∷ rest) =
      let later = read_ended_frame max_bytes (bytes ++ chunk) rest in
      if ltb (max_bytes + 4) (length (bytes ++ chunk))
      then some (err FrameError.byte_limit)
      else later
  read_ended_frame max_bytes bytes (end_event ∷ rest) = some (decode_frame codec bytes max_bytes)
  read_ended_frame max_bytes bytes (close_event ∷ rest) = some (err FrameError.closed_early)
  read_ended_frame max_bytes bytes (error_event e ∷ rest) = some (err e)

  -- `expected` after the bytes have arrived; `none` is a size out of range.
  abbrev expect : ℕ → List ℕ → Option ℕ → Option (Option ℕ)
  expect max_bytes bytes (some size) = some (some size)
  expect max_bytes bytes none =
      if ltb (length bytes) 4
      then some none
      else if ltb (read_uint32 bytes) 1 || ltb max_bytes (read_uint32 bytes)
      then none
      else some (some (read_uint32 bytes))

  abbrev is_complete : List ℕ → Option ℕ → Bool
  is_complete bytes none = false
  is_complete bytes (some size) = leb (size + 4) (length bytes)

  abbrev pub after_data :
      ℕ → List ℕ → (Option ℕ → Option (Framed V)) → Option (Option ℕ) → Option (Framed V)
  after_data max_bytes bytes later none = some (err FrameError.invalid_length)
  after_data max_bytes bytes later (some expected) =
      if is_complete bytes expected
      then some (decode_frame codec bytes max_bytes)
      else later expected

  unfoldable pub read_initial_frame : ℕ → List ℕ → Option ℕ → List StreamEvent → Option (Framed V)
  unfolding read_uint32
  read_initial_frame max_bytes bytes expected [] = none
  read_initial_frame max_bytes bytes expected (data_event chunk ∷ rest) =
      let later = λ (size : Option ℕ). read_initial_frame max_bytes (bytes ++ chunk) size rest in
      if ltb (max_bytes + 4) (length (bytes ++ chunk))
      then some (err FrameError.byte_limit)
      else after_data max_bytes (bytes ++ chunk) later (expect max_bytes (bytes ++ chunk) expected)
  read_initial_frame max_bytes bytes expected (end_event ∷ rest) = some (err FrameError.ended_early)
  read_initial_frame max_bytes bytes expected (close_event ∷ rest) =
      some (err FrameError.closed_incomplete)
  read_initial_frame max_bytes bytes expected (error_event e ∷ rest) = some (err e)

  -- The events of a stream that delivers the chunks and ends.
  abbrev pub whole_stream : List (List ℕ) → List StreamEvent
  whole_stream [] = end_event ∷ []
  whole_stream (chunk ∷ chunks) = data_event chunk ∷ whole_stream chunks

  read_chunks :
      (max_bytes : ℕ) (bytes : List ℕ) (chunks : List (List ℕ))
      → length (bytes ++ concat chunks) ≤ max_bytes + 4
      → read_ended_frame max_bytes bytes (whole_stream chunks)
        ≡ some (decode_frame codec (bytes ++ concat chunks) max_bytes)
  unfolding read_ended_frame
  read_chunks max_bytes bytes [] h =
      ap (λ bs. some (decode_frame codec bs max_bytes)) (sym (append-nil bytes))
  read_chunks max_bytes bytes (chunk ∷ chunks) h =
      let joined = append_assoc bytes chunk (concat chunks) in
      let fits : length ((bytes ++ chunk) ++ concat chunks) ≤ max_bytes + 4 =
        subst (λ bs. length bs ≤ max_bytes + 4) (sym joined) h in
      let small : ltb (max_bytes + 4) (length (bytes ++ chunk)) ≡ false =
        ground (arith, fits, length-append (bytes ++ chunk) (concat chunks)) in
      let later = read_chunks max_bytes (bytes ++ chunk) chunks fits in
      rw small (later ∙ ap (λ bs. some (decode_frame codec bs max_bytes)) joined)

  -- A reader of one frame returns the value that was encoded, however its bytes were cut into chunks,
  -- where the stream ends behind them; this takes that the parser reads back what the printer writes.
  pub read_ended_frame-encode_frame :
      (value : V) (max_bytes : ℕ) (chunks : List (List ℕ))
      → codec.parse (codec.print value) ≡ some value
      → encode_frame codec value max_bytes ≡ ok (concat chunks)
      → read_ended_frame max_bytes [] (whole_stream chunks) ≡ some (ok value)
  read_ended_frame-encode_frame value max_bytes chunks read h =
      let (whole, least, most, word) = encode_frame-eq-ok codec value max_bytes h in
      read_chunks max_bytes [] chunks (omega (arith, ap length whole))
      ∙ ap some (decode_frame-encode_frame codec value max_bytes read h)
