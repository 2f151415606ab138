-- ===== src/Protocol/Tests.antt =====
-- A codec of one byte, and the theorems about the decoder at its frames.
use anastom.Prelude.{
  ℕ, Bool, true, false, ◌≡◌, refl, List, [], ◌∷◌, Option, none, some, ok, err, concat, ◌==◌,
  number_equality, if◌then◌else◌,
}
use anastom.Protocol.Frames.{
  Codec, FrameError, decode_frame, drain, encode_all, encode_frame, finish, push, push_all,
  read_uint32,
}
use anastom.Protocol.Readers.{
  data_event, end_event, read_ended_frame, read_ended_frame-encode_frame, read_initial_frame,
  whole_stream,
}
use anastom.Protocol.RoundTrip.{push_all-encode_all}
use anastom.Protocol.Limits.{IsBounded, push-IsBounded}

abbrev digit : Bool → List ℕ
digit true = 49 ∷ []
digit false = 48 ∷ []

abbrev of_digit : List ℕ → Option Bool
of_digit (c ∷ []) = if c == 49 then some true else if c == 48 then some false else none
of_digit _ = none

abbrev digits : Codec Bool
digits = record { print = digit; parse = of_digit }

digits_read : (b : Bool) → of_digit (digit b) ≡ some b
digits_read true = refl
digits_read false = refl

abbrev cut : List (List ℕ)
cut = (0 ∷ 0 ∷ []) ∷ (0 ∷ 1 ∷ 49 ∷ 0 ∷ 0 ∷ []) ∷ [] ∷ (0 ∷ 1 ∷ 48 ∷ []) ∷ []

encoded : encode_all digits (true ∷ false ∷ []) 8 ≡ ok (concat cut)
unfolding encode_all encode_frame
encoded = refl

push_all-encode_all_example :
    (push_all digits 8 [] cut ≡ ok (true ∷ false ∷ [], [])) × (finish [] ≡ ok tt)
push_all-encode_all_example =
    push_all-encode_all digits (true ∷ false ∷ []) 8 cut digits_read encoded

push-IsBounded_example : IsBounded digits 8 (push digits 8 (0 ∷ []) (0 ∷ 0 ∷ 9 ∷ 49 ∷ []))
push-IsBounded_example = push-IsBounded digits 8 (0 ∷ []) (0 ∷ 0 ∷ 9 ∷ 49 ∷ [])

refused_length : (push digits 8 (0 ∷ []) (0 ∷ 0 ∷ 9 ∷ 49 ∷ [])).0 ≡ 0 ∷ 0 ∷ 0 ∷ 9 ∷ 49 ∷ []
unfolding push drain read_uint32
refused_length = refl

abbrev one_frame : List (List ℕ)
one_frame = (0 ∷ 0 ∷ []) ∷ (0 ∷ []) ∷ (1 ∷ 49 ∷ []) ∷ []

one_encoded : encode_frame digits true 8 ≡ ok (concat one_frame)
unfolding encode_frame
one_encoded = refl

read_ended_frame-encode_frame_example :
    read_ended_frame digits 8 [] (whole_stream digits one_frame) ≡ some (ok true)
read_ended_frame-encode_frame_example =
    read_ended_frame-encode_frame digits true 8 one_frame refl one_encoded

initial_read :
    read_initial_frame digits 8 [] none
      (data_event (0 ∷ 0 ∷ 0 ∷ []) ∷ data_event (1 ∷ 49 ∷ []) ∷ [])
    ≡ some (ok true)
unfolding read_initial_frame decode_frame read_uint32
initial_read = refl

initial_ended :
    read_initial_frame digits 8 [] none (data_event (0 ∷ 0 ∷ 0 ∷ []) ∷ end_event ∷ [])
    ≡ some (err FrameError.ended_early)
unfolding read_initial_frame
initial_ended = refl
