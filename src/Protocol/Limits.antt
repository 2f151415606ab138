-- ===== src/Protocol/Limits.antt =====
-- What the decoder does on any bytes (packages/execution-host/src/protocol.ts, `FrameDecoder`).
use anastom.Prelude.{
  ℕ, zero, suc, ◌+◌, ◌≤◌, ◌<◌, ◌≡◌, ◌⊎◌, refl, sym, ap, subst, inl, inr, Bool-cases, Result-cases,
  true, false, List, [], ◌∷◌, ◌++◌, ok, err, length, take, drop, ltb, arith, ◌||◌,
}
use anastom.Protocol.Frames.{
  Codec, FrameError, Framed, decode_frame, drain, push, read_uint32, within,
}

length-drop-lt :
    {A : Type 0} (n : ℕ) (xs : List A) → 0 < n → n ≤ length xs → length (drop n xs) < length xs
length-drop-lt zero xs h k = absurd (omega arith)
length-drop-lt (suc n) [] h k = absurd (omega arith)
length-drop-lt (suc zero) (x ∷ xs) h k = omega arith
length-drop-lt (suc (suc n)) (x ∷ xs) h k =
    omega (arith, length-drop-lt (suc n) xs (omega arith) (omega arith))

length-take : {A : Type 0} (n : ℕ) (xs : List A) → n ≤ length xs → length (take n xs) ≡ n
length-take zero xs h = refl
length-take (suc n) [] h = absurd (omega arith)
length-take (suc n) (x ∷ xs) h = omega (arith, length-take n xs (omega arith))

read_uint32-take :
    (n : ℕ) (bytes : List ℕ)
    → n + 4 ≤ length bytes
    → read_uint32 (take (n + 4) bytes) ≡ read_uint32 bytes
unfolding read_uint32
read_uint32-take n (a ∷ b ∷ c ∷ d ∷ bytes) h =
    let four : n + 4 ≡ suc (suc (suc (suc n))) = omega arith in
    ap (λ k. read_uint32 (take k (a ∷ b ∷ c ∷ d ∷ bytes))) four
read_uint32-take n [] h = absurd (omega arith)
read_uint32-take n (a ∷ []) h = absurd (omega arith)
read_uint32-take n (a ∷ b ∷ []) h = absurd (omega arith)
read_uint32-take n (a ∷ b ∷ c ∷ []) h = absurd (omega arith)

module _ {V : Type 0} (codec : Codec V) where
  -- The bytes that stay are fewer than the longest frame; else the size was out of range, or the
  -- payload of a whole frame was no value.
  abbrev pub IsBounded : ℕ → List ℕ × Framed (List V) → Type 0
  IsBounded max_bytes (left, ok values) = length left < max_bytes + 4
  IsBounded max_bytes (left, err e) = (e ≡ FrameError.invalid_length) ⊎ (e ≡ FrameError.undecodable)

  decode_whole :
      (max_bytes : ℕ) (bytes : List ℕ) {e : FrameError}
      → 1 ≤ read_uint32 bytes
      → read_uint32 bytes ≤ max_bytes
      → read_uint32 bytes + 4 ≤ length bytes
      → decode_frame codec (take (read_uint32 bytes + 4) bytes) max_bytes ≡ err e
      → e ≡ FrameError.undecodable
  unfolding decode_frame
  decode_whole max_bytes bytes least most fits h =
      let size = read_uint32-take (read_uint32 bytes) bytes fits in
      let long = length-take (read_uint32 bytes + 4) bytes fits in ground arith

  -- One round, on each of its branches.
  module _ (max_bytes fuel : ℕ) (bytes : List ℕ) (values : List V) where
    stops :
        ltb (length bytes) 4 ≡ true
        → drain codec max_bytes (suc fuel) bytes values ≡ (bytes, ok values)
    unfolding drain
    stops few = ground arith

    refuses :
        ltb (length bytes) 4 ≡ false
        → ltb (read_uint32 bytes) 1 || ltb max_bytes (read_uint32 bytes) ≡ true
        → drain codec max_bytes (suc fuel) bytes values ≡ (bytes, err FrameError.invalid_length)
    unfolding drain
    refuses enough wrong = ground arith

    module _ (enough : ltb (length bytes) 4 ≡ false)
        (right : ltb (read_uint32 bytes) 1 || ltb max_bytes (read_uint32 bytes) ≡ false) where
      partial :
          ltb (length bytes) (read_uint32 bytes + 4) ≡ true
          → drain codec max_bytes (suc fuel) bytes values ≡ (bytes, ok values)
      unfolding drain
      partial waits = ground arith

      goes_on :
          ltb (length bytes) (read_uint32 bytes + 4) ≡ false
          → (value : V)
          → decode_frame codec (take (read_uint32 bytes + 4) bytes) max_bytes ≡ ok value
          → drain codec max_bytes (suc fuel) bytes values
            ≡ drain codec max_bytes fuel (drop (read_uint32 bytes + 4) bytes) (values ++ value ∷ [])
      unfolding drain
      goes_on whole value read = ground arith

      fails :
          ltb (length bytes) (read_uint32 bytes + 4) ≡ false
          → (e : FrameError)
          → decode_frame codec (take (read_uint32 bytes + 4) bytes) max_bytes ≡ err e
          → drain codec max_bytes (suc fuel) bytes values ≡ (bytes, err e)
      unfolding drain
      fails whole e failed = ground arith

  drain-IsBounded :
      (max_bytes fuel : ℕ) (bytes : List ℕ) (values : List V)
      → length bytes ≤ fuel
      → IsBounded max_bytes (drain codec max_bytes fuel bytes values)
  unfolding drain
  drain-IsBounded max_bytes zero bytes values fits = omega arith
  drain-IsBounded max_bytes (suc fuel) bytes values fits =
      elim (Bool-cases (ltb (length bytes) 4)) [
        | inl few ↦
            subst (IsBounded max_bytes) (sym (stops max_bytes fuel bytes values few)) (ground arith)
        | inr enough ↦
            elim (Bool-cases (ltb (read_uint32 bytes) 1 || ltb max_bytes (read_uint32 bytes))) [
              | inl wrong ↦
                  subst (IsBounded max_bytes)
                    (sym (refuses max_bytes fuel bytes values enough wrong)) (inl refl)
              | inr right ↦ elim (Bool-cases (ltb (length bytes) (read_uint32 bytes + 4))) [
                | inl waits ↦
                    subst (IsBounded max_bytes)
                      (sym (partial max_bytes fuel bytes values enough right waits)) (ground arith)
                | inr whole ↦
                    elim (Result-cases
                      (decode_frame codec (take (read_uint32 bytes + 4) bytes) max_bytes)) [
                        | inl (value, read) ↦
                            subst (IsBounded max_bytes)
                              (sym
                                (goes_on max_bytes fuel bytes values enough right whole value read))
                              (drain-IsBounded max_bytes fuel (drop (read_uint32 bytes + 4) bytes)
                                (values ++ value ∷ [])
                                (omega (
                                  arith,
                                  length-drop-lt (read_uint32 bytes + 4) bytes (omega arith)
                                      (ground arith),
                                )))
                        | inr (e, failed) ↦
                            subst (IsBounded max_bytes)
                              (sym (fails max_bytes fuel bytes values enough right whole e failed))
                              (inr (
                                decode_whole max_bytes bytes (ground arith) (ground arith)
                                  (ground arith) failed))
                      ]
              ]
            ]
      ]

  within-IsBounded :
      (max_bytes : ℕ) (r : List ℕ × Framed (List V))
      → IsBounded max_bytes r
      → IsBounded max_bytes (within codec max_bytes r)
  within-IsBounded max_bytes (left, err e) h = h
  within-IsBounded max_bytes (left, ok values) h =
      let same : within codec max_bytes (left, ok values) ≡ (left, ok values) = ground arith in
      subst (IsBounded max_bytes) (sym same) h

  -- Whatever bytes arrive, one call of `push` ends: either it keeps fewer bytes than the longest frame
  -- has, so that the check of the limit behind the loop never throws, or it throws for a size out of
  -- range or for a payload that is no value.
  pub push-IsBounded :
      (max_bytes : ℕ) (bytes chunk : List ℕ)
      → IsBounded max_bytes (push codec max_bytes bytes chunk)
  unfolding push
  push-IsBounded max_bytes bytes chunk =
      within-IsBounded max_bytes
        (drain codec max_bytes (length (bytes ++ chunk)) (bytes ++ chunk) [])
        (drain-IsBounded max_bytes (length (bytes ++ chunk)) (bytes ++ chunk) [] (omega arith))
