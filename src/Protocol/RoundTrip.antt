-- ===== src/Protocol/RoundTrip.antt =====
-- What is encoded is decoded, however the bytes are cut into chunks
-- (packages/execution-host/src/protocol.ts).
use anastom.Prelude.{
  ℕ, zero, suc, ◌+◌, ◌≤◌, ◌≡◌, refl, sym, ap, ◌∙◌, inl, inr, Bool-cases, List, [], ◌∷◌, ◌++◌, some,
  ok, length, length-append, concat, ltb, arith, >>=-eq-ok, ok-injective,
}
use mathlib.Core.List.{append-nil, append_assoc}
use anastom.Protocol.Frames.{Codec, drain, encode_all, encode_frame, finish, push, push_all}
use anastom.Protocol.Splits.{append_split}
use anastom.Protocol.Draining.{encode_frame-eq-ok, drain_partial, Reads, drain_next, ltb→lt}

module _ {V : Type 0} (codec : Codec V) where
  -- Where bytes begin the encoding of values, the loop reads the values whose frames are whole, and
  -- leaves bytes that begin the encoding of the others.
  pub drain_stream :
      (vs : List V) (max_bytes fuel : ℕ) (bytes rest : List ℕ) (values : List V) {stream : List ℕ}
      → ((value : V) → codec.parse (codec.print value) ≡ some value)
      → encode_all codec vs max_bytes ≡ ok stream
      → bytes ++ rest ≡ stream
      → length bytes ≤ fuel
      → Reads codec vs max_bytes fuel bytes rest values
  unfolding encode_all drain
  drain_stream [] max_bytes zero bytes rest values {stream} read h e fits = (
    [],
    [],
    bytes,
    stream,
    ap (λ vs. (bytes, ok vs)) (sym (append-nil values)),
    refl,
    h,
    e,
    omega arith,
    λ empty. refl,
  )
  drain_stream [] max_bytes (suc fuel) bytes rest values {stream} read h e fits =
      let both : length bytes + length rest ≡ 0 =
        sym (length-append bytes rest) ∙ ap length (e ∙ sym (ok-injective h)) in
      let waits : drain codec max_bytes (suc fuel) bytes values ≡ (bytes, ok values) =
        ground arith in
      (
        [],
        [],
        bytes,
        stream,
        waits ∙ ap (λ vs. (bytes, ok vs)) (sym (append-nil values)),
        refl,
        h,
        e,
        omega arith,
        λ empty. refl,
      )
  drain_stream (v ∷ vs) max_bytes fuel bytes rest values {stream} read h e fits =
      let (frame, first, h1) = >>=-eq-ok (encode_frame codec v max_bytes) _ h in
      let (others, coded, h2) = >>=-eq-ok (encode_all codec vs max_bytes) _ h1 in
      let joined : bytes ++ rest ≡ frame ++ others = e ∙ sym (ok-injective h2) in
      elim (Bool-cases (ltb (length bytes) (length frame))) [
        | inl short ↦
            let (waits, small) =
              drain_partial codec v max_bytes fuel bytes rest others values first joined
                (ground arith) in
            (
              [],
              v ∷ vs,
              bytes,
              stream,
              waits ∙ ap (λ vs. (bytes, ok vs)) (sym (append-nil values)),
              refl,
              h,
              e,
              small,
              λ empty. absurd (
                  omega (
                    arith,
                    ap length joined,
                    ap length empty,
                    length-append bytes rest,
                    length-append frame others,
                    ltb→lt (length bytes) (length frame) short,
                  )),
            )
        | inr long ↦
            let (tail, cut, next) =
              append_split frame others bytes rest (sym joined) (ground arith) in
            drain_next codec v vs max_bytes fuel bytes tail rest values first cut (read v) fits
              (λ k. drain_stream vs max_bytes k tail rest (values ++ v ∷ []) read coded next)
      ]

  no_values : (vs : List V) (max_bytes : ℕ) → encode_all codec vs max_bytes ≡ ok [] → vs ≡ []
  unfolding encode_all
  no_values [] max_bytes h = refl
  no_values (v ∷ vs) max_bytes h =
      let (frame, first, h1) = >>=-eq-ok (encode_frame codec v max_bytes) _ h in
      let (others, coded, h2) = >>=-eq-ok (encode_all codec vs max_bytes) _ h1 in
      let (whole, least, most, word) = encode_frame-eq-ok codec v max_bytes first in
      absurd
        (omega (arith, ap length (ok-injective h2), length-append frame others, ap length whole))

  push_all_stream :
      (chunks : List (List ℕ)) (vs : List V) (max_bytes : ℕ) (bytes : List ℕ) {stream : List ℕ}
      → ((value : V) → codec.parse (codec.print value) ≡ some value)
      → encode_all codec vs max_bytes ≡ ok stream
      → bytes ++ concat chunks ≡ stream
      → (concat chunks ≡ [] → vs ≡ [])
      → push_all codec max_bytes bytes chunks ≡ ok (vs, [])
  unfolding push_all encode_all
  push_all_stream [] vs max_bytes bytes {stream} read h e last =
      let no_values : vs ≡ [] = last refl in
      let no_stream : stream ≡ [] =
        sym (ok-injective (ap (λ v. encode_all codec v max_bytes) (sym no_values) ∙ h)) in
      let no_bytes : bytes ≡ [] = sym (append-nil bytes) ∙ e ∙ no_stream in cc
  push_all_stream (chunk ∷ chunks) vs max_bytes bytes read h e last =
      let all = bytes ++ chunk in
      let (whole, left, kept, later, drained, split, coded, joined, small, final) =
        drain_stream vs max_bytes (length all) all (concat chunks) [] read h
          (append_assoc bytes chunk (concat chunks) ∙ e) (omega arith) in
      let pushed : push codec max_bytes bytes chunk ≡ (kept, ok whole) = ground (arith, drained) in
      let more = push_all_stream chunks left max_bytes kept read coded joined final in
      ground (arith, pushed, more, split)

  -- The decoder reads back exactly the values that were encoded one behind the other, in order, and
  -- ends between frames, however the bytes were cut into chunks on the way; this takes that the
  -- parser reads back what the printer writes.
  pub push_all-encode_all :
      (vs : List V) (max_bytes : ℕ) (chunks : List (List ℕ))
      → ((value : V) → codec.parse (codec.print value) ≡ some value)
      → encode_all codec vs max_bytes ≡ ok (concat chunks)
      → (push_all codec max_bytes [] chunks ≡ ok (vs, [])) × (finish [] ≡ ok tt)
  unfolding finish
  push_all-encode_all vs max_bytes chunks read h = (
    push_all_stream chunks vs max_bytes [] read h refl
        (λ empty. no_values vs max_bytes (h ∙ ap ok empty)),
    refl,
  )
