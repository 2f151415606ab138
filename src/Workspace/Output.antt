-- ===== src/Workspace/Output.antt =====
-- The output that a local command retains (packages/engine/src/command.ts, `LocalCommandExecutor`).
use anastom.Prelude.{
  ℕ, zero, suc, ◌+◌, ◌-◌, ◌≡◌, ◌∙◌, refl, sym, ap, subst, Bool, true, false, List, [], ◌∷◌, ◌++◌,
  length, take, concat, ltb, arith, length-append, if◌then◌else◌,
}
use mathlib.Core.List.{append-nil, append_assoc}

-- `stdoutBytes`, `stdoutKept` and the concatenation of `stdout`; the other stream has the same.
pub record Retained : Type 0 where
  pub total : ℕ
  pub kept : ℕ
  pub chunks : List (List ℕ)

abbrev pub nothing_retained : Retained
nothing_retained = record { total = 0; kept = 0; chunks = [] }

abbrev is_empty : List ℕ → Bool
is_empty [] = true
is_empty (b ∷ bs) = false

-- A `data` event.
unfoldable pub retain : ℕ → Retained → List ℕ → Retained
retain max_output_bytes r chunk =
    let part = take (max_output_bytes - r.kept) chunk in
    record {
      total = r.total + length chunk;
      kept = r.kept + length part;
      chunks = if is_empty part then r.chunks else r.chunks ++ part ∷ [];
    }

unfoldable pub retain_all : ℕ → Retained → List (List ℕ) → Retained
unfolding retain
retain_all max_output_bytes r [] = r
retain_all max_output_bytes r (chunk ∷ chunks) =
    retain_all max_output_bytes (retain max_output_bytes r chunk) chunks

abbrev pub is_truncated : Retained → Bool
is_truncated r = ltb r.kept r.total

concat-append : (xss : List (List ℕ)) (xs : List ℕ) → concat (xss ++ xs ∷ []) ≡ concat xss ++ xs
concat-append [] xs = append-nil xs
concat-append (ys ∷ xss) xs =
    ap (λ zs. ys ++ zs) (concat-append xss xs) ∙ sym (append_assoc ys (concat xss) xs)

take-append_split :
    (n : ℕ) (xs ys : List ℕ) → take n (xs ++ ys) ≡ take n xs ++ take (n - length (take n xs)) ys
take-append_split zero xs ys = refl
take-append_split (suc n) [] ys =
    let same : suc n ≡ suc n - 0 = omega arith in ap (λ k. take k ys) same
take-append_split (suc n) (x ∷ xs) ys =
    let same : n - length (take n xs) ≡ suc n - suc (length (take n xs)) = omega arith in
    ap (λ zs. x ∷ zs) (take-append_split n xs ys) ∙ ap (λ k. x ∷ (take n xs ++ take k ys)) same

truncated_iff : (n : ℕ) (xs : List ℕ) → ltb (length (take n xs)) (length xs) ≡ ltb n (length xs)
truncated_iff zero xs = refl
truncated_iff (suc n) [] = ground arith
truncated_iff (suc n) (x ∷ xs) = let rest = truncated_iff n xs in ground (arith, rest)

take_nil : (n : ℕ) → take {A = ℕ} n [] ≡ []
take_nil zero = refl
take_nil (suc n) = refl

-- The bytes that have arrived are `bytes`, and the first of them are kept.
pub record Keeps (max_output_bytes : ℕ) (bytes : List ℕ) (r : Retained) : Type 0 where
  pub counted : r.total ≡ length bytes
  pub kept_counted : r.kept ≡ length (concat r.chunks)
  pub first_kept : concat r.chunks ≡ take max_output_bytes bytes

concat-retain :
    (n : ℕ) (r : Retained) (chunk : List ℕ)
    → concat (retain n r chunk).chunks ≡ concat r.chunks ++ take (n - r.kept) chunk
unfolding retain
concat-retain n r chunk = kept_if (take (n - r.kept) chunk)
  where
    kept_if :
        (part : List ℕ)
        → concat (if is_empty part then r.chunks else r.chunks ++ part ∷ [])
          ≡ concat r.chunks ++ part
    kept_if [] = sym (append-nil (concat r.chunks))
    kept_if (b ∷ bs) = concat-append r.chunks (b ∷ bs)

retain-Keeps :
    (n : ℕ) (bytes : List ℕ) (r : Retained) (chunk : List ℕ)
    → Keeps n bytes r
    → Keeps n (bytes ++ chunk) (retain n r chunk)
unfolding retain
retain-Keeps n bytes r chunk k =
    let whole = concat-retain n r chunk in
    record {
      counted = omega (arith, k.counted, length-append bytes chunk);
      kept_counted = omega (
        arith,
        k.kept_counted,
        ap length whole,
        length-append (concat r.chunks) (take (n - r.kept) chunk),
      );
      first_kept =
          whole
          ∙ ap (λ xs. xs ++ take (n - r.kept) chunk) k.first_kept
          ∙ ap (λ m. take n bytes ++ take (n - m) chunk) (k.kept_counted ∙ ap length k.first_kept)
          ∙ sym (take-append_split n bytes chunk);
    }

retain_all-Keeps :
    (n : ℕ) (bytes : List ℕ) (r : Retained) (chunks : List (List ℕ))
    → Keeps n bytes r
    → Keeps n (bytes ++ concat chunks) (retain_all n r chunks)
unfolding retain_all
retain_all-Keeps n bytes r [] k = subst (λ bs. Keeps n bs r) (sym (append-nil bytes)) k
retain_all-Keeps n bytes r (chunk ∷ chunks) k =
    subst (λ bs. Keeps n bs (retain_all n (retain n r chunk) chunks))
      (append_assoc bytes chunk (concat chunks))
      (retain_all-Keeps n (bytes ++ chunk) (retain n r chunk) chunks
        (retain-Keeps n bytes r chunk k))

-- However the output of a command is cut into chunks: what is retained are its first bytes, as many
-- as the limit allows, the total counts all of them, and the output is reported as truncated exactly
-- if it is longer than the limit.
pub retain_all_lem :
    (max_output_bytes : ℕ) (chunks : List (List ℕ))
    → ((retain_all max_output_bytes nothing_retained chunks).total ≡ length (concat chunks))
      × (concat (retain_all max_output_bytes nothing_retained chunks).chunks
          ≡ take max_output_bytes (concat chunks))
      × (is_truncated (retain_all max_output_bytes nothing_retained chunks)
          ≡ ltb max_output_bytes (length (concat chunks)))
retain_all_lem n chunks =
    let r = retain_all n nothing_retained chunks in
    let start : Keeps n [] nothing_retained = record {
      counted = refl;
      kept_counted = refl;
      first_kept = sym (take_nil n);
    } in
    let k = retain_all-Keeps n [] nothing_retained chunks start in
    (
      k.counted,
      k.first_kept,
      ap (λ m. ltb m r.total) (k.kept_counted ∙ ap length k.first_kept)
          ∙ ap (λ m. ltb (length (take n (concat chunks))) m) k.counted
          ∙ truncated_iff n (concat chunks),
    )
