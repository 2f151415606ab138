-- ===== src/Store/Listing.antt =====
-- What the listing of pending controls returns (packages/engine/src/durable-store.ts).
use anastom.Prelude.{
  ℕ, zero, suc, ◌≤◌, String, Bool, ◌≡◌, subst, inl, inr, Bool-cases, List, [], ◌∷◌, map, values,
  take, length, ok, ◌>>=◌, ◌>>◌, guard-eq-ok, >>=-eq-ok, arith, number_equality,
}
use anastom.Store.Types.{ControlRequest, MemoryControl}
use anastom.Store.Commits.{control_request}
use anastom.Store.Checks.{assert_control_limit}
use anastom.Store.Runs.{Runs, require_run}
use anastom.Store.Controls.{
  insert_oldest, list_pending, not_behind, oldest_first, pending, pending_controls,
}

-- Each time is at most the next.
abbrev pub AreOldestFirst : List ControlRequest → Type 0
AreOldestFirst [] = Unit {0}
AreOldestFirst (r ∷ []) = Unit {0}
AreOldestFirst (r ∷ s ∷ rs) = (r.recorded_at_ms ≤ s.recorded_at_ms) × AreOldestFirst (s ∷ rs)

listing_bounded : (n : ℕ) (cs : List MemoryControl) → length (map control_request (take n cs)) ≤ n
listing_bounded zero cs = omega arith
listing_bounded (suc n) [] = omega arith
listing_bounded (suc n) (c ∷ cs) = omega (arith, listing_bounded n cs)

take-AreOldestFirst :
    (n : ℕ) (cs : List MemoryControl)
    → AreOldestFirst (map control_request cs)
    → AreOldestFirst (map control_request (take n cs))
take-AreOldestFirst zero cs o = tt
take-AreOldestFirst (suc n) [] o = tt
take-AreOldestFirst (suc zero) (c ∷ cs) o = tt
take-AreOldestFirst (suc (suc n)) (c ∷ []) o = tt
take-AreOldestFirst (suc (suc n)) (c ∷ d ∷ cs) o = (o.0, take-AreOldestFirst (suc n) (d ∷ cs) o.1)

module _ (locale_le : String → String → Bool) where
  -- Behind a control that is not older than `c`, insertion keeps the order.
  insert_behind :
      (b c : MemoryControl) (ds : List MemoryControl)
      → b.recorded_at_ms ≤ c.recorded_at_ms
      → AreOldestFirst (map control_request (b ∷ ds))
      → AreOldestFirst (map control_request (b ∷ insert_oldest locale_le c ds))
  unfolding insert_oldest
  insert_behind b c [] le o = (le, tt)
  insert_behind b c (d ∷ ds) le o = elim (Bool-cases (not_behind locale_le c d)) [
    | inl before ↦
        let older : c.recorded_at_ms ≤ d.recorded_at_ms = ground arith in
        rw before ((le, (older, o.1)))
    | inr behind ↦
        let younger : d.recorded_at_ms ≤ c.recorded_at_ms = ground arith in
        rw behind (o.0, insert_behind d c ds younger o.1)
  ]

  insert-AreOldestFirst :
      (c : MemoryControl) (ds : List MemoryControl)
      → AreOldestFirst (map control_request ds)
      → AreOldestFirst (map control_request (insert_oldest locale_le c ds))
  unfolding insert_oldest
  insert-AreOldestFirst c [] o = tt
  insert-AreOldestFirst c (d ∷ ds) o = elim (Bool-cases (not_behind locale_le c d)) [
    | inl before ↦
        let older : c.recorded_at_ms ≤ d.recorded_at_ms = ground arith in rw before (older, o)
    | inr behind ↦
        let younger : d.recorded_at_ms ≤ c.recorded_at_ms = ground arith in
        rw behind (insert_behind d c ds younger o)
  ]

  sorted :
      (cs : List MemoryControl) → AreOldestFirst (map control_request (oldest_first locale_le cs))
  unfolding oldest_first
  sorted [] = tt
  sorted (c ∷ cs) = insert-AreOldestFirst c (oldest_first locale_le cs) (sorted cs)

  -- A listing that succeeds holds at most as many requests as the limit, which is at most 100, oldest
  -- first, whatever the order of texts is.
  pub pending_controls_bounded :
      (runs : Runs) (i : String) (limit : ℕ) {rs : List ControlRequest}
      → pending_controls locale_le runs i limit ≡ ok rs
      → (length rs ≤ limit) × (limit ≤ 100) × AreOldestFirst rs
  unfolding pending_controls list_pending assert_control_limit
  pending_controls_bounded runs i limit {rs} h =
      let (named, h1) =
        guard-eq-ok _ _
          (λ _.
            assert_control_limit limit
            >> (require_run runs i >>= λ run. ok (list_pending locale_le run limit)))
          h in
      let (u, bounded, h2) = >>=-eq-ok (assert_control_limit limit) _ h1 in
      let (run, found, h3) = >>=-eq-ok (require_run runs i) _ h2 in
      let listed : list_pending locale_le run limit ≡ rs = ground arith in
      let all = oldest_first locale_le (pending (values run.controls)) in
      (
        subst (λ l. length l ≤ limit) listed (listing_bounded limit all),
        ground arith,
        subst AreOldestFirst listed
            (take-AreOldestFirst limit all (sorted (pending (values run.controls)))),
      )
