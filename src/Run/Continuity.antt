-- ===== src/Run/Continuity.antt =====
-- What the events of packages/engine/src/events.ts leave of the attempts of a node.
use anastom.Prelude.{
  Bool, true, false, ◌≡◌, ◌∙◌, refl, sym, ap, subst, List, [], ◌∷◌, ◌++◌, some, get_last?, set_last,
  arith,
}
use anastom.Contract.{RuntimeUsage}
use anastom.Run.State.{AttemptState, AttemptStatus}

-- What may become of an attempt's status, in any number of events.
abbrev pub attempt_may_become : AttemptStatus → AttemptStatus → Bool
attempt_may_become AttemptStatus.scheduled _ = true
attempt_may_become AttemptStatus.prepared AttemptStatus.scheduled = false
attempt_may_become AttemptStatus.prepared _ = true
attempt_may_become AttemptStatus.running AttemptStatus.scheduled = false
attempt_may_become AttemptStatus.running AttemptStatus.prepared = false
attempt_may_become AttemptStatus.running _ = true
attempt_may_become AttemptStatus.orphaned AttemptStatus.orphaned = true
attempt_may_become AttemptStatus.blocked AttemptStatus.blocked = true
attempt_may_become AttemptStatus.succeeded AttemptStatus.succeeded = true
attempt_may_become AttemptStatus.failed AttemptStatus.failed = true
attempt_may_become AttemptStatus.cancelled AttemptStatus.cancelled = true
attempt_may_become _ _ = false

abbrev pub is_planned : AttemptStatus → Bool
is_planned AttemptStatus.scheduled = false
is_planned _ = true

abbrev pub is_launched : AttemptStatus → Bool
is_launched AttemptStatus.scheduled = false
is_launched AttemptStatus.prepared = false
is_launched _ = true

abbrev pub is_ended : AttemptStatus → Bool
is_ended AttemptStatus.scheduled = false
is_ended AttemptStatus.prepared = false
is_ended AttemptStatus.running = false
is_ended _ = true

-- The attempt goes on as another state of itself. Its number, its runtime and a usage stay; the plan
-- and the checkpoint stay once it was prepared, the execution once it was launched; and once it has
-- ended, its status, failure, orphan evidence and identities stay.
pub record Continues (a b : AttemptState) : Type 0 where
  pub same_number : b.number ≡ a.number
  pub same_runtime : b.runtime_id ≡ a.runtime_id
  pub attempt_on : attempt_may_become a.status b.status ≡ true
  pub usage_stays : (u : RuntimeUsage) → a.usage ≡ some u → b.usage ≡ some u
  pub plan_stays :
      is_planned a.status ≡ true
      → (b.execution_plan ≡ a.execution_plan) × (b.workspace_checkpoint ≡ a.workspace_checkpoint)
  pub execution_stays : is_launched a.status ≡ true → b.execution ≡ a.execution
  pub ending_stays :
      is_ended a.status ≡ true
      → (b.status ≡ a.status)
        × (b.failure ≡ a.failure)
        × (b.orphan ≡ a.orphan)
        × (b.identity ≡ a.identity)

attempt_stays : (st : AttemptStatus) → attempt_may_become st st ≡ true
attempt_stays AttemptStatus.scheduled = refl
attempt_stays _ = refl

pub Continues-refl : (a : AttemptState) → Continues a a
Continues-refl a = record {
  same_number = refl;
  same_runtime = refl;
  attempt_on = attempt_stays a.status;
  usage_stays = λ u e. e;
  plan_stays = λ p. (refl, refl);
  execution_stays = λ p. refl;
  ending_stays = λ p. (refl, refl, refl, refl);
}

attempt_may_become_trans :
    (x y z : AttemptStatus)
    → attempt_may_become x y ≡ true
    → attempt_may_become y z ≡ true
    → attempt_may_become x z ≡ true
attempt_may_become_trans AttemptStatus.scheduled y z h k = ground arith
attempt_may_become_trans _ y z h k = ground arith

planned_on :
    (x y : AttemptStatus)
    → is_planned x ≡ true
    → attempt_may_become x y ≡ true
    → is_planned y ≡ true
planned_on AttemptStatus.scheduled y p h = cc
planned_on _ y p h = ground arith

launched_on :
    (x y : AttemptStatus)
    → is_launched x ≡ true
    → attempt_may_become x y ≡ true
    → is_launched y ≡ true
launched_on AttemptStatus.scheduled y p h = cc
launched_on _ y p h = ground arith

pub Continues-trans : (a b c : AttemptState) → Continues a b → Continues b c → Continues a c
Continues-trans a b c f g = record {
  same_number = g.same_number ∙ f.same_number;
  same_runtime = g.same_runtime ∙ f.same_runtime;
  attempt_on = attempt_may_become_trans a.status b.status c.status f.attempt_on g.attempt_on;
  usage_stays = λ u e. g.usage_stays u (f.usage_stays u e);
  plan_stays = λ p.
      let (one, two) = f.plan_stays p in
      let (three, four) = g.plan_stays (planned_on a.status b.status p f.attempt_on) in
      (three ∙ one, four ∙ two);
  execution_stays =
      λ p. g.execution_stays (launched_on a.status b.status p f.attempt_on) ∙ f.execution_stays p;
  ending_stays = λ p.
      let (same, failure, orphan, identity) = f.ending_stays p in
      let (same', failure', orphan', identity') = g.ending_stays (ap is_ended same ∙ p) in
      (same' ∙ same, failure' ∙ failure, orphan' ∙ orphan, identity' ∙ identity);
}

-- The earlier attempts stay as they are, the last of them goes on, and further ones may follow.
abbrev pub Carries : List AttemptState → List AttemptState → Type 0
Carries [] bs = Unit {0}
Carries (a ∷ xs) [] = ⊥
Carries (a ∷ []) (b ∷ bs) = Continues a b
Carries (a ∷ x ∷ xs) (b ∷ bs) = (b ≡ a) × Carries (x ∷ xs) bs

pub Carries-refl : (xs : List AttemptState) → Carries xs xs
Carries-refl [] = tt
Carries-refl (a ∷ []) = Continues-refl a
Carries-refl (a ∷ x ∷ xs) = (refl, Carries-refl (x ∷ xs))

pub Carries-trans : (xs ys zs : List AttemptState) → Carries xs ys → Carries ys zs → Carries xs zs
Carries-trans [] ys zs f g = tt
Carries-trans (a ∷ []) (b ∷ []) (c ∷ zs) f g = Continues-trans a b c f g
Carries-trans (a ∷ []) (b ∷ y ∷ ys) (c ∷ zs) f g = subst (Continues a) (sym (g.0)) f
Carries-trans (a ∷ x ∷ xs) (b ∷ y ∷ ys) (c ∷ zs) f g =
    (g.0 ∙ f.0, Carries-trans (x ∷ xs) (y ∷ ys) zs f.1 g.1)
Carries-trans (a ∷ []) [] zs f g = elim f [ ]
Carries-trans (a ∷ []) (b ∷ []) [] f g = elim g [ ]
Carries-trans (a ∷ []) (b ∷ y ∷ ys) [] f g = elim g [ ]
Carries-trans (a ∷ x ∷ xs) (b ∷ []) (c ∷ zs) f g = elim f.1 [ ]
Carries-trans (a ∷ x ∷ xs) [] zs f g = elim f [ ]
Carries-trans (a ∷ x ∷ xs) (b ∷ ys) [] f g = elim g [ ]

pub Carries-append : (xs ys : List AttemptState) → Carries xs (xs ++ ys)
Carries-append [] ys = tt
Carries-append (a ∷ []) ys = Continues-refl a
Carries-append (a ∷ x ∷ xs) ys = (refl, Carries-append (x ∷ xs) ys)

pub Carries-set_last :
    (xs : List AttemptState) (b : AttemptState) {a : AttemptState}
    → get_last? xs ≡ some a
    → Continues a b
    → Carries xs (set_last xs b)
Carries-set_last [] b h f = tt
Carries-set_last (x ∷ []) b {a} h f = let same : a ≡ x = cc in subst (λ y. Continues y b) same f
Carries-set_last (x ∷ y ∷ xs) b h f = (refl, Carries-set_last (y ∷ xs) b h f)
