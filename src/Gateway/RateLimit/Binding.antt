-- ===== src/Gateway/RateLimit/Binding.antt =====
-- What `combine` reports of several limits.
use mathlib.Core.List.{Mem, mem-cons_self, mem-cons_of_mem}
use api_provider.Prelude.{
  ◌≤◌, ◌≡◌, refl, sym, ap, subst, ◌∙◌, inl, inr, Bool, true, false, List, [], ◌∷◌, arith,
}
use api_provider.Prelude.Tests.{if◌then◌else◌, Bool-cases}
use api_provider.Prelude.Lists.{all, All}
use api_provider.Gateway.RateLimit.{
  RateLimitState, comes_before, insert_sorted, sorted, first_or, combine,
}

abbrev every_allowed : List RateLimitState → Bool
every_allowed = all (λ s. s.allowed)

abbrev better : RateLimitState → RateLimitState → RateLimitState
better m a = if comes_before m a then m else a

least : RateLimitState → List RateLimitState → RateLimitState
least a [] = a
least a (b ∷ bs) = better (least b bs) a

first-insert_sorted :
    (d a b : RateLimitState) (bs : List RateLimitState)
    → first_or d (insert_sorted a (b ∷ bs)) ≡ better b a
unfolding insert_sorted
first-insert_sorted d a b bs = ground arith

insert_sorted-first :
    (a : RateLimitState) (xs : List RateLimitState)
    → (b : RateLimitState) × (bs : List RateLimitState) × (insert_sorted a xs ≡ b ∷ bs)
unfolding insert_sorted
insert_sorted-first a [] = (a, [], refl)
insert_sorted-first a (b ∷ bs) = elim (Bool-cases (comes_before b a)) [
  | inl e ↦ (b, insert_sorted a bs, rw e)
  | inr e ↦ (a, b ∷ bs, rw e)
]

first-sorted :
    (d a : RateLimitState) (xs : List RateLimitState) → first_or d (sorted (a ∷ xs)) ≡ least a xs
unfolding sorted least
first-sorted d a [] = refl
first-sorted d a (b ∷ bs) =
    let (c, cs, e) = insert_sorted-first b (sorted bs) in
    rw e (
      first-insert_sorted d a c cs
      ∙ ap (λ m. better m a) (ap (first_or d) (sym e) ∙ first-sorted d b bs))

-- The state that binds, of those given.
pub record Binds (s : RateLimitState) (states : List RateLimitState) : Type 0 where
  pub given : Mem s states
  pub refused_first : s.allowed ≡ every_allowed states
  pub least_remaining : All (λ t. t.allowed ≡ s.allowed → s.remaining ≤ t.remaining) states

abbrev Least : RateLimitState → List RateLimitState → Type 0
Least s = All (λ t. t.allowed ≡ s.allowed → s.remaining ≤ t.remaining)

-- A state that the least so far does not precede takes its place.
Least-lower :
    (a m : RateLimitState) (xs : List RateLimitState)
    → comes_before m a ≡ false
    → (m.allowed ≡ true → every_allowed xs ≡ true)
    → Least m xs
    → Least a xs
Least-lower a m [] behind every h = tt
Least-lower a m (x ∷ xs) behind every h =
    (λ same. ground arith, Least-lower a m xs behind (λ e. ground arith) h.1)

least-Binds : (a : RateLimitState) (xs : List RateLimitState) → Binds (least a xs) (a ∷ xs)
unfolding least
least-Binds a [] = record {
  given = mem-cons_self;
  refused_first = ground arith;
  least_remaining = ((λ _. ground arith), tt);
}
least-Binds a (b ∷ bs) =
    let m = least b bs in
    let ih = least-Binds b bs in
    elim (Bool-cases (comes_before m a)) [
      | inl e ↦ rw e (record {
        given = mem-cons_of_mem a ih.given;
        refused_first = ground (arith, ih.refused_first);
        least_remaining = ((λ same. ground arith), ih.least_remaining);
      })
      | inr e ↦ rw e (record {
        given = mem-cons_self;
        refused_first = ground (arith, ih.refused_first);
        least_remaining = (
          (λ same. ground arith),
          Least-lower a m (b ∷ bs) e (λ t. sym ih.refused_first ∙ t) ih.least_remaining,
        );
      })
    ]

-- `combine`, of at least one state, allows when every state does, and reports the limit, what remains and the reset of one
-- of them: of a refused one where any is refused, and of one with the least remaining among those
-- with the same answer.
pub combine-Binds :
    (a : RateLimitState) (rest : List RateLimitState) → Binds (combine (a ∷ rest)) (a ∷ rest)
unfolding combine
combine-Binds a rest =
    let h = least-Binds a rest in
    subst (λ s. Binds s (a ∷ rest)) (bound (first-sorted _ a rest) h.refused_first) h
  where
    bound : {s t : RateLimitState} {b : Bool} → s ≡ t → t.allowed ≡ b → t ≡ record s { allowed = b }
    bound e f = ground arith
