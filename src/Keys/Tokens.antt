-- ===== src/Keys/Tokens.antt =====
-- The deletion of playground tokens.
use api_provider.Prelude.{
  zero, suc, not, ◌-◌, ◌≤◌, ℕ, ◌≡◌, refl, ap, ◌∙◌, inl, inr, Bool, true, false, List, [], ◌∷◌, ◌++◌,
  arith,
}
use api_provider.Prelude.Tests.{if◌then◌else◌, ◌==◌, Bool-cases}
use api_provider.Prelude.Lists.{
  length, filter, take, length-filter-le, length-append, All, All-map, any,
}
use api_provider.Schema.{PlaygroundToken, State}
use api_provider.Result.{ok}
use api_provider.Convex.Docs.{Doc, remove}
use api_provider.Convex.Database.{Database}
use api_provider.Convex.Queries.{delete_each, query-delete, query-insert}
use api_provider.Keys.{
  insert_by_expiry, oldest_first, max_playground_tokens_per_key, insert_playground_token,
  drop_oldest, has_access, of_api_key, delete_playground_tokens,
}

remove_each : List (Doc PlaygroundToken) → List (Doc PlaygroundToken) → List (Doc PlaygroundToken)
remove_each [] es = es
remove_each (d ∷ ds) es = remove_each ds (remove d.id es)

abbrev named_in : List (Doc PlaygroundToken) → Doc PlaygroundToken → Bool
named_in ds e = any (λ d. d.id == e.id) ds

All-remove :
    (d : Doc PlaygroundToken) (ds es : List (Doc PlaygroundToken))
    → All (λ e. named_in (d ∷ ds) e ≡ true) es
    → All (λ e. named_in ds e ≡ true) (remove d.id es)
All-remove d ds [] h = tt
All-remove d ds (e ∷ es) (here, later) = elim (Bool-cases (e.id == d.id)) [
  | inl same ↦ rw same (All-remove d ds es later)
  | inr other ↦ rw other (ground (arith, here), All-remove d ds es later)
]

remove_each-All :
    (ds es : List (Doc PlaygroundToken))
    → All (λ e. named_in ds e ≡ true) es
    → remove_each ds es ≡ []
unfolding remove_each
remove_each-All [] [] h = refl
remove_each-All [] (e ∷ es) h = cc
remove_each-All (d ∷ ds) es h = remove_each-All ds (remove d.id es) (All-remove d ds es h)

named_in_self : (ds : List (Doc PlaygroundToken)) → All (λ e. named_in ds e ≡ true) ds
named_in_self [] = tt
named_in_self (d ∷ ds) = (ground arith, All-map ds (λ e h. ground (arith, h)) (named_in_self ds))

module _ ⦃db : Database⦄ where
  open db use {Table, get, query}

  query-delete_each :
      (p : PlaygroundToken → Bool) (ds : List (Doc PlaygroundToken)) (t : Table PlaygroundToken)
      → query p (delete_each ds t) ≡ remove_each ds (query p t)
  unfolding remove_each
  query-delete_each p [] t = refl
  query-delete_each p (d ∷ ds) t =
      query-delete_each p ds (db.delete d.id t) ∙ ap (remove_each ds) (query-delete p d.id t)

  -- No playground token of the key is left.
  pub delete_playground_tokens_all :
      (key_id : ℕ) (s : State)
      → query (of_api_key key_id) (delete_playground_tokens key_id s).playground_tokens ≡ []
  unfolding delete_playground_tokens
  delete_playground_tokens_all key_id s =
      let tokens = query (of_api_key key_id) s.playground_tokens in
      query-delete_each (of_api_key key_id) tokens s.playground_tokens
      ∙ remove_each-All tokens tokens (named_in_self tokens)

remove_each-filter :
    (ds es : List (Doc PlaygroundToken)) → remove_each ds es ≡ filter (λ e. not (named_in ds e)) es
unfolding remove_each
remove_each-filter [] [] = refl
remove_each-filter [] (e ∷ es) = ap (λ xs. e ∷ xs) (remove_each-filter [] es)
remove_each-filter (d ∷ ds) es = remove_each-filter ds (remove d.id es) ∙ without es
  where
    without :
        (xs : List (Doc PlaygroundToken))
        → filter (λ e. not (named_in ds e)) (remove d.id xs)
          ≡ filter (λ e. not (named_in (d ∷ ds) e)) xs
    without [] = refl
    without (x ∷ xs) = ground (arith, without xs)

length-filter-insert_by_expiry :
    (p : Doc PlaygroundToken → Bool) (t : Doc PlaygroundToken) (ts : List (Doc PlaygroundToken))
    → length (filter p (insert_by_expiry t ts)) ≡ length (filter p (t ∷ ts))
length-filter-insert_by_expiry p t [] = refl
length-filter-insert_by_expiry p t (u ∷ us) = ground (arith, length-filter-insert_by_expiry p t us)

length-filter-oldest_first :
    (p : Doc PlaygroundToken → Bool) (ts : List (Doc PlaygroundToken))
    → length (filter p (oldest_first ts)) ≡ length (filter p ts)
length-filter-oldest_first p [] = refl
length-filter-oldest_first p (t ∷ ts) =
    length-filter-insert_by_expiry p t (oldest_first ts)
    ∙ ground (arith, length-filter-oldest_first p ts)

filter-after :
    (p : Doc PlaygroundToken → Bool) (n : ℕ) (ts : List (Doc PlaygroundToken))
    → All (λ t. p t ≡ false) (take n ts)
    → length (filter p ts) ≤ length ts - n
filter-after p zero ts h = omega (arith, length-filter-le p ts)
filter-after p (suc n) [] h = omega arith
filter-after p (suc n) (t ∷ ts) (here, later) = rw here (omega (arith, filter-after p n ts later))

-- At most four of the tokens of a key are kept.
kept_few :
    (ts : List (Doc PlaygroundToken))
    → let sorted = oldest_first ts in
      length (remove_each (take (length sorted - (max_playground_tokens_per_key - 1)) sorted) ts)
      ≤ max_playground_tokens_per_key - 1
kept_few ts =
    let sorted = oldest_first ts in
    let dropped = take (length sorted - (max_playground_tokens_per_key - 1)) sorted in
    let kept = λ (e : Doc PlaygroundToken). not (named_in dropped e) in
    rw (remove_each-filter dropped ts) (
      omega (
        arith,
        length-filter-oldest_first kept ts,
        filter-after kept (length sorted - (max_playground_tokens_per_key - 1)) sorted
            (All-map dropped (λ e h. ap not h) (named_in_self dropped)),
      ))

module _ ⦃db : Database⦄ where
  open db use {get, query, insert}

  -- After a playground token of a key has been issued, the key has at most five, however many it had.
  pub insert_playground_token_lem :
      (args : PlaygroundToken) (now : ℕ) (s s' : State)
      → insert_playground_token args now s ≡ ok s'
      → length (query (of_api_key args.api_key_id) s'.playground_tokens)
        ≤ max_playground_tokens_per_key
  unfolding insert_playground_token
  insert_playground_token_lem args now s s' h =
      elim (Bool-cases (has_access (get args.user_id s.users) now)) [
        | inl access ↦
            let key_id = args.api_key_id in
            let tokens = s.playground_tokens in
            let existing = oldest_first (query (of_api_key key_id) tokens) in
            let dropped = take (length existing - (max_playground_tokens_per_key - 1)) existing in
            let inserted : insert args (drop_oldest key_id tokens) ≡ s'.playground_tokens =
              ground (arith, (rw access at h)) in
            rw
              (
                ← inserted,
                query-insert (of_api_key key_id) args (drop_oldest key_id tokens),
                query-delete_each (of_api_key key_id) dropped tokens,
              )
              (few (remove_each dropped (query (of_api_key key_id) tokens)) _
                (kept_few (query (of_api_key key_id) tokens)) (at_most_one_more _ _))
        | inr without ↦ cc (rw without at h)
      ]
    where
      few :
          (xs ys : List (Doc PlaygroundToken))
          → length xs ≤ max_playground_tokens_per_key - 1
          → length ys ≤ 1
          → length (xs ++ ys) ≤ max_playground_tokens_per_key
      few xs ys h h' = omega (arith, length-append xs ys, h, h')

      at_most_one_more :
          (b : Bool) (d : Doc PlaygroundToken) → length (if b then d ∷ [] else []) ≤ 1
      at_most_one_more true d = omega arith
      at_most_one_more false d = omega arith
