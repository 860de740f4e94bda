-- ===== src/Maintenance/Retention.antt =====
-- What `prune` deletes and what it keeps.
use mathlib.Core.Option.{none-ne-some}
use api_provider.Prelude.{
  ℕ, zero, suc, ◌-◌, ◌*◌, ◌≤◌, ◌<◌, ◌≡◌, refl, sym, ap, ◌∙◌, inl, inr, ◌⊎◌, Bool, true, false, ◌||◌,
  none, some, List, [], ◌∷◌, arith,
}
use api_provider.Prelude.Tests.{ltb, ◌==◌, Option-cases, Bool-cases}
use api_provider.Prelude.Lists.{All, take, take-short, length-take}
use api_provider.Number.{units}
use api_provider.Env.{Env, usage_retention_days, audit_retention_days}
use api_provider.Schema.{
  State, RateLimitWindow, PlaygroundToken, ApiRequest, QuotaWindow, AuditEvent,
}
use api_provider.Convex.Docs.{
  find-All, find-select, Doc, find, select, order_by-All, find-order_by, All-select, select-holds,
  find-id,
}
use api_provider.Convex.Database.{Database}
use api_provider.Convex.Queries.{delete_each, get-delete}
use api_provider.Maintenance.{
  batch, Pruned, expired, prune_table, deleted, prune, windows_before, requests_before,
  quotas_before, audit_before,
}

not_full : (n : ℕ) → n ≤ batch → (n == batch) ≡ false → n < batch
not_full n h part = ground arith

one_of :
    (a b c d e : Bool)
    → (a ≡ true → (a || b || c || d || e) ≡ true)
      × (b ≡ true → (a || b || c || d || e) ≡ true)
      × (c ≡ true → (a || b || c || d || e) ≡ true)
      × (d ≡ true → (a || b || c || d || e) ≡ true)
      × (e ≡ true → (a || b || c || d || e) ≡ true)
one_of a b c d e =
    (λ h. ground arith, λ h. ground arith, λ h. ground arith, λ h. ground arith, λ h. ground arith)

module _ {A : Type 0} where
  All-take {κ} : (P : Doc A → Type κ) (n : ℕ) (ds : List (Doc A)) → All P ds → All P (take n ds)
  All-take P zero ds h = tt
  All-take P (suc n) [] h = tt
  All-take P (suc n) (d ∷ ds) h = (h.0, All-take P n ds h.1)

module _ ⦃db : Database⦄ {A : Type 0} where
  open db use {Table, docs, get, query_below}

  get-delete_each :
      (i : ℕ) (ds : List (Doc A)) (t : Table A)
      → get i (delete_each ds t) ≡ elim (find i ds) [ none ↦ get i t | some d ↦ none ]
  get-delete_each i [] t = refl
  get-delete_each i (d ∷ ds) t =
      ground (arith, get-delete_each i ds (db.delete d.id t), get-delete d.id i t)

  -- What becomes of a document: it stays, because it is not expired or because the job runs again, or
  -- it is deleted and was expired. No document appears.
  pub data Fate (index : A → ℕ) (bound : ℕ) (again : Bool) (t t' : Table A) (i : ℕ) : Type 0 where
    absent : get i t ≡ none → get i t' ≡ none → Fate index bound again t t' i
    kept :
        (d : Doc A)
        → get i t ≡ some d
        → get i t' ≡ some d
        → (bound ≤ index d.value) ⊎ (again ≡ true)
        → Fate index bound again t t' i
    gone :
        (d : Doc A)
        → get i t ≡ some d
        → get i t' ≡ none
        → index d.value < bound
        → Fate index bound again t t' i

  -- Those that are deleted are below the bound, and the documents that their ids name.
  expired-All :
      (index : A → ℕ) (bound : ℕ) (t : Table A)
      → All
          (λ d. (ltb (index d.value) bound ≡ true) × (find d.id (docs t) ≡ some d))
          (expired index bound t)
  expired-All index bound t =
      let below : A → Bool = λ a. ltb (index a) bound in
      All-take _ batch (query_below index bound t) (
        rw (db.query_below-docs index bound t) (
          order_by-All _ index (select below (docs t)) (
            both _ _ (select below (docs t)) (select-holds below (docs t))
              (All-select _ below (docs t) (db.ids_unique t)))))
    where
      both :
          (P Q : Doc A → Type 0) (ds : List (Doc A)) → All P ds → All Q ds → All (λ d. P d × Q d) ds
      both P Q [] p q = tt
      both P Q (d ∷ ds) p q = ((p.0, q.0), both P Q ds p.1 q.1)

  -- Where the batch was not full, nothing below the bound is left out.
  left_out :
      (index : A → ℕ) (bound : ℕ) (t : Table A) (i : ℕ) (d : Doc A)
      → find i (expired index bound t) ≡ none
      → find i (docs t) ≡ some d
      → deleted index bound t < batch
      → bound ≤ index d.value
  left_out index bound t i d not_taken there few =
      let below : A → Bool = λ a. ltb (index a) bound in
      let whole =
        take-short batch (query_below index bound t) few ∙ db.query_below-docs index bound t in
      let unlisted =
        find-order_by index i (select below (docs t)) (ap (find i) (sym whole) ∙ not_taken) in
      elim (Bool-cases (below d.value)) [
        | inl old ↦
            absurd (none-ne-some d (sym unlisted ∙ find-select below i (docs t) d there old))
        | inr young ↦ ground arith
      ]

  prune_table-Fate :
      (index : A → ℕ) (bound : ℕ) (again : Bool) (t : Table A) (i : ℕ)
      → ((deleted index bound t == batch) ≡ true → again ≡ true)
      → Fate index bound again t (prune_table index bound t) i
  prune_table-Fate index bound again t i full =
      let taken = expired index bound t in
      let after = get-delete_each i taken t in
      elim (Option-cases (find i taken)) [
        | inl untaken ↦
            let same : get i (prune_table index bound t) ≡ get i t = rw untaken at after in
            elim (Option-cases (get i t)) [
              | inl missing ↦ absent missing (same ∙ missing)
              | inr (d, there) ↦
                  kept d there (same ∙ there) (elim (Bool-cases (deleted index bound t == batch)) [
                    | inl whole ↦ inr (full whole)
                    | inr part ↦
                        let (size, _) = length-take batch (query_below index bound t) in
                        inl (
                          left_out index bound t i d untaken (sym (db.get-docs i t) ∙ there)
                            (not_full (deleted index bound t) size part))
                  ])
            ]
        | inr (d, found) ↦
            let (old, there) = find-All _ i taken d (expired-All index bound t) found in
            let same = find-id i taken d found in
            gone d (db.get-docs i t ∙ ap (λ j. find j (docs t)) (sym same) ∙ there)
              (rw found at after) (ground arith)
      ]

module _ ⦃db : Database⦄ where
  -- What `prune` does: to each of five tables with its age limit, and to no other table.
  pub record Retained (env : Env) (now : ℕ) (s : State) (i : ℕ) (counts : Pruned) (s' : State)
      : Type 0 where
    pub windows :
        Fate
          (λ (w : RateLimitWindow). w.window_start)
          (now - 5 * 60000)
          counts.again
          s.rate_limit_windows
          s'.rate_limit_windows
          i
    pub tokens :
        Fate
          (λ (t : PlaygroundToken). t.expires_at)
          now
          counts.again
          s.playground_tokens
          s'.playground_tokens
          i
    pub requests :
        Fate
          (λ (r : ApiRequest). r.timestamp)
          (units now - usage_retention_days env * 86400000)
          counts.again
          s.api_requests
          s'.api_requests
          i
    pub quotas :
        Fate
          (λ (q : QuotaWindow). q.period_start)
          (now - 400 * 86400000)
          counts.again
          s.quota_windows
          s'.quota_windows
          i
    pub audit :
        Fate
          (λ (e : AuditEvent). e.timestamp)
          (now - audit_retention_days env * 86400000)
          counts.again
          s.security_audit_events
          s'.security_audit_events
          i
    pub at_most :
        (counts.windows ≤ 1000)
        × (counts.tokens ≤ 1000)
        × (counts.requests ≤ 1000)
        × (counts.quotas ≤ 1000)
        × (counts.audit ≤ 1000)
    -- Accounts, keys, payments and the daily sums stay as they are.
    pub others : s' ≡ record s {
      rate_limit_windows = s'.rate_limit_windows;
      playground_tokens = s'.playground_tokens;
      api_requests = s'.api_requests;
      quota_windows = s'.quota_windows;
      security_audit_events = s'.security_audit_events;
    }

  -- `prune` deletes only windows that began more than five minutes ago, tokens that have expired, requests
  -- and audit events older than their retention and quota windows that began more than 400 days ago. It
  -- deletes nothing else, changes nothing and adds nothing. It counts at most a thousand of each table,
  -- and where it leaves one of these, it asks to run again at once.
  pub prune-Retained :
      (env : Env) (now : ℕ) (s : State) (i : ℕ)
      → Retained env now s i (prune env now s).0 (prune env now s).1
  unfolding prune
  prune-Retained env now s i =
      let (n1, n2, n3, n4, n5) =
        one_of
          (deleted (λ (w : RateLimitWindow). w.window_start) (windows_before now)
              s.rate_limit_windows
            == batch)
          (deleted (λ (t : PlaygroundToken). t.expires_at) now s.playground_tokens == batch)
          (deleted (λ (r : ApiRequest). r.timestamp) (requests_before env now) s.api_requests
            == batch)
          (deleted (λ (q : QuotaWindow). q.period_start) (quotas_before now) s.quota_windows
            == batch)
          (deleted (λ (e : AuditEvent). e.timestamp) (audit_before env now) s.security_audit_events
            == batch) in
      record {
        windows = prune_table-Fate _ _ _ s.rate_limit_windows i n1;
        tokens = prune_table-Fate _ _ _ s.playground_tokens i n2;
        requests = prune_table-Fate _ _ _ s.api_requests i n3;
        quotas = prune_table-Fate _ _ _ s.quota_windows i n4;
        audit = prune_table-Fate _ _ _ s.security_audit_events i n5;
        at_most = (
          (length-take batch _).0,
          (length-take batch _).0,
          (length-take batch _).0,
          (length-take batch _).0,
          (length-take batch _).0,
        );
        others = refl;
      }
