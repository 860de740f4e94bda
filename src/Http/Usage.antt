-- ===== src/Http/Usage.antt =====
-- The batches of the usage route.
use api_provider.Prelude.{
  ℕ, zero, suc, ◌+◌, ◌-◌, ◌≤◌, ◌≡◌, refl, ap, ◌∙◌, String, true, Option, none, some, List, [], ◌∷◌,
  arith,
}
use api_provider.Prelude.Tests.{leb, le→leb}
use api_provider.Prelude.Lists.{length, length-append, take, drop, length-drop}
use api_provider.Json.{Items, Members, Javascript, no_items, item}
use api_provider.Env.{Env}
use api_provider.Result.{ok, >>=-ok}
use api_provider.Schema.{ApiRequest, State}
use api_provider.Convex.Database.{Database}
use api_provider.Gateway.Usage.{Entry, Ids, Recorded, max_usage_entries}
use api_provider.Gateway.Usage.Batch.{requests_of, insert_each}
use api_provider.Gateway.Usage.Rollups.{Column, daily, sum_of, record_usage_lem}
use api_provider.Http.{
  Request, served, authorized, read_json, usage_entries, item_count, well_formed, kept,
  to_usage_entry, max_usage_batch, max_request_entries, record_batches, store_usage, usage_route,
}

length-kept : (o : Option Entry) (rest : List Entry) → length (kept o rest) ≤ suc (length rest)
length-kept none rest = omega arith
length-kept (some e) rest = omega arith

length-well_formed :
    (js : Javascript) (entries : Items) → length (well_formed js entries) ≤ item_count entries
length-well_formed js no_items = omega arith
length-well_formed js (item raw more) =
    omega
      (arith, length-kept (to_usage_entry js raw) (well_formed js more), length-well_formed js more)

module _ ⦃db : Database⦄ where
  open db use {Table, docs, insert}

  length-insert_each :
      (new : List ApiRequest) (t : Table ApiRequest)
      → length (docs (insert_each new t)) ≡ length (docs t) + length new
  length-insert_each [] t = omega arith
  length-insert_each (r ∷ new) t =
      length-insert_each new (insert r t)
      ∙ ap (λ n. n + length new) (ap length (db.docs-insert r t) ∙ length-append (docs t) _)
      ∙ omega arith

  -- What the batches of one request leave: as many request rows more as were written, and daily rows
  -- that can be read and have not shrunk.
  pub record Stored (s s' : State) (written : ℕ) (before : Column → ℕ → String → ℕ → ℕ)
      : Type 0 where
    pub rows : length (docs s'.api_requests) ≡ length (docs s.api_requests) + written
    pub after : Column → ℕ → String → ℕ → ℕ
    pub readable :
        (c : Column) (key_id : ℕ) (endpoint : String) (day : ℕ)
        → daily c key_id endpoint day s'.usage_daily ≡ ok (after c key_id endpoint day)
    pub grows :
        (c : Column) (key_id : ℕ) (endpoint : String) (day : ℕ)
        → before c key_id endpoint day ≤ after c key_id endpoint day

  nothing-Stored :
      (s : State) (before : Column → ℕ → String → ℕ → ℕ)
      → ((c : Column) (key_id : ℕ) (endpoint : String) (day : ℕ)
          → daily c key_id endpoint day s.usage_daily ≡ ok (before c key_id endpoint day))
      → Stored s s 0 before
  nothing-Stored s before h = record {
    rows = omega arith;
    after = before;
    readable = h;
    grows = λ c key_id endpoint day. omega arith;
  }

  batch-Stored :
      (s s1 s2 : State) (new : List ApiRequest) (written more : ℕ)
      (before : Column → ℕ → String → ℕ → ℕ)
      → written ≡ length new
      → s1.api_requests ≡ insert_each new s.api_requests
      → Stored s1 s2 more
          (λ c key_id endpoint day. before c key_id endpoint day + sum_of c key_id endpoint day new)
      → Stored s s2 (written + more) before
  batch-Stored s s1 s2 new written more before counted inserted stored =
      let first = ap (λ t. length (docs t)) inserted ∙ length-insert_each new s.api_requests in
      record {
        rows = omega (arith, stored.rows, first, counted);
        after = stored.after;
        readable = stored.readable;
        grows = λ c key_id endpoint day. omega (arith, stored.grows c key_id endpoint day);
      }

  record_batches_lem :
      (fuel : ℕ) (ids : Ids) (valid : List Entry) (now : ℕ) (s : State)
      (before : Column → ℕ → String → ℕ → ℕ)
      → length valid ≤ fuel
      → ((c : Column) (key_id : ℕ) (endpoint : String) (day : ℕ)
          → daily c key_id endpoint day s.usage_daily ≡ ok (before c key_id endpoint day))
      → (written : ℕ) × (s' : State) × (record_batches fuel ids valid now s ≡ ok (written, s'))
        × (written ≤ length valid)
        × Stored s s' written before
  unfolding record_batches
  record_batches_lem zero ids valid now s before enough h =
      (0, s, refl, omega arith, nothing-Stored s before h)
  record_batches_lem (suc fuel) ids [] now s before enough h =
      (0, s, refl, omega arith, nothing-Stored s before h)
  record_batches_lem (suc fuel) ids (e ∷ es) now s before enough h =
      let batch = take max_usage_batch (e ∷ es) in
      let rest = drop max_usage_batch (e ∷ es) in
      let new = requests_of ids now s.api_keys (take max_usage_entries batch) in
      let (answer, s1, first, counted, total, few, inserted, after) =
        record_usage_lem ids batch now s before h in
      let shorter : length rest ≤ fuel =
        omega (arith, length-drop max_usage_batch (e ∷ es), enough) in
      let (more, s2, later, bounded, stored) =
        record_batches_lem fuel ids rest now s1
          (λ c key_id endpoint day. before c key_id endpoint day + sum_of c key_id endpoint day new)
          shorter after in
      (
        answer.written + more,
        s2,
        >>=-ok _ _ first ∙ >>=-ok _ _ later,
        omega (arith, total, bounded, length-drop max_usage_batch (e ∷ es)),
        batch-Stored s s1 s2 new answer.written more before counted inserted stored,
      )

  -- A request that is authorized, with an array of at most a thousand entries, is answered with 200,
  -- where each daily row can be read: the route returns, whatever the entries. It answers how many
  -- were written and how many dropped, which are all of them, and there are as many request rows more.
  pub usage_route_lem :
      (js : Javascript) (ids : Ids) (env : Env) (request : Request) (now : ℕ) (s : State)
      (body : Members) (entries : Items) (before : Column → ℕ → String → ℕ → ℕ)
      → authorized env request ≡ true
      → read_json js request ≡ some body
      → usage_entries body ≡ some entries
      → item_count entries ≤ max_request_entries
      → ((c : Column) (key_id : ℕ) (endpoint : String) (day : ℕ)
          → daily c key_id endpoint day s.usage_daily ≡ ok (before c key_id endpoint day))
      → (answer : Recorded) × (s' : State) × (usage_route js ids env request now s
          ≡ ok (served answer, s'))
        × (answer.written + answer.dropped ≡ item_count entries)
        × (answer.written ≤ length (well_formed js entries))
        × Stored s s' answer.written before
  unfolding usage_route store_usage
  usage_route_lem js ids env request now s body entries before h read named few readable =
      let valid = well_formed js entries in
      let (written, s', recorded, bounded, stored) =
        record_batches_lem (length valid) ids valid now s before (omega arith) readable in
      let whole = length-well_formed js entries in
      let fits : leb (item_count entries) max_request_entries ≡ true = le→leb _ _ few in
      (
        record { written = written; dropped = item_count entries - written },
        s',
        rw (h, read, named, fits, recorded),
        omega (arith, bounded, whole),
        bounded,
        stored,
      )
