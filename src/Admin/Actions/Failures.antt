-- ===== src/Admin/Actions/Failures.antt =====
-- A resolver without a connector key: `upsertResolver` accepts it, and the readers of the table do not.
use lamdis_core.Prelude.{
  ◌≡◌, refl, ◌∙◌, Bool, true, ◌&&◌, Option, none, some, List, [], ◌∷◌, arith, err, Memᴰ, filter_by,
  filter_by-mem, find_sound, Result,
}
use lamdis_core.Text.{Text, codes, text_eq}
use lamdis_core.Text.Laws.{text_eq_refl}
use lamdis_core.Json.{Runtime, Clock, Value, Fields}
use lamdis_core.Facts.Resolve.{
  ResolverRow, FactStore, Resolved, or_empty, scan_resolver, scan_resolvers, load_resolvers,
  compute_facts, resolve_facts,
}
use lamdis_core.Store.Table.{keys_eq, keys_eq_refl, upsert, at, at-upsert, order_by, mem-order_by}
use lamdis_core.Admin.Policies.{error}
use lamdis_core.Admin.Actions.{answer_items}
use lamdis_core.Admin.Actions.Resolvers.{
  ResolverBody, resolver_row_key, new_resolver, change_resolver, upsert_resolver, resolver_items,
  list_resolvers,
}

module _ {F : Type 0} where
  resolver_items_err :
      (rows : List (ResolverRow F)) (r : ResolverRow F)
      → Memᴰ r rows
      → r.connector_key ≡ none
      → resolver_items rows ≡ err
  unfolding resolver_items
  resolver_items_err [] r m h = elim m [ ]
  resolver_items_err (x ∷ rows) r (Memᴰ.head e) h =
      let q : x.connector_key ≡ none = rw (← e) h in ground arith
  resolver_items_err (x ∷ rows) r (Memᴰ.tail m) h = ground (arith, resolver_items_err rows r m h)

  scan_resolvers_err :
      (rows : List (ResolverRow F)) (r : ResolverRow F)
      → Memᴰ r rows
      → r.connector_key ≡ none
      → scan_resolvers rows ≡ err
  unfolding scan_resolvers scan_resolver
  scan_resolvers_err [] r m h = elim m [ ]
  scan_resolvers_err (x ∷ rows) r (Memᴰ.head e) h =
      let q : x.connector_key ≡ none = rw (← e) h in ground arith
  scan_resolvers_err (x ∷ rows) r (Memᴰ.tail m) h = ground (arith, scan_resolvers_err rows r m h)

  -- A resolver of a new name stands in the table after its upsert.
  new_resolver-mem :
      (id tenant key name : Text) (b : ResolverBody F) (rows : List (ResolverRow F))
      → at resolver_row_key (tenant ∷ key ∷ name ∷ []) rows ≡ none
      → Memᴰ
          (new_resolver id tenant key name b)
          (upsert_resolver true id tenant key name (some b) rows).1
  unfolding upsert_resolver
  new_resolver-mem id tenant key name b rows absent =
      let k : List Text = tenant ∷ key ∷ name ∷ [] in
      (find_sound (λ r. keys_eq (resolver_row_key r) k)
        (upsert (λ r. keys_eq (resolver_row_key r) k) (new_resolver id tenant key name b)
          (change_resolver b) rows)
        (new_resolver id tenant key name b)
        (at-upsert resolver_row_key k k (new_resolver id tenant key name b) (change_resolver b) rows
            refl (λ r. refl)
          ∙ (rw (keys_eq_refl k, absent) refl))).1

abbrev pub fails_with : {F : Type 0} → Resolved F → Bool
fails_with r = r.failed

module _ (rt : Runtime) (search : Text → Value rt.Float → Result (Value rt.Float)) where
  -- A resolver that is created without a connector key, and enabled: the list of the action's resolvers is
  -- then answered with a database error, and so every resolution of the action's facts fails, whatever its
  -- inputs. The session sees its tenant's rows.
  pub upsert_resolver-breaks :
      (sees le : Text → Text → Bool) (id tenant key name : Text) (b : ResolverBody rt.Float)
      (s : FactStore rt.Float) (clock : Clock) (inputs : Option (Fields rt.Float))
      → sees tenant tenant ≡ true
      → at resolver_row_key (tenant ∷ key ∷ name ∷ []) s.resolvers ≡ none
      → b.connector_key ≡ none
      → or_empty true b.enabled ≡ true
      → let rows = (upsert_resolver true id tenant key name (some b) s.resolvers).1 in
        (list_resolvers sees le true tenant key rows ≡ error 500 (codes "db error"))
        × (fails_with (
              resolve_facts rt search sees clock
                (some (record s { resolvers = rows }))
                tenant
                key
                inputs)
            ≡ true)
  unfolding list_resolvers resolve_facts compute_facts load_resolvers answer_items
  upsert_resolver-breaks sees le id tenant key name b s clock inputs visible absent unset enabled =
      let rows = (upsert_resolver true id tenant key name (some b) s.resolvers).1 in
      let r = new_resolver id tenant key name b in
      let m = new_resolver-mem id tenant key name b s.resolvers absent in
      let listed : resolver_items (
            order_by le (λ x. x.name)
              (filter_by (λ x. sees tenant x.tenant_id && text_eq x.action_key key) rows))
          ≡ err =
        resolver_items_err _ r
          (mem-order_by le (λ x. x.name) r _
            (filter_by-mem (λ x. sees tenant x.tenant_id && text_eq x.action_key key) rows r m
              (rw (visible, text_eq_refl key) refl)))
          unset in
      let loaded : scan_resolvers
            (filter_by (λ x. sees tenant x.tenant_id && text_eq x.action_key key && x.enabled) rows)
          ≡ err =
        scan_resolvers_err _ r
          (filter_by-mem (λ x. sees tenant x.tenant_id && text_eq x.action_key key && x.enabled)
            rows r m (rw (visible, text_eq_refl key, enabled) refl))
          unset in
      (rw listed refl, rw loaded (ground arith))
