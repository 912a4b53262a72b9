-- ===== src/Middleware/Auth/Caching.antt =====
-- The cache of key sets.
use lamdis_core.Prelude.{ℕ, ◌+◌, ◌<◌, ◌≡◌, refl, none, some, Result, ok, err, arith}
use lamdis_core.Text.{Text}
use lamdis_core.Text.Maps.{insert, lookup-insert_self}
use lamdis_core.Middleware.Auth.{
  KeyCache, read_cached, fresh_entry, store_fetched, refresh, get_keys,
}

module _ {KeySet : Type 0} where
  fresh_entry_lem :
      (set : KeySet) (later expires : ℕ)
      → later < expires
      → fresh_entry later (some (set, expires)) ≡ some set
  unfolding fresh_entry
  fresh_entry_lem set later expires h = ground arith

  read-store :
      (url : Text) (set : KeySet) (later expires : ℕ) (cache : KeyCache KeySet)
      → later < expires
      → read_cached url later (insert url (set, expires) cache) ≡ some set
  read-store url set later expires cache h =
      unfold read_cached in
      rw (lookup-insert_self url (set, expires) cache) (fresh_entry_lem set later expires h)

  get_keys-hit :
      (fetch : Text → Result KeySet) (url : Text) (now ttl : ℕ) (cache : KeyCache KeySet)
      (set : KeySet)
      → read_cached url now cache ≡ some set
      → get_keys fetch url now ttl cache ≡ (ok set, cache)
  unfolding get_keys
  get_keys-hit fetch url now ttl cache set h = ground arith

  get_keys-miss :
      (fetch : Text → Result KeySet) (url : Text) (now ttl : ℕ) (cache : KeyCache KeySet)
      → read_cached url now cache ≡ none
      → get_keys fetch url now ttl cache ≡ store_fetched url (now + ttl) cache (fetch url)
  unfolding get_keys refresh
  get_keys-miss fetch url now ttl cache h = ground arith

  -- After a set was downloaded, every request for its URL within the time to live gets that set, with
  -- no further download and no change of the cache, whatever the server would now answer.
  pub get_keys_cached :
      (fetch fetch' : Text → Result KeySet) (url : Text) (now later ttl : ℕ)
      (cache : KeyCache KeySet) (set : KeySet)
      → read_cached url now cache ≡ none
      → fetch url ≡ ok set
      → later < now + ttl
      → (get_keys fetch url now ttl cache ≡ (ok set, insert url (set, now + ttl) cache))
        × (get_keys fetch' url later ttl (insert url (set, now + ttl) cache)
            ≡ (ok set, insert url (set, now + ttl) cache))
  get_keys_cached fetch fetch' url now later ttl cache set miss fetched h = (
    rw (get_keys-miss fetch url now ttl cache miss, fetched) (unfold store_fetched in refl),
    get_keys-hit fetch' url later ttl _ set (read-store url set later (now + ttl) cache h),
  )

  -- A download that fails is not remembered: the cache is as before, and the next request tries again.
  pub get_keys_failed :
      (fetch fetch' : Text → Result KeySet) (url : Text) (now ttl : ℕ) (cache : KeyCache KeySet)
      → read_cached url now cache ≡ none
      → fetch url ≡ err
      → (get_keys fetch url now ttl cache ≡ (err, cache))
        × (get_keys fetch' url now ttl (get_keys fetch url now ttl cache).1
            ≡ store_fetched url (now + ttl) cache (fetch' url))
  get_keys_failed fetch fetch' url now ttl cache miss failed =
      let failure : get_keys fetch url now ttl cache ≡ (err, cache) =
        rw (get_keys-miss fetch url now ttl cache miss, failed) (unfold store_fetched in refl) in
      (failure, rw failure (get_keys-miss fetch' url now ttl cache miss))
