-- ===== src/Subscription/Cache/Lookup.antt =====
-- What a lookup finds after a write, an invalidation of a token and an eviction.
use text.Mathlib.Text.{starts_with}
use text.Mathlib.TextLemmas.{append_assoc}
use text.Mathlib.TextPositions.{starts_with-append}
use Prim.Native.String.{◌++◌}
use casper_vpn.Base.{
  String, ℕ, Time, Bool, true, false, not, none, some, ◌≡◌, refl, sym, ◌∙◌, ap, ◌+◌, ◌<◌, ◌&&◌,
  ◌||◌, inl, inr, arith, Bool-cases, Option-cases, is_some, ltb, leb, if◌then◌else◌,
}
use casper_vpn.Map.{lookup, insert, size, lookup-insert_self, lookup-remove_if}
use casper_vpn.Subscription.Cache.{
  max_entries, Entry, Stored, Cache, key, is_dead, found, get, evict, min_sweep, maybe_sweep, put,
  invalidate_token,
}

-- A live entry survives a sweep.
sweep_keeps :
    (now : Time) (c : Cache) (k : String) (s : Stored)
    → lookup k c.entries ≡ some s
    → is_dead c.version now s ≡ false
    → lookup k (maybe_sweep now c).entries ≡ some s
unfolding maybe_sweep
sweep_keeps now c k s h live =
    elim (Bool-cases (ltb (size c.entries) c.sweep_at || ltb (size c.entries) min_sweep)) [
      | inl e ↦ rw e h
      | inr e ↦
          rw e (rw (lookup-remove_if (λ k s. is_dead c.version now s) k c.entries, h, live) refl)
    ]

sweep-version : (now : Time) (c : Cache) → (maybe_sweep now c).version ≡ c.version
unfolding maybe_sweep
sweep-version now c =
    elim (Bool-cases (ltb (size c.entries) c.sweep_at || ltb (size c.entries) min_sweep)) [
      | inl e ↦ rw e refl
      | inr e ↦ rw e refl
    ]

room-ttl : (b : Bool) (now : Time) (c : Cache) → (if b then evict now c else c).ttl ≡ c.ttl
unfolding evict
room-ttl true now c = refl
room-ttl false now c = refl

-- What is written is alive until its time is over.
written-live :
    (e : Entry) (version : ℕ) (expires later : Time)
    → later < expires
    → is_dead version later (record { entry = e; version = version; expires = expires }) ≡ false
written-live e version expires later h = ground arith

found-live :
    (k : String) (now : Time) (c : Cache) (s : Stored)
    → lookup k c.entries ≡ some s
    → is_dead c.version now s ≡ false
    → (found (lookup k c.entries) k now c).0 ≡ some s.entry
found-live k now c s h live = rw (h, live) refl

-- A `Get` right after a `Put` finds the entry, whatever else the `Put` evicted, until its time to live
-- is over, if the sweep that the `Put` ends with reads the clock before that.
pub get-put :
    (token format : String) (e : Entry) (evicting now sweeping later : Time) (c : Cache)
    → sweeping < now + c.ttl
    → later < now + c.ttl
    → (get token format later (put token format e evicting now sweeping c)).0 ≡ some e
unfolding put get
get-put token format e evicting now sweeping later c swept fresh =
    let k = key token format in
    let full = not (is_some (lookup k c.entries)) && leb max_entries (size c.entries) in
    let room = if full then evict evicting c else c in
    let s : Stored = record { entry = e; version = room.version; expires = now + room.ttl } in
    let d = record room { entries = insert k s room.entries } in
    let ttl = room-ttl full evicting c in
    let at =
      sweep_keeps sweeping d k s (lookup-insert_self k s room.entries)
        (written-live e room.version (now + room.ttl) sweeping (rw ttl swept)) in
    found-live k later (maybe_sweep sweeping d) s at (
      rw (sweep-version sweeping d)
        (written-live e room.version (now + room.ttl) later (rw ttl fresh)))

-- After a token is invalidated, nothing is served for it in any format.
pub get-invalidate_token :
    (token format : String) (now : Time) (c : Cache)
    → (get token format now (invalidate_token token c)).0 ≡ none
unfolding get invalidate_token
get-invalidate_token token format now c =
    let k = key token format in
    let named : starts_with k (token ++ "|") ≡ true =
      ap (λ t. starts_with t (token ++ "|")) (sym (append_assoc token "|" format))
      ∙ starts_with-append (token ++ "|") format in
    elim (Option-cases (lookup k c.entries)) [
      | inl e ↦ rw (lookup-remove_if (λ k s. starts_with k (token ++ "|")) k c.entries, e) refl
      | inr (s, e) ↦
          rw (lookup-remove_if (λ k s. starts_with k (token ++ "|")) k c.entries, e, named) refl
    ]
