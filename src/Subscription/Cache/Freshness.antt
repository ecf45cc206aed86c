-- ===== src/Subscription/Cache/Freshness.antt =====
-- What an invalidation of the whole cache promises of all later calls.
use casper_vpn.Base.{
  String, ℕ, Time, Duration, Bool, true, false, not, Option, none, some, List, [], ◌∷◌, ◌≡◌, ◌≢◌,
  refl, ◌∙◌, ◌+◌, ◌<◌, ◌≤◌, ◌^◌, ◌&&◌, ◌||◌, inl, inr, ◌⊎◌, arith, Bool-cases, Option-cases,
  is_some, ltb, leb, if◌then◌else◌, after, ◌==◌, All,
}
use casper_vpn.Map.{
  Map, lookup, insert, remove, remove_if, size, kept, lookup-insert_cases, lookup-remove,
  lookup-remove_if,
}
use casper_vpn.Subscription.Cache.{
  max_entries, Entry, Stored, Cache, new, key, is_dead, get, drop_dead, drop_surplus, evict,
  min_sweep, maybe_sweep, put, invalidate_all, invalidate_token,
}

-- The calls of the cache.
pub data Call : Type 0 where
  call_get : String → String → Time → Call
  call_put : String → String → Entry → Time → Time → Time → Call
  call_invalidate_all : Call
  call_invalidate_token : String → Call

unfoldable pub apply : Call → Cache → Cache
apply (call_get t f now) c = (get t f now c).1
apply (call_put t f e evicting now sweeping) c = put t f e evicting now sweeping c
apply call_invalidate_all c = invalidate_all c
apply (call_invalidate_token t) c = invalidate_token t c

unfoldable pub run : List Call → Cache → Cache
unfolding apply
run [] c = c
run (x ∷ xs) c = run xs (apply x c)

-- How often the version is bumped.
abbrev pub bump : Call → ℕ
bump call_invalidate_all = 1
bump _ = 0

abbrev pub bumps : List Call → ℕ
bumps [] = 0
bumps (x ∷ xs) = bump x + bumps xs

-- The call does not put an entry under the key.
abbrev pub Spares : String → Call → Type 0
Spares k (call_put t f e evicting now sweeping) = key t f ≢ k
Spares k _ = Unit {0}

-- What is stored under the key, if anything, is of an earlier version.
abbrev Outdated : String → ℕ → Map Stored → Type 0
Outdated k version m = (s : Stored) → lookup k m ≡ some s → s.version < version

none-some : {A : Type 0} {a : A} (o : Option A) → o ≡ none → o ≡ some a → ⊥
none-some o e f = cc

remove-Outdated :
    (j k : String) (version : ℕ) (m : Map Stored)
    → Outdated k version m
    → Outdated k version (remove j m)
remove-Outdated j k version m h s e = elim (Bool-cases (j == k)) [
  | inl p ↦ absurd (none-some (lookup k (remove j m)) (rw (lookup-remove j k m, p) refl) e)
  | inr p ↦ h s (rw (lookup-remove j k m, p) at e)
]

remove_if-Outdated :
    (p : String → Stored → Bool) (k : String) (version : ℕ) (m : Map Stored)
    → Outdated k version m
    → Outdated k version (remove_if p m)
remove_if-Outdated p k version m h s e =
    kept_of (lookup k m) refl (rw (lookup-remove_if p k m) at e)
  where
    kept_of : (o : Option Stored) → lookup k m ≡ o → kept p k o ≡ some s → s.version < version
    kept_of none f g = absurd (none-some {a = s} none refl g)
    kept_of (some t) f g = elim (Bool-cases (p k t)) [
      | inl q ↦ absurd (none-some {a = s} none refl (rw q at g))
      | inr q ↦ h s (f ∙ rw q at g)
    ]

insert-Outdated :
    (j k : String) (v : Stored) (version : ℕ) (m : Map Stored)
    → (j ≢ k) ⊎ (v.version < version)
    → Outdated k version m
    → Outdated k version (insert j v m)
insert-Outdated j k v version m ok h s e = elim (lookup-insert_cases j v m k s e) [
  | inl (p, q) ↦ elim ok [ inl ne ↦ absurd (ne p) | inr below ↦ rw (← q) below ]
  | inr (p, q) ↦ h s q
]

surplus-Outdated :
    (es : List (String × Stored)) (k : String) (version : ℕ) (m : Map Stored)
    → Outdated k version m
    → Outdated k version (drop_surplus es m)
unfolding drop_surplus
surplus-Outdated [] k version m h = h
surplus-Outdated (e ∷ es) k version m h = elim (Bool-cases (ltb (size m) max_entries)) [
  | inl p ↦ rw p h
  | inr p ↦ rw p (surplus-Outdated es k version (remove e.0 m) (remove-Outdated e.0 k version m h))
]

abbrev Stale : String → ℕ → Cache → Type 0
Stale k v c = Outdated k v c.entries

get-Stale :
    (k t f : String) (v : ℕ) (now : Time) (c : Cache)
    → Stale k v c
    → Stale k v (get t f now c).1 × ((get t f now c).1.version ≡ c.version)
unfolding get
get-Stale k t f v now c h = elim (Option-cases (lookup (key t f) c.entries)) [
  | inl e ↦ rw e (h, refl)
  | inr (s, e) ↦ elim (Bool-cases (is_dead c.version now s)) [
    | inl d ↦ rw (e, d) (remove-Outdated (key t f) k v c.entries h, refl)
    | inr d ↦ rw (e, d) (h, refl)
  ]
]

evict-Stale :
    (k : String) (v : ℕ) (now : Time) (c : Cache)
    → Stale k v c
    → Stale k v (evict now c) × ((evict now c).version ≡ c.version)
unfolding evict
evict-Stale k v now c h = (
  surplus-Outdated _ k v (drop_dead now c)
      (remove_if-Outdated (λ k s. is_dead c.version now s) k v c.entries h),
  refl,
)

sweep-Stale :
    (k : String) (v : ℕ) (now : Time) (c : Cache)
    → Stale k v c
    → Stale k v (maybe_sweep now c) × ((maybe_sweep now c).version ≡ c.version)
unfolding maybe_sweep
sweep-Stale k v now c h =
    elim (Bool-cases (ltb (size c.entries) c.sweep_at || ltb (size c.entries) min_sweep)) [
      | inl e ↦ rw e (h, refl)
      | inr e ↦ rw e (remove_if-Outdated (λ k s. is_dead c.version now s) k v c.entries h, refl)
    ]

room-Stale :
    (b : Bool) (k : String) (v : ℕ) (now : Time) (c : Cache)
    → Stale k v c
    → let room = if b then evict now c else c in Stale k v room × (room.version ≡ c.version)
room-Stale true k v now c h = evict-Stale k v now c h
room-Stale false k v now c h = (h, refl)

put-Stale :
    (k t f : String) (v : ℕ) (e : Entry) (evicting now sweeping : Time) (c : Cache)
    → (key t f ≢ k) ⊎ (c.version < v)
    → Stale k v c
    → Stale k v (put t f e evicting now sweeping c)
      × ((put t f e evicting now sweeping c).version ≡ c.version)
unfolding put
put-Stale k t f v e evicting now sweeping c spared h =
    let j = key t f in
    let full = not (is_some (lookup j c.entries)) && leb max_entries (size c.entries) in
    let room = if full then evict evicting c else c in
    let s : Stored = record { entry = e; version = room.version; expires = now + room.ttl } in
    let d = record room { entries = insert j s room.entries } in
    let (stale, same) = room-Stale full k v evicting c h in
    let written : (j ≢ k) ⊎ (room.version < v) = rw same spared in
    let (swept, at) =
      sweep-Stale k v sweeping d (insert-Outdated j k s v room.entries written stale) in
    (swept, at ∙ same)

-- A call that spares the key, or that writes at a version below `v`, keeps it below `v`, and bumps the
-- version by its count.
apply-Stale :
    (x : Call) (k : String) (v : ℕ) (c : Cache)
    → Spares k x ⊎ (c.version < v)
    → c.version + bump x < 2 ^ 64
    → Stale k v c
    → Stale k v (apply x c) × ((apply x c).version ≡ c.version + bump x)
unfolding apply invalidate_all invalidate_token
apply-Stale (call_get t f now) k v c spared small h =
    let (stale, same) = get-Stale k t f v now c h in (stale, omega arith)
apply-Stale (call_put t f e evicting now sweeping) k v c spared small h =
    let (stale, same) = put-Stale k t f v e evicting now sweeping c spared h in (stale, omega arith)
apply-Stale call_invalidate_all k v c spared small h = (h, omega arith)
apply-Stale (call_invalidate_token t) k v c spared small h =
    (remove_if-Outdated _ k v c.entries h, omega arith)

-- Calls that spare the key leave it outdated.
after-Stale :
    (xs : List Call) (k : String) (v : ℕ) (c : Cache)
    → All (Spares k) xs
    → c.version + bumps xs < 2 ^ 64
    → Stale k v c
    → Stale k v (run xs c) × ((run xs c).version ≡ c.version + bumps xs)
unfolding run
after-Stale [] k v c spared small h = (h, omega arith)
after-Stale (x ∷ xs) k v c spared small h =
    let (stale, at) = apply-Stale x k v c (inl spared.0) (omega arith) h in
    let (stale', at') = after-Stale xs k v (apply x c) spared.1 (omega arith) stale in
    (stale', omega arith)

Outdated-mono : (k : String) (u v : ℕ) (m : Map Stored) → u ≤ v → Outdated k u m → Outdated k v m
Outdated-mono k u v m le h s e = let below = h s e in omega arith

-- Nothing in the cache is of a later version than its counter.
before-Stale :
    (xs : List Call) (k : String) (c : Cache)
    → c.version + bumps xs < 2 ^ 64
    → Stale k (c.version + 1) c
    → Stale k ((run xs c).version + 1) (run xs c) × ((run xs c).version ≡ c.version + bumps xs)
unfolding run
before-Stale [] k c small h = (h, omega arith)
before-Stale (x ∷ xs) k c small h =
    let (stale, at) = apply-Stale x k (c.version + 1) c (inr (omega arith)) (omega arith) h in
    let d = apply x c in
    let (stale', at') =
      before-Stale xs k d (omega arith)
        (Outdated-mono k (c.version + 1) (d.version + 1) d.entries (omega arith) stale) in
    (stale', omega arith)

get-none :
    (t f : String) (now : Time) (c : Cache) → Stale (key t f) c.version c → (get t f now c).0 ≡ none
unfolding get
get-none t f now c h = elim (Option-cases (lookup (key t f) c.entries)) [
  | inl e ↦ rw e refl
  | inr (s, e) ↦
      let below = h s e in
      let dead : is_dead c.version now s ≡ true = ground arith in rw (e, dead) refl
]

-- After the whole cache is invalidated, nothing that was put before is served again. Let any calls be
-- made of a new cache, then an invalidation, then any calls that put nothing under one token and
-- format, with fewer than 2^64 invalidations in all: then a lookup for them finds nothing.
pub invalidated_for_good :
    (ttl : Duration) (before after : List Call) (token format : String) (now : Time)
    → bumps before + 1 + bumps after < 2 ^ 64
    → All (Spares (key token format)) after
    → (get token format now (run after (invalidate_all (run before (new ttl))))).0 ≡ none
unfolding invalidate_all lookup
invalidated_for_good ttl before after token format now small spared =
    let k = key token format in
    let c = run before (new ttl) in
    let (dated, at) = before-Stale before k (new ttl) (omega arith) (λ s e. cc) in
    let d = invalidate_all c in
    let version : d.version ≡ c.version + 1 = omega arith in
    let (stale, at') = after-Stale after k d.version d spared (omega arith) (rw version dated) in
    get-none token format now (run after d)
      (Outdated-mono k d.version (run after d).version (run after d).entries (omega arith) stale)
