-- ===== src/Subscription/Cache.antt =====
-- services/subscription/internal/cache/cache.go: the payload cache with its version counter. The
-- mutex makes each method one step. A time argument is what `c.now()` returns there, one for each
-- call that can be made; the arbitrary entries that go when the cache is full are the first ones.
pub mod Freshness
pub mod Lookup
use text.Mathlib.Text.{starts_with}
use Prim.Native.String.{◌++◌}
use casper_vpn.Base.{
  String, ℕ, Time, Duration, Bool, true, false, not, Option, none, some, List, [], ◌∷◌, ◌+◌, ◌*◌,
  ◌%◌, ◌^◌, ◌&&◌, ◌||◌, after, nat_eq, ltb, leb, is_some, if◌then◌else◌,
}
use casper_vpn.Map.{Map, lookup, insert, remove, remove_if, entries, size, empty}

abbrev pub max_entries : ℕ
max_entries = 100000

pub record Entry : Type 0 where
  pub body : String
  pub content_type : String
  pub headers : Map String

-- `stored`
pub record Stored : Type 0 where
  pub entry : Entry
  pub version : ℕ
  pub expires : Time

-- `version` is a uint64.
pub record Cache : Type 0 where
  pub ttl : Duration
  pub version : ℕ
  pub entries : Map Stored
  pub sweep_at : ℕ

abbrev pub new : Duration → Cache
new ttl = record { ttl = ttl; version = 0; entries = empty; sweep_at = 0 }

abbrev pub key : String → String → String
key token format = token ++ "|" ++ format

-- `s.version != c.version || !s.expires.After(now)`
abbrev pub is_dead : ℕ → Time → Stored → Bool
is_dead version now s = not (nat_eq s.version version) || not (after s.expires now)

abbrev pub found : Option Stored → String → Time → Cache → Option Entry × Cache
found none k now c = (none, c)
found (some s) k now c =
    if is_dead c.version now s
    then (none, record c { entries = remove k c.entries })
    else (some s.entry, c)

unfoldable pub get : String → String → Time → Cache → Option Entry × Cache
get token format now c = found (lookup (key token format) c.entries) (key token format) now c

-- The loop that both sweeps share.
abbrev pub drop_dead : Time → Cache → Map Stored
drop_dead now c = remove_if (λ k s. is_dead c.version now s) c.entries

-- The second loop of `evictLocked`, over the keys that it ranges over.
unfoldable pub drop_surplus : List (String × Stored) → Map Stored → Map Stored
unfolding size
drop_surplus [] m = m
drop_surplus (e ∷ rest) m =
    let fewer = drop_surplus rest (remove e.0 m) in if ltb (size m) max_entries then m else fewer

unfoldable pub evict : Time → Cache → Cache
unfolding drop_surplus
evict now c = let live = drop_dead now c in record c { entries = drop_surplus (entries live) live }

abbrev pub min_sweep : ℕ
min_sweep = 1024

unfoldable pub maybe_sweep : Time → Cache → Cache
unfolding size
maybe_sweep now c =
    if ltb (size c.entries) c.sweep_at || ltb (size c.entries) min_sweep
    then c
    else let live = drop_dead now c in record c { entries = live; sweep_at = 2 * size live }

-- `evicting`, `now` and `sweeping` are the times that `Put` and the methods that it calls read.
unfoldable pub put : String → String → Entry → Time → Time → Time → Cache → Cache
unfolding evict maybe_sweep size
put token format e evicting now sweeping c =
    let k = key token format in
    let room =
      if not (is_some (lookup k c.entries)) && leb max_entries (size c.entries)
      then evict evicting c
      else c in
    let s : Stored = record { entry = e; version = room.version; expires = now + room.ttl } in
    maybe_sweep sweeping (record room { entries = insert k s room.entries })

unfoldable pub invalidate_all : Cache → Cache
invalidate_all c = record c { version = (c.version + 1) % 2 ^ 64 }

unfoldable pub invalidate_token : String → Cache → Cache
invalidate_token token c = record c {
  entries = remove_if (λ k s. starts_with k (token ++ "|")) c.entries;
}
