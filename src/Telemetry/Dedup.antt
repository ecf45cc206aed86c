-- ===== src/Telemetry/Dedup.antt =====
-- services/telemetry/internal/ingest/dedup.go: signal ids are accepted once within a time to live. The
-- mutex makes `Fresh` one step; `now` is what the clock returns in it. `now.Sub(ts) < ttl` is compared
-- as `now < ts + ttl`, which also covers a clock that went back.
use casper_vpn.Base.{
  String, ℕ, Time, Duration, Bool, true, false, Option, none, some, List, [], ◌∷◌, ◌+◌, ◌<◌, ◌≡◌,
  refl, inl, inr, ◌==◌, ltb, leb, if◌then◌else◌, arith, Bool-cases, All, eq_iff,
}
use casper_vpn.Map.{
  Map, lookup, insert, remove_if, size, empty, lookup-insert, lookup-insert_self, lookup-remove_if,
}

pub record Deduper : Type 0 where
  pub seen : Map Time
  pub ttl : Duration

abbrev pub new_deduper : Duration → Deduper
new_deduper ttl = record { seen = empty; ttl = ttl }

-- The size from which the expired ids are swept.
abbrev pub sweep_size : ℕ
sweep_size = 4096

unfoldable pub sweep : Time → Deduper → Deduper
unfolding size
sweep now d =
    if ltb (size d.seen) sweep_size
    then d
    else record d { seen = remove_if (λ k ts. leb (ts + d.ttl) now) d.seen }

-- `ts, ok := d.seen[id]; ok && now.Sub(ts) < d.ttl`
abbrev pub is_repeat : Option Time → Time → Duration → Bool
is_repeat none now ttl = false
is_repeat (some ts) now ttl = ltb now (ts + ttl)

unfoldable pub fresh : String → Time → Deduper → Bool × Deduper
unfolding sweep
fresh id now d =
    if id == ""
    then (false, d)
    else if is_repeat (lookup id d.seen) now d.ttl
    then (false, d)
    else (true, sweep now (record d { seen = insert id now d.seen }))

-- Calls of `Fresh`, each with an id and a time.
unfoldable pub feed : List (String × Time) → Deduper → Deduper
unfolding fresh
feed [] d = d
feed ((id, now) ∷ rest) d = feed rest (fresh id now d).1

-- The id was seen at `at`.
abbrev Seen : String → Time → Deduper → Type 0
Seen id at d = lookup id d.seen ≡ some at

sweep-Seen :
    (id : String) (at now : Time) (d : Deduper)
    → Seen id at d
    → now < at + d.ttl
    → Seen id at (sweep now d) × ((sweep now d).ttl ≡ d.ttl)
unfolding sweep
sweep-Seen id at now d h soon = elim (Bool-cases (ltb (size d.seen) sweep_size)) [
  | inl e ↦ rw e (h, refl)
  | inr e ↦
      let live : leb (at + d.ttl) now ≡ false = ground arith in
      rw e (rw (lookup-remove_if (λ k ts. leb (ts + d.ttl) now) id d.seen, h, live) refl, refl)
]

fresh-Seen :
    (id other : String) (at now : Time) (d : Deduper)
    → Seen id at d
    → now < at + d.ttl
    → Seen id at (fresh other now d).1 × ((fresh other now d).1.ttl ≡ d.ttl)
unfolding fresh
fresh-Seen id other at now d h soon = elim (Bool-cases (other == "")) [
  | inl e ↦ rw e (h, refl)
  | inr e ↦ elim (Bool-cases (is_repeat (lookup other d.seen) now d.ttl)) [
    | inl r ↦ rw (e, r) (h, refl)
    | inr r ↦
        rw (e, r)
          (sweep-Seen id at now (record d { seen = insert other now d.seen })
            (elim (Bool-cases (other == id)) [
              | inl same ↦ absurd (
                  clash (is_repeat (lookup other d.seen) now d.ttl) r
                    (rw ((eq_iff other id).0 same) (rw h (ground arith))))
              | inr differ ↦ rw (lookup-insert other id now d.seen, differ) h
            ])
            soon)
  ]
]
  where
    clash : (b : Bool) → b ≡ false → b ≡ true → ⊥
    clash b e f = cc

feed-Seen :
    (calls : List (String × Time)) (id : String) (at : Time) (d : Deduper)
    → All (λ c. c.1 < at + d.ttl) calls
    → Seen id at d
    → Seen id at (feed calls d) × ((feed calls d).ttl ≡ d.ttl)
unfolding feed
feed-Seen [] id at d soon h = (h, refl)
feed-Seen ((other, now) ∷ rest) id at d soon h =
    let (seen, same) = fresh-Seen id other at now d h soon.0 in
    let (seen', same') = feed-Seen rest id at (fresh other now d).1 (rw same soon.1) seen in
    (seen', omega arith)

accepted-Seen :
    (id : String) (now : Time) (d : Deduper)
    → 0 < d.ttl
    → (fresh id now d).0 ≡ true
    → Seen id now (fresh id now d).1 × ((fresh id now d).1.ttl ≡ d.ttl)
unfolding fresh
accepted-Seen id now d positive h = elim (Bool-cases (id == "")) [
  | inl e ↦ absurd (clash (rw e at h))
  | inr e ↦ elim (Bool-cases (is_repeat (lookup id d.seen) now d.ttl)) [
    | inl r ↦ absurd (clash (rw (e, r) at h))
    | inr r ↦
        rw (e, r)
          (sweep-Seen id now now (record d { seen = insert id now d.seen })
            (lookup-insert_self id now d.seen) (omega arith))
  ]
]
  where
    clash : false ≡ true → ⊥
    clash e = cc

refused :
    (id : String) (at later : Time) (d : Deduper)
    → Seen id at d
    → later < at + d.ttl
    → (fresh id later d).0 ≡ false
unfolding fresh
refused id at later d h soon = elim (Bool-cases (id == "")) [
  | inl e ↦ rw e refl
  | inr e ↦
      let again : is_repeat (lookup id d.seen) later d.ttl ≡ true = rw h (ground arith) in
      rw (e, again) refl
]

-- An id that was accepted is refused for the whole time to live, whatever ids come in between, as
-- often and in whatever order, and whichever of them are swept: let `Fresh` accept an id at a time,
-- with a positive time to live; then after any calls before that time is over, `Fresh` refuses the id.
pub replay_refused :
    (id : String) (at later : Time) (calls : List (String × Time)) (d : Deduper)
    → 0 < d.ttl
    → (fresh id at d).0 ≡ true
    → All (λ c. c.1 < at + d.ttl) calls
    → later < at + d.ttl
    → (fresh id later (feed calls (fresh id at d).1)).0 ≡ false
replay_refused id at later calls d positive accepted soon late =
    let (seen, same) = accepted-Seen id at d positive accepted in
    let (seen', same') = feed-Seen calls id at (fresh id at d).1 (rw same soon) seen in
    refused id at later (feed calls (fresh id at d).1) seen' (rw (same', same) late)
