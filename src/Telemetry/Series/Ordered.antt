-- ===== src/Telemetry/Series/Ordered.antt =====
-- The series stay in order and within the cap.
use casper_vpn.Base.{
  ℕ, zero, suc, Time, Bool, true, false, not, List, [], ◌∷◌, ◌++◌, ◌-◌, ◌&&◌, ◌≤◌, ◌<◌, ◌≡◌, inl,
  inr, refl, is_zero, ltb, before, length, keep_if, sort_by, insert_by, All, All-map_into,
  All-keep_if, Bool-cases, arith,
}
use casper_vpn.Telemetry.Recommend.{Probe}
use casper_vpn.Telemetry.Series.{
  FieldSignal, MemoryStore, new_memory_store, drop, in_order, capped, write, since, signal_time,
  health_time, write_signals, write_health, prune,
}

module _ {A : Type 0} (at : A → Time) where
  -- Every point is as late as the ones before it.
  unfoldable pub Sorted : List A → Type 0
  Sorted [] = Unit
  Sorted (x ∷ xs) = All (λ y. at x ≤ at y) xs × Sorted xs

  abbrev less : A → A → Bool
  less x y = before (at x) (at y)

  All-insert :
      (t : ℕ) (x : A) (xs : List A)
      → t ≤ at x
      → All (λ y. t ≤ at y) xs
      → All (λ y. t ≤ at y) (insert_by less x xs)
  All-insert t x [] h k = (h, tt)
  All-insert t x (y ∷ ys) h k = elim (Bool-cases (less y x)) [
    | inl e ↦ rw e (k.0, All-insert t x ys h k.1)
    | inr e ↦ rw e (h, k)
  ]

  before_le : (s t : Time) → before s t ≡ true → s ≤ t
  before_le s t h = ground arith

  not_before_le : (s t : Time) → before s t ≡ false → t ≤ s
  not_before_le s t h = ground arith

  insert-Sorted : (x : A) (xs : List A) → Sorted xs → Sorted (insert_by less x xs)
  unfolding Sorted
  insert-Sorted x [] h = (tt, tt)
  insert-Sorted x (y ∷ ys) h = elim (Bool-cases (less y x)) [
    | inl e ↦ rw e (All-insert (at y) x ys (before_le (at y) (at x) e) h.0, insert-Sorted x ys h.1)
    | inr e ↦ rw e (
      (
        not_before_le (at y) (at x) e,
        All-map_into (λ z k. later (at x) (at y) (at z) (not_before_le (at y) (at x) e) k) ys h.0,
      ),
      h,
    )
  ]
    where
      later : (a b c : ℕ) → a ≤ b → b ≤ c → a ≤ c
      later a b c h k = omega arith

  sort-Sorted : (xs : List A) → Sorted (in_order at xs)
  unfolding sort_by Sorted
  sort-Sorted [] = tt
  sort-Sorted (x ∷ xs) = insert-Sorted x (in_order at xs) (sort-Sorted xs)

  drop-Sorted : (n : ℕ) (xs : List A) → Sorted xs → Sorted (drop at n xs)
  unfolding Sorted
  drop-Sorted zero xs h = h
  drop-Sorted (suc n) [] h = h
  drop-Sorted (suc n) (x ∷ xs) h = drop-Sorted n xs h.1

  length-drop : (n : ℕ) (xs : List A) → length (drop at n xs) ≡ length xs - n
  length-drop zero xs = omega arith
  length-drop (suc n) [] = omega arith
  length-drop (suc n) (x ∷ xs) = omega (arith, length-drop n xs)

  All-kept :
      (t : ℕ) (p : A → Bool) (xs : List A)
      → All (λ y. t ≤ at y) xs
      → All (λ y. t ≤ at y) (keep_if p xs)
  All-kept t p xs h = All-map_into (λ y k. k.0) (keep_if p xs) (All-keep_if (λ y. t ≤ at y) p xs h)

  keep-Sorted : (p : A → Bool) (xs : List A) → Sorted xs → Sorted (keep_if p xs)
  unfolding Sorted
  keep-Sorted p [] h = tt
  keep-Sorted p (x ∷ xs) h = elim (Bool-cases (p x)) [
    | inl e ↦ rw e (All-kept (at x) p xs h.0, keep-Sorted p xs h.1)
    | inr e ↦ rw e (keep-Sorted p xs h.1)
  ]

  length-keep_le : (p : A → Bool) (xs : List A) → length (keep_if p xs) ≤ length xs
  length-keep_le p [] = omega arith
  length-keep_le p (x ∷ xs) = ground (arith, length-keep_le p xs)

  -- The series is in order, and no longer than the cap unless that is 0.
  pub record Kept (max : ℕ) (xs : List A) : Type 0 where
    pub sorted : Sorted xs
    pub bounded : 0 < max → length xs ≤ max

  capped_le : (max : ℕ) (xs : List A) → 0 < max → length (capped at max xs) ≤ max
  capped_le max xs h = elim (Bool-cases (not (is_zero max) && ltb max (length xs))) [
    | inl e ↦ rw e (omega (arith, length-drop (length xs - max) xs))
    | inr e ↦ rw e (fits max (length xs) h e)
  ]
    where
      fits : (m n : ℕ) → 0 < m → (not (is_zero m) && ltb m n) ≡ false → n ≤ m
      fits m n h e = ground arith

  capped-Sorted : (max : ℕ) (xs : List A) → Sorted xs → Sorted (capped at max xs)
  capped-Sorted max xs h = elim (Bool-cases (not (is_zero max) && ltb max (length xs))) [
    | inl e ↦ rw e (drop-Sorted (length xs - max) xs h)
    | inr e ↦ rw e h
  ]

  write-Kept : (max : ℕ) (new xs : List A) → Kept max xs → Kept max (write at max new xs)
  unfolding write
  write-Kept max [] xs k = k
  write-Kept max (y ∷ ys) xs k = record {
    sorted = capped-Sorted max _ (sort-Sorted (xs ++ (y ∷ ys)));
    bounded = capped_le max _;
  }

  since-Kept : (max : ℕ) (t : Time) (xs : List A) → Kept max xs → Kept max (since at t xs)
  unfolding since
  since-Kept max t xs k = record {
    sorted = keep-Sorted _ xs k.sorted;
    bounded = λ h. omega (arith, k.bounded h, length-keep_le (λ x. not (before (at x) t)) xs);
  }

-- The calls that change the store.
pub data Call : Type 0 where
  writes_signals : List FieldSignal → Call
  writes_health : List Probe → Call
  prunes : Time → Call

unfoldable pub apply : Call → MemoryStore → MemoryStore
unfolding write_signals write_health prune
apply (writes_signals new) s = write_signals new s
apply (writes_health new) s = write_health new s
apply (prunes t) s = (prune t s).1

unfoldable pub run : List Call → MemoryStore → MemoryStore
unfolding apply
run [] s = s
run (c ∷ cs) s = run cs (apply c s)

-- Both series are in order and within the cap, which is the given one.
pub record IsTidy (max : ℕ) (s : MemoryStore) : Type 0 where
  pub cap : s.max_len ≡ max
  pub signals : Kept signal_time max s.signals
  pub health : Kept health_time max s.health

apply-IsTidy : (max : ℕ) (c : Call) (s : MemoryStore) → IsTidy max s → IsTidy max (apply c s)
unfolding apply write_signals write_health prune
apply-IsTidy max (writes_signals new) s h = record {
  cap = h.cap;
  signals = rw h.cap (write-Kept signal_time max new s.signals h.signals);
  health = h.health;
}
apply-IsTidy max (writes_health new) s h = record {
  cap = h.cap;
  signals = h.signals;
  health = rw h.cap (write-Kept health_time max new s.health h.health);
}
apply-IsTidy max (prunes t) s h = record {
  cap = h.cap;
  signals = since-Kept signal_time max t s.signals h.signals;
  health = since-Kept health_time max t s.health h.health;
}

run_from-IsTidy :
    (max : ℕ) (cs : List Call) (s : MemoryStore) → IsTidy max s → IsTidy max (run cs s)
unfolding run
run_from-IsTidy max [] s h = h
run_from-IsTidy max (c ∷ cs) s h = run_from-IsTidy max cs (apply c s) (apply-IsTidy max c s h)

-- After any writes and prunings of an empty store, both series are in the order of their times, and
-- neither is longer than the cap that the store was made with, unless that is 0.
pub run-IsTidy : (max : ℕ) (cs : List Call) → IsTidy max (run cs (new_memory_store max))
unfolding Sorted
run-IsTidy max cs = run_from-IsTidy max cs (new_memory_store max) (record {
  cap = refl;
  signals = record { sorted = tt; bounded = λ h. omega arith };
  health = record { sorted = tt; bounded = λ h. omega arith };
})
