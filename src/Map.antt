-- ===== src/Map.antt =====
-- Go's maps with string keys, as association lists behind their laws. The order in which Go ranges
-- over a map is not specified; `entries` gives each live key once, in the order of the list.
use casper_vpn.Base.{
  String, Bool, true, false, Option, none, some, List, [], ◌∷◌, ◌≡◌, refl, inl, inr, ◌⊎◌, ◌==◌,
  eq_iff, eq_refl, arith, if◌then◌else◌, Bool-cases, Memᴰ, All, All-map_into, ℕ, length,
}

abbrev pub Map {ℓ} : Type ℓ → Type ℓ
Map V = List (String × V)

module _ {ℓ} {V : Type ℓ} where
  -- `make(map[string]V)`
  abbrev pub empty : Map V
  empty = []

  -- `v, ok := m[k]`
  unfoldable pub lookup : String → Map V → Option V
  lookup k [] = none
  lookup k ((j, v) ∷ m) = if j == k then some v else lookup k m

  -- `delete(m, k)`
  unfoldable pub remove : String → Map V → Map V
  remove k [] = []
  remove k ((j, v) ∷ m) = let rest = remove k m in if j == k then rest else (j, v) ∷ rest

  -- `m[k] = v`
  unfoldable pub insert : String → V → Map V → Map V
  unfolding remove
  insert k v m = (k, v) ∷ remove k m

  -- What `for k, v := range m` goes through.
  unfoldable pub entries : Map V → List (String × V)
  unfolding remove
  entries [] = []
  entries ((k, v) ∷ m) = (k, v) ∷ remove k (entries m)

  -- `for k, v := range m { m[k] = f(k, v) }`
  unfoldable pub update_all : (String → V → V) → Map V → Map V
  update_all f [] = []
  update_all f ((k, v) ∷ m) = (k, f k v) ∷ update_all f m

  -- `for k, v := range m { if p(k, v) { delete(m, k) } }`
  unfoldable pub remove_if : (String → V → Bool) → Map V → Map V
  unfolding remove
  remove_if p [] = []
  remove_if p ((k, v) ∷ m) =
      let rest = remove_if p m in if p k v then remove k rest else (k, v) ∷ rest

  -- `len(m)`
  unfoldable pub size : Map V → ℕ
  unfolding entries
  size m = length (entries m)

  pub lookup-remove :
      (k j : String) (m : Map V) → lookup j (remove k m) ≡ (if k == j then none else lookup j m)
  unfolding lookup remove
  lookup-remove k j [] = ground arith
  lookup-remove k j ((i, v) ∷ m) =
      ground (arith, lookup-remove k j m, eq_iff i k, eq_iff i j, eq_iff k j)

  pub lookup-insert :
      (k j : String) (v : V) (m : Map V)
      → lookup j (insert k v m) ≡ (if k == j then some v else lookup j m)
  unfolding lookup insert
  lookup-insert k j v m = ground (arith, lookup-remove k j m)

  -- What is found after a write is what was written or what was there.
  pub lookup-insert_cases :
      (k : String) (v : V) (m : Map V) (j : String) (w : V)
      → lookup j (insert k v m) ≡ some w
      → ((k ≡ j) × (v ≡ w)) ⊎ (((k == j) ≡ false) × (lookup j m ≡ some w))
  lookup-insert_cases k v m j w h = elim (Bool-cases (k == j)) [
    | inl e ↦ inl ((eq_iff k j).0 e, ground (arith, lookup-insert k j v m))
    | inr e ↦ inr (e, ground (arith, lookup-insert k j v m))
  ]

  pub lookup-insert_self : (k : String) (v : V) (m : Map V) → lookup k (insert k v m) ≡ some v
  lookup-insert_self k v m = rw (lookup-insert k k v m) (rw (eq_refl k) refl)

  -- The value that an update of all entries leaves, entry by entry.
  abbrev pub updated : (String → V → V) → String → Option V → Option V
  updated f k none = none
  updated f k (some v) = some (f k v)

  pub lookup-update_all :
      (f : String → V → V) (k : String) (m : Map V)
      → lookup k (update_all f m) ≡ updated f k (lookup k m)
  unfolding lookup update_all
  lookup-update_all f k [] = refl
  lookup-update_all f k ((j, v) ∷ m) = elim (Bool-cases (j == k)) [
    | inl e ↦ rw e (rw ((eq_iff j k).0 e) refl)
    | inr e ↦ rw e (lookup-update_all f k m)
  ]

  abbrev pub kept : (String → V → Bool) → String → Option V → Option V
  kept p k none = none
  kept p k (some v) = if p k v then none else some v

  pub lookup-remove_if :
      (p : String → V → Bool) (k : String) (m : Map V)
      → lookup k (remove_if p m) ≡ kept p k (lookup k m)
  unfolding lookup remove_if
  lookup-remove_if p k [] = refl
  lookup-remove_if p k ((j, v) ∷ m) = elim (Bool-cases (j == k)) [
    | inl e ↦ rw ((eq_iff j k).0 e) (ground (arith, eq_refl k, lookup-remove k k (remove_if p m)))
    | inr e ↦ ground (arith, lookup-remove j k (remove_if p m), lookup-remove_if p k m)
  ]

  All-remove {κ} :
      (P : String × V → Type κ) (k : String) (m : Map V)
      → All P m
      → All (λ e. P e × ((k == e.0) ≡ false)) (remove k m)
  unfolding remove
  All-remove P k [] h = tt
  All-remove P k ((j, v) ∷ m) h = elim (Bool-cases (j == k)) [
    | inl e ↦ rw e (All-remove P k m h.1)
    | inr e ↦ rw e ((h.0, ground (arith, eq_iff j k, eq_iff k j)), All-remove P k m h.1)
  ]

  -- Every entry that a `range` meets is the live value of its key.
  pub All-entries : (m : Map V) → All (λ e. lookup e.0 m ≡ some e.1) (entries m)
  unfolding entries lookup
  All-entries [] = tt
  All-entries ((k, v) ∷ m) = (
    rw (eq_refl k) refl,
    All-map_into (λ e p. rw p.1 p.0) (remove k (entries m))
        (All-remove (λ e. lookup e.0 m ≡ some e.1) k (entries m) (All-entries m)),
  )

  Memᴰ-remove :
      (k j : String) (v : V) (m : Map V)
      → (k == j) ≡ false
      → Memᴰ (j, v) m
      → Memᴰ (j, v) (remove k m)
  unfolding remove
  Memᴰ-remove k j v [] h t = elim t [ ]
  Memᴰ-remove k j v ((i, w) ∷ m) h (Memᴰ.head e) =
      let other : (i == k) ≡ false = ground (arith, eq_iff i k, eq_iff k j) in
      rw other (Memᴰ.head e)
  Memᴰ-remove k j v ((i, w) ∷ m) h (Memᴰ.tail t) = elim (Bool-cases (i == k)) [
    | inl e ↦ rw e (Memᴰ-remove k j v m h t)
    | inr e ↦ rw e (Memᴰ.tail (Memᴰ-remove k j v m h t))
  ]

  -- A `range` meets every live key.
  pub Memᴰ-entries :
      (k : String) (v : V) (m : Map V) → lookup k m ≡ some v → Memᴰ (k, v) (entries m)
  unfolding entries lookup
  Memᴰ-entries k v [] h = cc
  Memᴰ-entries k v ((j, w) ∷ m) h = elim (Bool-cases (j == k)) [
    | inl e ↦ Memᴰ.head (ground (arith, eq_iff j k))
    | inr e ↦ Memᴰ.tail (Memᴰ-remove j k v (entries m) e (Memᴰ-entries k v m (rw e at h)))
  ]

pub ruleset map_laws = (lookup-insert, lookup-remove, lookup-update_all, lookup-remove_if, eq_refl)
