-- ===== src/Telemetry/Recommend/Probed.antt =====
-- Every recommendation is backed by probes.
use casper_vpn.Base.{
  String, ℕ, suc, Time, Duration, Bool, true, false, not, Option, none, some, List, [], ◌∷◌, map,
  ◌+◌, ◌≤◌, ◌≡◌, ◌≢◌, refl, sym, ap, ◌∙◌, inl, inr, ◌⊎◌, ◌==◌, arith, Bool-cases, Option-cases, All,
  All-sort_by, All-map_into, Memᴰ, if◌then◌else◌, sort_by, any_of, length, length-sort_by, eq_iff,
}
use casper_vpn.Map.{
  Map, lookup, insert, entries, empty, lookup-insert_cases, lookup-insert_self, All-entries,
  Memᴰ-entries,
}
use casper_vpn.Orchestrator.Policy.{
  HealthStatus, healthy, blocked, unreachable, shows_block, Confidence, authoritative,
  mark_node_blocked, NodeBlock,
}
use casper_vpn.Telemetry.Recommend.{
  Probe, Verdicts, is_authoritative, or_empty, with_region, add_verdict, add_regions, counts,
  collect, text_before, block_of, node_before, node_blocks, recommend,
}

module _ (health : List Probe) (now : Time) (window : Duration) where
  -- A probe of the node inside the window found it blocked from the region, or unreachable.
  abbrev pub Reported : String → String → Type 0
  Reported node region =
      (e : Probe) × (Memᴰ e health)
      × (e.node_id ≡ node)
      × (Memᴰ region e.blocked_from_regions)
      × (e.observed_at ≤ now)
      × (now ≤ e.observed_at + window)
      × ((e.status ≡ blocked) ⊎ (e.status ≡ unreachable))

  pub record IsProbed (b : NodeBlock) : Type 0 where
    pub action : b.action ≡ mark_node_blocked
    pub sure : b.confidence ≡ authoritative
    pub somewhere : b.regions ≢ []
    pub reported : All (λ r. (r ≢ "") × Reported b.node_id r) b.regions

  -- The verdicts on one node.
  record IsBacked (node : String) (inner : Map Confidence) : Type 0 where
    each :
        (r : String) (c : Confidence)
        → lookup r inner ≡ some c
        → (c ≡ authoritative) × (r ≢ "") × Reported node r
    known : (r : String) × ((c : Confidence) × (lookup r inner ≡ some c))

  abbrev AllBacked : Verdicts → Type 0
  AllBacked v =
      (node : String) (inner : Map Confidence)
      → lookup node v.regions ≡ some inner
      → IsBacked node inner

  inserted-IsBacked :
      (node region : String) (inner : Map Confidence)
      → region ≢ ""
      → Reported node region
      → ((r : String) (c : Confidence)
          → lookup r inner ≡ some c
          → (c ≡ authoritative) × (r ≢ "") × Reported node r)
      → IsBacked node (insert region authoritative inner)
  inserted-IsBacked node region inner named rep h = record {
    each = λ r c e. elim (lookup-insert_cases region authoritative inner r c e) [
      | inl (p, q) ↦ rw (← p, ← q) (refl, named, rep)
      | inr (p, q) ↦ h r c q
    ];
    known = (region, (authoritative, lookup-insert_self region authoritative inner));
  }

  nothing-backed : (r : String) (c : Confidence) → lookup r empty ≡ some c → ⊥
  unfolding lookup
  nothing-backed r c e = cc

  with_region-IsBacked :
      (node region : String) (o : Option (Map Confidence))
      → region ≢ ""
      → Reported node region
      → ((inner : Map Confidence) → o ≡ some inner → IsBacked node inner)
      → IsBacked node (with_region region authoritative (or_empty o))
  with_region-IsBacked node region none named rep h =
      let e : lookup region (or_empty none) ≡ none = empty_none region in
      rw e (inserted-IsBacked node region empty named rep (λ r c f. absurd (nothing-backed r c f)))
    where
      empty_none : (r : String) → lookup r (or_empty none) ≡ none
      empty_none r = elim (Option-cases (lookup r (or_empty none))) [
        | inl e ↦ e
        | inr (c, e) ↦ absurd (nothing-backed r c e)
      ]
  with_region-IsBacked node region (some inner) named rep h =
      let old = h inner refl in
      elim (Option-cases (lookup region inner)) [
        | inl e ↦ rw e (inserted-IsBacked node region inner named rep old.each)
        | inr (cur, e) ↦ elim (Bool-cases (not (is_authoritative cur))) [
          | inl q ↦ rw (e, q) (inserted-IsBacked node region inner named rep old.each)
          | inr q ↦ rw (e, q) old
        ]
      ]

  add-AllBacked :
      (node region reason : String) (v : Verdicts)
      → Reported node region
      → AllBacked v
      → AllBacked (add_verdict node region authoritative reason v)
  unfolding add_verdict
  add-AllBacked node region reason v rep h = elim (Bool-cases (region == "")) [
    | inl e ↦ rw e h
    | inr e ↦ rw e (λ k inner f.
        let next = with_region region authoritative (or_empty (lookup node v.regions)) in
        let backed =
          with_region-IsBacked node region (lookup node v.regions) (λ p. named e p) rep (h node) in
        elim (lookup-insert_cases node next v.regions k inner f) [
          | inl (p, q) ↦ rw (← p, ← q) backed
          | inr (p, q) ↦ h k inner q
        ])
  ]
    where
      named : (region == "") ≡ false → region ≡ "" → ⊥
      named e p = clash (region == "") e ((eq_iff region "").1 p)
        where
          clash : (b : Bool) → b ≡ false → b ≡ true → ⊥
          clash b e f = cc

  regions-AllBacked :
      (node : String) (rs : List String) (reason : String) (v : Verdicts)
      → ((r : String) → Memᴰ r rs → Reported node r)
      → AllBacked v
      → AllBacked (add_regions node rs reason v)
  unfolding add_regions
  regions-AllBacked node [] reason v rep h = h
  regions-AllBacked node (r ∷ rs) reason v rep h =
      regions-AllBacked node rs reason _ (λ r m. rep r (Memᴰ.tail m))
        (add-AllBacked node r reason v (rep r (Memᴰ.head refl)) h)

  shows_block-shows : (s : HealthStatus) → shows_block s ≡ true → (s ≡ blocked) ⊎ (s ≡ unreachable)
  shows_block-shows HealthStatus.blocked e = inl refl
  shows_block-shows unreachable e = inr refl
  shows_block-shows healthy e = cc
  shows_block-shows HealthStatus.degraded e = cc
  shows_block-shows (HealthStatus.other s) e = cc

  counts-Reported :
      (e : Probe)
      → Memᴰ e health
      → counts e now window ≡ true
      → (r : String) → Memᴰ r e.blocked_from_regions
      → Reported e.node_id r
  counts-Reported e m c r n =
      (e, m, refl, n, (ground arith), (ground arith), shows_block-shows e.status (ground arith))

  probe-AllBacked :
      (e : Probe) (reason : String) (v : Verdicts)
      → Memᴰ e health
      → AllBacked v
      → AllBacked
          (if counts e now window then add_regions e.node_id e.blocked_from_regions reason v else v)
  probe-AllBacked e reason v m h = elim (Bool-cases (counts e now window)) [
    | inl c ↦
        rw c (regions-AllBacked e.node_id e.blocked_from_regions reason v (counts-Reported e m c) h)
    | inr c ↦ rw c h
  ]

  collect-AllBacked :
      (es : List Probe) (v : Verdicts)
      → ((e : Probe) → Memᴰ e es → Memᴰ e health)
      → AllBacked v
      → AllBacked (collect es now window v)
  unfolding collect
  collect-AllBacked [] v m h = h
  collect-AllBacked (e ∷ es) v m h =
      collect-AllBacked es _ (λ e n. m e (Memᴰ.tail n))
        (probe-AllBacked e _ v (m e (Memᴰ.head refl)) h)

  any_of-Memᴰ :
      (p : String × Confidence → Bool) (x : String × Confidence) (xs : List (String × Confidence))
      → Memᴰ x xs
      → p x ≡ true
      → any_of p xs ≡ true
  any_of-Memᴰ p x [] m e = elim m [ ]
  any_of-Memᴰ p x (y ∷ ys) (Memᴰ.head q) e = rw (← q, e) refl
  any_of-Memᴰ p x (y ∷ ys) (Memᴰ.tail m) e = ground (arith, any_of-Memᴰ p x ys m e)

  sorted-nonempty :
      (x : String × Confidence) (xs : List (String × Confidence))
      → Memᴰ x xs
      → sort_by text_before (map (λ (e : String × Confidence). e.0) xs) ≢ []
  sorted-nonempty x [] m e = elim m [ ]
  sorted-nonempty x (y ∷ ys) m e =
      let names = map (λ (e : String × Confidence). e.0) (y ∷ ys) in
      positive (length (map (λ (e : String × Confidence). e.0) ys))
        (sym (length-sort_by text_before names) ∙ ap length e)
    where
      positive : (n : ℕ) → suc n ≡ 0 → ⊥
      positive n e = omega arith

  All-map :
      (P : String → Type 0) (xs : List (String × Confidence))
      → All (λ e. P e.0) xs
      → All P (map (λ (e : String × Confidence). e.0) xs)
  All-map P [] h = tt
  All-map P (x ∷ xs) h = (h.0, All-map P xs h.1)

  block_of-IsProbed :
      (reasons : Map String) (node : String) (inner : Map Confidence)
      → IsBacked node inner
      → IsProbed (block_of reasons (node, inner))
  unfolding block_of
  block_of-IsProbed reasons node inner h =
      let (r, (c, at)) = h.known in
      let m = Memᴰ-entries r c inner at in
      let sure =
        any_of-Memᴰ (λ e. is_authoritative e.1) (r, c) (entries inner) m
          (rw ((h.each r c at).0) refl) in
      record {
        action = refl;
        sure = rw sure refl;
        somewhere = sorted-nonempty (r, c) (entries inner) m;
        reported = All-sort_by _ text_before _ (
            All-map _ (entries inner) (
              All-map_into (λ e at. let (sure, named, rep) = h.each e.0 e.1 at in (named, rep))
                (entries inner) (All-entries inner)));
      }

  blocks-IsProbed :
      (reasons : Map String) (es : List (String × Map Confidence))
      → All (λ e. IsBacked e.0 e.1) es
      → All IsProbed (map (block_of reasons) es)
  blocks-IsProbed reasons [] h = tt
  blocks-IsProbed reasons ((node, inner) ∷ es) h =
      (block_of-IsProbed reasons node inner h.0, blocks-IsProbed reasons es h.1)

  -- Every recommendation to block a node is authoritative, names at least one region, and for each of
  -- its regions, none of them empty, there is a probe of that node, observed inside the window, that
  -- names the region and found the node blocked or unreachable.
  pub recommend-IsProbed : All IsProbed (recommend health now window).node_blocks
  unfolding recommend node_blocks lookup
  recommend-IsProbed =
      let v = collect health now window (record { regions = empty; reasons = empty }) in
      let backed =
        collect-AllBacked health (record { regions = empty; reasons = empty }) (λ e m. m)
          (λ node inner e. cc) in
      blocks-IsProbed v.reasons (sort_by node_before (entries v.regions)) (
        All-sort_by _ node_before (entries v.regions)
          (All-map_into (λ e at. backed e.0 e.1 at) (entries v.regions) (All-entries v.regions)))
