-- ===== src/Orchestrator/Policy/Safety.antt =====
-- The anti-poisoning gate: what justifies each action of a plan, stated on the input alone.
use casper_vpn.Base.{
  String, ℕ, Time, Duration, ◌+◌, ◌≤◌, true, false, not, Option, none, some, List, [], ◌∷◌, ◌≡◌,
  ◌≢◌, refl, inl, inr, ◌⊎◌, ◌&&◌, ◌||◌, arith, Bool-cases, Option-cases, All, All-append,
  All-sort_by, Memᴰ, is_some, if◌then◌else◌, before, leb,
}
use casper_vpn.Map.{Map, lookup, empty}
use casper_vpn.Orchestrator.Policy.{
  NodeStatus, Node, Confidence, authoritative, corroborated, NodeBlock, valid_block, HealthStatus,
  blocked, unreachable, HealthEvent, ActionType, noop, mark_degraded, rotate, replace, retire,
  side_effecting, Action, Thresholds, drain_started_label, Input, gate, replace_or_rotate, index,
  recs_fresh, Draft, add, plan_blocks, plan_rotations, keep_capped, cap_side_effects,
  plan_retirements, draft, plan, label_or_empty, on_node, gated, is_settled, is_active, is_degraded,
  is_draining, add_option, due_rotation, due_retirement, confidence_gate, shows_block,
  action_before,
}

-- A probe of our own confirms the block.
abbrev pub IsConfirmed : Input → Thresholds → NodeBlock → Type 0
IsConfirmed input th b =
    (b.confidence ≡ authoritative)
    ⊎ ((b.confidence ≡ corroborated)
        × ((ev : HealthEvent) × (lookup b.node_id input.probes ≡ some ev)
            × (input.now ≤ ev.observed_at + th.probe_max_age)
            × ((ev.status ≡ blocked) ⊎ (ev.status ≡ unreachable))))

-- The node is in service: neither draining, nor retired, nor still provisioned.
abbrev pub InService : NodeStatus → Type 0
InService s = (s ≢ NodeStatus.draining) × (s ≢ NodeStatus.retired) × (s ≢ NodeStatus.provisioning)

-- A fresh, valid and confirmed recommendation to block the node, which is known and in service.
pub record Blocked (input : Input) (th : Thresholds) (id : String) : Type 0 where
  pub block : NodeBlock
  pub listed : Memᴰ block input.recs.node_blocks
  pub valid : valid_block block ≡ true
  pub names : block.node_id ≡ id
  pub dated : input.recs.generated_at ≢ 0
  pub fresh : input.now ≤ input.recs.generated_at + th.recommendation_max_age
  pub node : Node
  pub known : lookup id (index input.nodes empty) ≡ some node
  pub in_service : InService node.status
  pub confirmed : IsConfirmed input th block

-- The node's own rotation time has come.
pub record Scheduled (input : Input) (id : String) : Type 0 where
  pub node : Node
  pub listed : Memᴰ node input.nodes
  pub names : node.id ≡ id
  pub since : Time
  pub set : node.rotate_after ≡ some since
  pub elapsed : since ≤ input.now
  pub serving : (node.status ≡ NodeStatus.active) ⊎ (node.status ≡ NodeStatus.degraded)

-- The node has been draining for the whole grace period.
pub record Drained (parse : String → Option Time) (input : Input) (th : Thresholds) (id : String)
    : Type 0 where
  pub node : Node
  pub listed : Memᴰ node input.nodes
  pub names : node.id ≡ id
  pub draining : node.status ≡ NodeStatus.draining
  pub since : Time
  pub stamped : parse (label_or_empty (lookup drain_started_label node.labels)) ≡ some since
  pub elapsed : since + th.drain_grace ≤ input.now

shows_block-shows : (s : HealthStatus) → shows_block s ≡ true → (s ≡ blocked) ⊎ (s ≡ unreachable)
shows_block-shows HealthStatus.blocked e = inl refl
shows_block-shows unreachable e = inr refl
shows_block-shows HealthStatus.healthy e = cc
shows_block-shows HealthStatus.degraded e = cc
shows_block-shows (HealthStatus.other s) e = cc

is_settled-InService : (s : NodeStatus) → is_settled s ≡ false → InService s
is_settled-InService NodeStatus.active e = (λ h. cc, λ h. cc, λ h. cc)
is_settled-InService NodeStatus.degraded e = (λ h. cc, λ h. cc, λ h. cc)
is_settled-InService NodeStatus.blocked e = (λ h. cc, λ h. cc, λ h. cc)
is_settled-InService (NodeStatus.other s) e = (λ h. cc, λ h. cc, λ h. cc)
is_settled-InService NodeStatus.draining e = cc
is_settled-InService NodeStatus.retired e = cc
is_settled-InService NodeStatus.provisioning e = cc

serving_cases :
    (s : NodeStatus)
    → (is_active s || is_degraded s) ≡ true
    → (s ≡ NodeStatus.active) ⊎ (s ≡ NodeStatus.degraded)
serving_cases NodeStatus.active e = inl refl
serving_cases NodeStatus.degraded e = inr refl
serving_cases NodeStatus.blocked e = cc
serving_cases (NodeStatus.other s) e = cc
serving_cases NodeStatus.draining e = cc
serving_cases NodeStatus.retired e = cc
serving_cases NodeStatus.provisioning e = cc

is_draining-draining : (s : NodeStatus) → is_draining s ≡ true → s ≡ NodeStatus.draining
is_draining-draining NodeStatus.draining e = refl
is_draining-draining NodeStatus.active e = cc
is_draining-draining NodeStatus.degraded e = cc
is_draining-draining NodeStatus.blocked e = cc
is_draining-draining (NodeStatus.other s) e = cc
is_draining-draining NodeStatus.retired e = cc
is_draining-draining NodeStatus.provisioning e = cc

confidence_gate-none :
    (c : Confidence) (id : String) (probes : Map HealthEvent) (now : Time) (max_age : Duration)
    → confidence_gate c id probes now max_age ≡ none
    → (c ≡ authoritative)
      ⊎ ((c ≡ corroborated)
          × ((ev : HealthEvent) × (lookup id probes ≡ some ev)
              × (now ≤ ev.observed_at + max_age)
              × ((ev.status ≡ blocked) ⊎ (ev.status ≡ unreachable))))
confidence_gate-none authoritative id probes now max_age h = inl refl
confidence_gate-none (Confidence.unknown s) id probes now max_age h = cc
confidence_gate-none corroborated id probes now max_age h = elim (Option-cases (lookup id probes)) [
  | inl e ↦ cc (rw e at h)
  | inr (ev, e) ↦
      let shown = shows_block-shows ev.status in
      let g = rw e at h in inr (refl, (ev, e, ground arith, shown (ground arith)))
]

module _ (parse : String → Option Time) (input : Input) (th : Thresholds) where
  -- What justifies an action of this type on the node with this id.
  abbrev pub Justification : ActionType → String → Type 0
  Justification rotate id = Blocked input th id ⊎ Scheduled input id
  Justification replace id = Blocked input th id
  Justification retire id = Drained parse input th id
  Justification noop id = Unit
  Justification mark_degraded id = Unit

  abbrev pub Justified : Action → Type 0
  Justified a = Justification a.type a.node_id

  replace_or_rotate-Justification :
      (n : Node) (id : String) → Blocked input th id → Justification (replace_or_rotate n) id
  unfolding replace_or_rotate
  replace_or_rotate-Justification n id h = elim (Bool-cases n.ephemeral_entry_ip) [
    | inl e ↦ rw e (inl h)
    | inr e ↦ rw e h
  ]

  recs_fresh-fresh :
      recs_fresh input th ≡ true
      → (input.recs.generated_at ≢ 0)
        × (input.now ≤ input.recs.generated_at + th.recommendation_max_age)
  unfolding recs_fresh
  recs_fresh-fresh h = (λ z. ground arith, ground arith)

  gated-Justified :
      (b : NodeBlock) (node : Node)
      → Memᴰ b input.recs.node_blocks
      → valid_block b ≡ true
      → lookup b.node_id (index input.nodes empty) ≡ some node
      → recs_fresh input th ≡ true
      → is_settled node.status ≡ false
      → Justified (gated (gate b input.probes input.now th.probe_max_age) b node)
  unfolding gate
  gated-Justified b node m valid known fresh serving =
      elim (Option-cases (gate b input.probes input.now th.probe_max_age)) [
        | inr (why, e) ↦ elim (Bool-cases (is_degraded node.status)) [
          | inl d ↦ rw (e, d) tt
          | inr d ↦ rw (e, d) tt
        ]
        | inl e ↦ rw e (
            replace_or_rotate-Justification node b.node_id (record {
              block = b;
              listed = m;
              valid = valid;
              names = refl;
              dated = (recs_fresh-fresh fresh).0;
              fresh = (recs_fresh-fresh fresh).1;
              node = node;
              known = known;
              in_service = is_settled-InService node.status serving;
              confirmed =
                  confidence_gate-none b.confidence b.node_id input.probes input.now
                    th.probe_max_age e;
            }))
      ]

  on_node-Justified :
      (b : NodeBlock)
      → Memᴰ b input.recs.node_blocks
      → valid_block b ≡ true
      → Justified (on_node (lookup b.node_id (index input.nodes empty)) b input th)
  on_node-Justified b m valid = elim (Option-cases (lookup b.node_id (index input.nodes empty))) [
    | inl e ↦ rw e tt
    | inr (node, e) ↦ elim (Bool-cases (recs_fresh input th)) [
      | inr f ↦ rw (e, f) tt
      | inl f ↦ elim (Bool-cases (is_settled node.status)) [
        | inl s ↦ rw (e, f, s) tt
        | inr s ↦ rw (e, f, s) (gated-Justified b node m valid e f s)
      ]
    ]
  ]

  add-Justified :
      (a : Action) (d : Draft) → Justified a → All Justified d.out → All Justified (add a d).out
  unfolding add
  add-Justified a d j h = All-append Justified d.out (a ∷ []) h (j, tt)

  abbrev MaybeJustified : Option Action → Type 0
  MaybeJustified none = Unit
  MaybeJustified (some a) = Justified a

  add_option-Justified :
      (o : Option Action) (d : Draft)
      → MaybeJustified o
      → All Justified d.out
      → All Justified (add_option o d).out
  add_option-Justified none d j h = h
  add_option-Justified (some a) d j h = add-Justified a d j h

  block_step :
      (b : NodeBlock) (d : Draft)
      → Memᴰ b input.recs.node_blocks
      → All Justified d.out
      → All Justified
          (if valid_block b
            then add (on_node (lookup b.node_id (index input.nodes empty)) b input th) d
            else d).out
  block_step b d m h = elim (Bool-cases (valid_block b)) [
    | inr v ↦ rw v h
    | inl v ↦ rw v (add-Justified _ d (on_node-Justified b m v) h)
  ]

  plan_blocks-Justified :
      (bs : List NodeBlock) (d : Draft)
      → ((b : NodeBlock) → Memᴰ b bs → Memᴰ b input.recs.node_blocks)
      → All Justified d.out
      → All Justified (plan_blocks bs (index input.nodes empty) input th d).out
  unfolding plan_blocks
  plan_blocks-Justified [] d m h = h
  plan_blocks-Justified (b ∷ bs) d m h =
      plan_blocks-Justified bs _ (λ b k. m b (Memᴰ.tail k))
        (block_step b d (m b (Memᴰ.head refl)) h)

  due_rotation-Justified :
      (o : Option Time) (n : Node)
      → n.rotate_after ≡ o
      → Memᴰ n input.nodes
      → MaybeJustified (due_rotation o n input.now)
  due_rotation-Justified none n e m = tt
  due_rotation-Justified (some t) n e m = elim (Bool-cases (before input.now t)) [
    | inl b ↦ rw b tt
    | inr b ↦ elim (Bool-cases (is_active n.status || is_degraded n.status)) [
      | inr s ↦ rw (b, s) tt
      | inl s ↦
          rw (b, s)
            (inr (record {
              node = n;
              listed = m;
              names = refl;
              since = t;
              set = e;
              elapsed = ground arith;
              serving = serving_cases n.status s;
            }))
    ]
  ]

  rotation_step :
      (n : Node) (d : Draft)
      → Memᴰ n input.nodes
      → All Justified d.out
      → All Justified
          (if is_some (lookup n.id d.planned)
            then d
            else add_option (due_rotation n.rotate_after n input.now) d).out
  rotation_step n d m h = elim (Bool-cases (is_some (lookup n.id d.planned))) [
    | inl v ↦ rw v h
    | inr v ↦ rw v (
        add_option-Justified (due_rotation n.rotate_after n input.now) d
          (due_rotation-Justified n.rotate_after n refl m) h)
  ]

  plan_rotations-Justified :
      (ns : List Node) (d : Draft)
      → ((n : Node) → Memᴰ n ns → Memᴰ n input.nodes)
      → All Justified d.out
      → All Justified (plan_rotations ns input.now d).out
  unfolding plan_rotations
  plan_rotations-Justified [] d m h = h
  plan_rotations-Justified (n ∷ ns) d m h =
      plan_rotations-Justified ns _ (λ b k. m b (Memᴰ.tail k))
        (rotation_step n d (m n (Memᴰ.head refl)) h)

  due_retirement-Justified :
      (o : Option Time) (n : Node)
      → parse (label_or_empty (lookup drain_started_label n.labels)) ≡ o
      → n.status ≡ NodeStatus.draining
      → Memᴰ n input.nodes
      → MaybeJustified (due_retirement o n input.now th.drain_grace)
  due_retirement-Justified none n e s m = tt
  due_retirement-Justified (some t) n e s m =
      elim (Bool-cases (leb (t + th.drain_grace) input.now)) [
        | inr b ↦ rw b tt
        | inl b ↦ rw b (record {
          node = n;
          listed = m;
          names = refl;
          draining = s;
          since = t;
          stamped = e;
          elapsed = ground arith;
        })
      ]

  retirement_step :
      (n : Node) (d : Draft)
      → Memᴰ n input.nodes
      → All Justified d.out
      → All Justified
          (if is_some (lookup n.id d.planned) || not (is_draining n.status)
            then d
            else add_option
                (due_retirement
                  (parse (label_or_empty (lookup drain_started_label n.labels)))
                  n
                  input.now
                  th.drain_grace)
                d).out
  retirement_step n d m h =
      elim (Bool-cases (is_some (lookup n.id d.planned) || not (is_draining n.status))) [
        | inl v ↦ rw v h
        | inr v ↦ rw v (
            add_option-Justified _ d
              (due_retirement-Justified _ n refl (is_draining-draining n.status (ground arith)) m)
              h)
      ]

  plan_retirements-Justified :
      (ns : List Node) (d : Draft)
      → ((n : Node) → Memᴰ n ns → Memᴰ n input.nodes)
      → All Justified d.out
      → All Justified (plan_retirements parse ns input.now th.drain_grace d).out
  unfolding plan_retirements
  plan_retirements-Justified [] d m h = h
  plan_retirements-Justified (n ∷ ns) d m h =
      plan_retirements-Justified ns _ (λ b k. m b (Memᴰ.tail k))
        (retirement_step n d (m n (Memᴰ.head refl)) h)

  keep_capped-Justified :
      (actions : List Action) (max side : ℕ)
      → All Justified actions
      → All Justified (keep_capped max side actions)
  unfolding keep_capped
  keep_capped-Justified [] max side h = tt
  keep_capped-Justified (a ∷ rest) max side h =
      elim (Bool-cases (side_effecting a.type && leb max side)) [
        | inl e ↦ rw e (tt, keep_capped-Justified rest max _ h.1)
        | inr e ↦ rw e (h.0, keep_capped-Justified rest max _ h.1)
      ]

  -- Every action of a plan is justified by the input. A node is rotated only when a valid
  -- recommendation to block it is fresh and is authoritative or confirmed by a probe that is not too
  -- old and found the node blocked or unreachable, with the node in service, or when its own rotation
  -- time has come; it is replaced only for such a recommendation; and it is retired only when it has
  -- been draining for the grace period since the time on its label.
  pub plan-Justified : All Justified (plan parse input th)
  unfolding plan draft cap_side_effects
  plan-Justified = keep_capped-Justified _ _ 0 (
      All-sort_by Justified action_before _ (
        plan_retirements-Justified input.nodes _ (λ n m. m)
          (plan_rotations-Justified input.nodes _ (λ n m. m)
            (plan_blocks-Justified input.recs.node_blocks _ (λ b m. m) tt))))
