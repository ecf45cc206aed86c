-- ===== src/Orchestrator/Reconcile/Silence.antt =====
-- A dry run changes nothing outside.
use casper_vpn.Base.{
  String, ℕ, Bool, true, false, not, Option, none, some, List, [], ◌∷◌, ◌≡◌, refl, ◌∙◌,
  if◌then◌else◌, count_if,
}
use casper_vpn.Map.{Map, lookup, insert, empty}
use casper_vpn.Orchestrator.Policy.{NodeBlock, Recommendations}
use casper_vpn.Orchestrator.Ports.{Ports, World, Verdict, Request, changes, answer, ask, now}
use casper_vpn.ControlPlane.Contracts.{Node, Result, ok, err}
use casper_vpn.ControlPlane.Action.{Action, ◌>>=◌, ◌>>◌, Moves, >>=-Moves, done, try}
use casper_vpn.Orchestrator.Reconcile.{
  Options, by_id, note, suspect, is_probed, confirm, confirm_suspects, recs_or_none, act, cycle,
}

-- How many requests of the log change something.
pub changes_in : List Request → ℕ
changes_in log = count_if changes log

module _ (ports : Ports) where
  -- No request that changes something is made.
  Silent : World ports → World ports → Type 0
  Silent w w' = changes_in w'.log ≡ changes_in w.log

  trans-Silent : (a b c : World ports) → Silent a b → Silent b c → Silent a c
  unfolding Silent
  trans-Silent a b c h k = k ∙ h

  chain :
      {A B : Type 0} (m : Action (World ports) A) (f : A → Action (World ports) B)
      → Moves Silent m
      → ((a : A) → Moves Silent (f a))
      → Moves Silent (m >>= f)
  chain m f h k = >>=-Moves Silent trans-Silent m f h k

  done-Silent : {A : Type 0} (a : A) → Moves Silent (done a)
  unfolding Silent
  done-Silent a = record { holds = λ w. refl }

  now-Silent : Moves Silent (now ports)
  unfolding Silent
  now-Silent = record { holds = λ w. refl }

  ask-Silent :
      {A : Type 0} (request : Option A → Request)
      (call : Ports.Outside ports → Option A × Ports.Outside ports)
      → ((o : Option A) → changes (request o) ≡ false)
      → Moves Silent (ask ports request call)
  unfolding Silent changes_in
  ask-Silent request call quiet = record { holds = λ w. answered w (call w.outside) }
    where
      answered :
          (w : World ports) (o : Option _ × Ports.Outside ports)
          → changes_in (answer ports request o w.log).1.log ≡ changes_in w.log
      answered w (none, o) = rw (quiet none) refl
      answered w (some a, o) = rw (quiet (some a)) refl

  try-Silent : {A : Type 0} (m : Action (World ports) A) → Moves Silent m → Moves Silent (try m)
  unfolding Silent
  try-Silent m h = record { holds = h.holds }

  note-Silent :
      (id : String) (out : Map Verdict) (r : Result Verdict)
      → Moves Silent (note ports true id out r)
  unfolding ◌>>◌
  note-Silent id out (ok v) = chain _ _ (done-Silent tt) (λ u. done-Silent (insert id v out))
  note-Silent id out (err e) = done-Silent out

  choice-Silent :
      {A : Type 0} (b : Bool) (m k : Action (World ports) A)
      → Moves Silent m
      → Moves Silent k
      → Moves Silent (if b then m else k)
  choice-Silent true m k h l = h
  choice-Silent false m k h l = l

  suspect-Silent :
      (b : NodeBlock) (o : Option Node) (out : Map Verdict)
      → Moves Silent (suspect ports true b o out)
  suspect-Silent b none out = done-Silent out
  suspect-Silent b (some n) out =
      choice-Silent (is_probed ports (lookup b.node_id out)) _ _ (done-Silent out) (
        chain _ _ (try-Silent _ (ask-Silent (λ r. Request.probed) (ports.probe n) (λ o. refl)))
          (note-Silent b.node_id out))

  confirm-Silent :
      (bs : List NodeBlock) (fleet : Map Node) (out : Map Verdict)
      → Moves Silent (confirm ports true bs fleet out)
  unfolding confirm
  confirm-Silent [] fleet out = done-Silent out
  confirm-Silent (b ∷ bs) fleet out =
      chain _ _ (suspect-Silent b (lookup b.node_id fleet) out) (confirm-Silent bs fleet)

  confirm_suspects-Silent :
      (opts : Options) (recs : Recommendations) (nodes : List Node)
      → opts.dry_run ≡ true
      → Moves Silent (confirm_suspects ports opts recs nodes)
  unfolding confirm_suspects
  confirm_suspects-Silent opts recs nodes dry =
      choice-Silent (not opts.probe_enabled) _ _ (done-Silent _)
        (rw dry (confirm-Silent recs.node_blocks (by_id nodes empty) empty))

  -- In a dry run a cycle makes no request that changes anything: it provisions, rotates, drains,
  -- retires and synchronises nothing, and reports no verdict to telemetry, whatever it observes and
  -- whether it succeeds or fails.
  pub dry_run_changes_nothing :
      (opts : Options) (w : World ports)
      → opts.dry_run ≡ true
      → changes_in (cycle ports opts w).1.log ≡ changes_in w.log
  unfolding cycle Silent act
  dry_run_changes_nothing opts w dry =
      (chain _ _ now-Silent (λ t.
          chain _ _ (ask-Silent (λ r. Request.listed) ports.list_nodes (λ o. refl)) (λ nodes.
            chain _ _ (rw dry (done-Silent 0)) (λ synced.
              chain _ _
                (try-Silent _ (
                  ask-Silent (λ r. Request.read_recommendations) ports.recommendations (λ o. refl)))
                (λ recs.
                  chain _ _ (confirm_suspects-Silent opts (recs_or_none ports recs) nodes dry)
                    (λ probes. rw dry (done-Silent _))))))).holds
        w
