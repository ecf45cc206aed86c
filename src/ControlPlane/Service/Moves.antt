-- ===== src/ControlPlane/Service/Moves.antt =====
-- Rules for what a handler may do to the stores: a relation between the stores before and after that
-- is reflexive and transitive holds of a handler when it holds of each of its calls of a store.
use casper_vpn.Base.{Bool, true, false, Option, ◌≡◌, refl, inl, inr, if◌then◌else◌}
use casper_vpn.ControlPlane.Contracts.{Error, Result}
use casper_vpn.ControlPlane.Action.{
  Action, ◌>>=◌, ◌>>◌, >>=-moves_at, Yields, done, fail, reject_if, returns, try, ignore,
}
use casper_vpn.ControlPlane.Store.State.{State}
use casper_vpn.ControlPlane.Service.Environment.{
  Environment, World, draw-cases, in_store, now, draw, change, notify,
}

pub record Preorder : Type 1 where
  pub related : State → State → Type 0
  pub stays : (s : State) → related s s
  pub chains : (s t u : State) → related s t → related t u → related s u

-- Every outcome of the handler, a failure too, leaves the stores as the relation allows.
pub record Touches {env : Environment} {A : Type 0} (q : Preorder) (m : Action (World env) A)
    : Type 0 where
  pub holds : (w : World env) → q.related w.store (m w).1.store

pub guarded_at :
    {env : Environment} {B : Type 0} (q : Preorder) (b : Bool) (e : Error)
    (k : Action (World env) B) (w : World env)
    → (b ≡ false → q.related w.store (k w).1.store)
    → q.related w.store ((reject_if b e >> k) w).1.store
unfolding ◌>>◌ ◌>>=◌
guarded_at q true e k w h = q.stays w.store
guarded_at q false e k w h = h refl

module _ {env : Environment} {q : Preorder} where
  open q use {related, stays, chains}

  -- A first step that is known to respect the relation in this state.
  pub then_at :
      {A B : Type 0} (m : Action (World env) A) (f : A → Action (World env) B) (w : World env)
      → related w.store (m w).1.store
      → ((a : A) → Touches q (f a))
      → related w.store ((m >>= f) w).1.store
  then_at m f w h k =
      >>=-moves_at (λ a b. related a.store b.store) (λ a b c. chains a.store b.store c.store) m f w
        h (λ a t e. (k a).holds t)

  pub then-Touches :
      {A B : Type 0} (m : Action (World env) A) (f : A → Action (World env) B)
      → Touches q m
      → ((a : A) → Touches q (f a))
      → Touches q (m >>= f)
  then-Touches m f h k = record { holds = λ w. then_at m f w (h.holds w) k }

  pub and_then-Touches :
      {B : Type 0} (m : Action (World env) (Unit {0})) (k : Action (World env) B)
      → Touches q m
      → Touches q k
      → Touches q (m >> k)
  unfolding ◌>>◌
  and_then-Touches m k h l = then-Touches m (λ _. k) h (λ _. l)

  pub and_then_at :
      {B : Type 0} (m : Action (World env) (Unit {0})) (k : Action (World env) B) (w : World env)
      → related w.store (m w).1.store
      → Touches q k
      → related w.store ((m >> k) w).1.store
  unfolding ◌>>◌
  and_then_at m k w h l = then_at m (λ _. k) w h (λ _. l)

  pub in_store-Touches :
      {A : Type 0} (m : Action State A)
      → ((s : State) → related s (m s).1)
      → Touches q (in_store env m)
  in_store-Touches m h = record { holds = λ w. h w.store }

  pub draw-Touches :
      {A : Type 0} (f : Environment.Outside env → Option A × Environment.Outside env)
      → Touches q (draw env f)
  draw-Touches f = record {
    holds = λ w. elim (draw-cases (f w.outside)) [
      | inl (o, e) ↦ rw e (stays w.store)
      | inr (a, o, e) ↦ rw e (stays w.store)
    ];
  }

  pub now-Touches : Touches q (now env)
  now-Touches = record { holds = λ w. stays w.store }

  pub notify-Touches :
      (f : Environment.Outside env → Bool × Environment.Outside env) → Touches q (notify env f)
  notify-Touches f = record { holds = λ w. stays w.store }

  pub change-Touches :
      (f : State → State) → ((s : State) → related s (f s)) → Touches q (change env f)
  change-Touches f h = record { holds = λ w. h w.store }

  pub returns-Touches : {A : Type 0} (r : Result A) → Touches q (returns {S = World env} r)
  returns-Touches r = record { holds = λ w. stays w.store }

  pub done-Touches : {A : Type 0} (a : A) → Touches q (done {S = World env} a)
  done-Touches a = record { holds = λ w. stays w.store }

  pub fail-Touches : {A : Type 0} (e : Error) → Touches q (fail {S = World env} {A = A} e)
  fail-Touches e = record { holds = λ w. stays w.store }

  pub reject_if-Touches : (b : Bool) (e : Error) → Touches q (reject_if {S = World env} b e)
  reject_if-Touches true e = record { holds = λ w. stays w.store }
  reject_if-Touches false e = record { holds = λ w. stays w.store }

  pub try-Touches : {A : Type 0} (m : Action (World env) A) → Touches q m → Touches q (try m)
  try-Touches m h = record { holds = h.holds }

  pub ignore-Touches : {A : Type 0} (m : Action (World env) A) → Touches q m → Touches q (ignore m)
  ignore-Touches m h = record { holds = h.holds }

  pub choice-Touches :
      {A : Type 0} (b : Bool) (m k : Action (World env) A)
      → Touches q m
      → Touches q k
      → Touches q (if b then m else k)
  choice-Touches true m k h l = h
  choice-Touches false m k h l = l

  -- The rest of a handler may rely on what the value of its first step is like.
  pub then-Yields {κ} :
      {A B : Type 0} (P : A → Type κ) (m : Action (World env) A) (f : A → Action (World env) B)
      → Touches q m
      → Yields P m
      → ((a : A) → P a → Touches q (f a))
      → Touches q (m >>= f)
  unfolding Yields
  then-Yields P m f h y k = record {
    holds = λ w.
        >>=-moves_at (λ a b. related a.store b.store) (λ a b c. chains a.store b.store c.store) m f
          w (h.holds w) (λ a t e. (k a (y w t a e)).holds t);
  }

  -- Behind a guard.
  pub guarded-Touches :
      {B : Type 0} (b : Bool) (e : Error) (k : Action (World env) B)
      → (b ≡ false → Touches q k)
      → Touches q (reject_if b e >> k)
  guarded-Touches b e k h = record { holds = λ w. guarded_at q b e k w (λ f. (h f).holds w) }
