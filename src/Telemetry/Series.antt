-- ===== src/Telemetry/Series.antt =====
-- services/telemetry/internal/store/memory.go: the series of signals and of health events, kept in the
-- order of their times and capped. The share of lost packets, a float that the store does not read, is
-- left out of a signal; a slice that is returned is a copy, so nothing aliases the store.
pub mod Ordered
use casper_vpn.Base.{
  String, ℕ, zero, suc, Time, Bool, true, false, not, List, [], ◌∷◌, ◌++◌, ◌+◌, ◌-◌, ◌&&◌, is_zero,
  ltb, before, if◌then◌else◌, length, keep_if, count_if, sort_by,
}
use casper_vpn.ControlPlane.Contracts.{TransportType}
use casper_vpn.ControlPlane.Store.State.{SignalType}
use casper_vpn.Telemetry.Recommend.{Probe}

pub record FieldSignal : Type 0 where
  pub signal_id : String
  pub node_id : String
  pub transport_type : TransportType
  pub transport_version : String
  pub region : String
  pub asn : ℕ
  pub isp : String
  pub signal_type : SignalType
  pub success : Bool
  pub rtt_ms : ℕ
  pub client_version : String
  pub platform : String
  pub observed_at : Time

pub record MemoryStore : Type 0 where
  pub signals : List FieldSignal
  pub health : List Probe
  pub max_len : ℕ

abbrev pub new_memory_store : ℕ → MemoryStore
new_memory_store max_len = record { signals = []; health = []; max_len = max_len }

module _ {A : Type 0} (at : A → Time) where
  -- `xs[n:]`
  abbrev pub drop : ℕ → List A → List A
  drop zero xs = xs
  drop (suc n) [] = []
  drop (suc n) (x ∷ xs) = drop n xs

  abbrev pub in_order : List A → List A
  in_order xs = sort_by (λ x y. before (at x) (at y)) xs

  abbrev pub capped : ℕ → List A → List A
  capped max xs = if not (is_zero max) && ltb max (length xs) then drop (length xs - max) xs else xs

  unfoldable pub write : ℕ → List A → List A → List A
  write max [] xs = xs
  write max (y ∷ ys) xs = capped max (in_order (xs ++ (y ∷ ys)))

  unfoldable pub since : Time → List A → List A
  since t xs = keep_if (λ x. not (before (at x) t)) xs

  abbrev pub older : Time → List A → ℕ
  older t xs = count_if (λ x. before (at x) t) xs

abbrev pub signal_time : FieldSignal → Time
signal_time s = s.observed_at

abbrev pub health_time : Probe → Time
health_time e = e.observed_at

unfoldable pub write_signals : List FieldSignal → MemoryStore → MemoryStore
unfolding write
write_signals new s = record s { signals = write signal_time s.max_len new s.signals }

unfoldable pub write_health : List Probe → MemoryStore → MemoryStore
unfolding write
write_health new s = record s { health = write health_time s.max_len new s.health }

unfoldable pub signals_since : Time → MemoryStore → List FieldSignal
unfolding since
signals_since t s = since signal_time t s.signals

unfoldable pub health_since : Time → MemoryStore → List Probe
unfolding since
health_since t s = since health_time t s.health

-- The number of removed points, and the store without them.
unfoldable pub prune : Time → MemoryStore → ℕ × MemoryStore
unfolding since
prune t s = (
  older signal_time t s.signals + older health_time t s.health,
  record s { signals = since signal_time t s.signals; health = since health_time t s.health },
)
