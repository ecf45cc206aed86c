-- ===== src/Billing/Money.antt =====
-- services/billing/internal/money/money.go. `big.Rat.SetString`, Go's lexer of rational texts, is the
-- parameter `set_string`; what the package does with the rational is modelled.
use casper_vpn.Base.{
  String, ℕ, ◌*◌, Bool, true, false, Option, none, some, nat_eq, leb, if◌then◌else◌,
}

-- A `big.Rat`: its sign, and a numerator over a positive denominator.
pub record Rat : Type 0 where
  pub is_negative : Bool
  pub num : ℕ
  pub den : ℕ

abbrev non_negative : Option Rat → Option Rat
non_negative none = none
non_negative (some r) = if r.is_negative then none else some r

-- `Cmp` on amounts that are not negative.
abbrev rat_le : Rat → Rat → Bool
rat_le a b = leb (a.num * b.den) (b.num * a.den)

abbrev rat_eq : Rat → Rat → Bool
rat_eq a b = nat_eq (a.num * b.den) (b.num * a.den)

abbrev both : (Rat → Rat → Bool) → Option Rat → Option Rat → Option Bool
both f none b = none
both f (some a) none = none
both f (some a) (some b) = some (f a b)

module _ (set_string : String → Option Rat) where
  -- `none` is the error "invalid amount".
  unfoldable pub parse : String → Option Rat
  parse s = non_negative (set_string s)

  unfoldable pub valid : String → Bool
  unfolding parse
  valid s = elim (parse s) [ none ↦ false | some r ↦ true ]

  unfoldable pub equal : String → String → Option Bool
  unfolding parse
  equal a b = both rat_eq (parse a) (parse b)

  unfoldable pub gte : String → String → Option Bool
  unfolding parse
  gte paid expected = both (λ p e. rat_le e p) (parse paid) (parse expected)
