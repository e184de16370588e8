-- ===== src/Averages/Tests.antt =====
-- Doubles that are natural numbers or the largest.
use monitoring_tool.Prelude.{
  ℕ, ◌+◌, ◌/◌, ◌≡◌, refl, Bool, true, false, Option, none, some, [], ◌∷◌, ltb, arith,
}
use monitoring_tool.Averages.{Doubles, reset, get_rate, end_interval, seconds}
use monitoring_tool.Averages.Rates.{end_interval-rates}

abbrev plus : Option ℕ → Option ℕ → Option ℕ
plus none b = none
plus (some a) none = none
plus (some a) (some b) = some (a + b)

abbrev divide : Option ℕ → Option ℕ → Option ℕ
divide none b = none
divide (some a) none = some 0
divide (some a) (some b) = some (a / b)

abbrev less : Option ℕ → Option ℕ → Bool
less none b = false
less (some a) none = true
less (some a) (some b) = ltb a b

abbrev is_close : Option ℕ → Option ℕ → Bool
is_close none none = true
is_close none (some b) = false
is_close (some a) none = false
is_close (some a) (some b) = false

abbrev cut : Option ℕ → ℕ
cut none = 0
cut (some a) = a

abbrev naturals : Doubles
naturals = record {
  Double = Option ℕ;
  of_nat = λ n. some n;
  largest = none;
  plus = plus;
  divide = divide;
  less = less;
  is_close = is_close;
  to_int = cut;
  plus_exact = λ a b h. refl;
  less_exact = λ a b h k. refl;
  less_largest = λ a h. refl;
  far_from_largest = λ a h. refl;
  to_int_exact = λ a h. refl;
}

end_interval-rates_example :
    end_interval naturals (get_rate naturals 5) (seconds naturals (4 ∷ 2 ∷ 9 ∷ []) (reset naturals))
    ≡ ((some 3, some 2, some 9), reset naturals)
end_interval-rates_example =
    end_interval-rates naturals 5 4 (2 ∷ 9 ∷ []) (omega arith) (omega arith)
