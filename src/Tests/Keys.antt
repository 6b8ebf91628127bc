-- ===== src/Tests/Keys.antt =====
-- Index keys that are numbers, with 0 for null.
use qin_db.Shared.{ℕ, ◌-◌, ◌≡◌, refl, false, some, [], ◌∷◌, ltb, ◌==◌}
use qin_db.KeyComparator.{
  less, Keys, three_way, binary_key, compare_keys, compare_values, compare_bytes,
}
use qin_db.KeyComparator.Order.{
  IsOrder, KeyLaws, three_way-IsOrder, ltb-IsLess, compare_keys-IsOrder,
}

abbrev numbers : Keys
numbers = record {
  Value = ℕ;
  Double = ℕ;
  Text = ℕ;
  Date = ℕ;
  Time = ℕ;
  DateTime = ℕ;
  is_null = λ v. v == 0;
  to_long_long = λ v. v;
  to_double = λ v. v;
  to_text = λ v. v;
  to_bytes = λ v. v ∷ [];
  to_date = λ v. v;
  to_time = λ v. v;
  to_datetime = λ v. v;
  to_bool = λ v. ltb 0 v;
  is_nan = λ d. false;
  is_inf = λ d. false;
  is_positive = λ d. ltb 0 d;
  is_negative = λ d. false;
  double_lt = ltb;
  minus = λ a b. a - b;
  is_tiny = λ d. d == 0;
  parse_double = λ t. some t;
  compare_text = three_way ltb;
  compare_text_caseless = three_way ltb;
  trimmed = λ t. t;
  without_format = λ t. t;
  date_lt = ltb;
  time_lt = ltb;
  datetime_lt = ltb;
}

number_laws : KeyLaws numbers
number_laws = record {
  text = three_way-IsOrder ltb ltb-IsLess;
  text_caseless = three_way-IsOrder ltb ltb-IsLess;
  date = ltb-IsLess;
  time = ltb-IsLess;
  datetime = ltb-IsLess;
}

compare_keys_runs :
    (compare_keys numbers binary_key 3 5 ≡ less) × (compare_keys numbers binary_key 0 5 ≡ less)
unfolding compare_keys compare_values compare_bytes
compare_keys_runs = (refl, refl)

compare_keys-IsOrder_example : IsOrder (compare_keys numbers binary_key)
compare_keys-IsOrder_example = compare_keys-IsOrder numbers number_laws binary_key refl
