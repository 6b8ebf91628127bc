-- ===== src/KeyComparator/Order.antt =====
-- The order of src/index/key_comparator.cpp on all keys but floating-point and decimal numbers.
use qin_db.Shared.{◌≡◌, refl, Bool, true, false, [], ◌∷◌, ltb, arith}
use qin_db.Page.LittleEndian.{Bytes}
use qin_db.KeyComparator.{
  Sign, less, same, greater, KeyType, integer_key, float_key, decimal_key, char_key, string_key,
  binary_key, date_key, time_key, datetime_key, boolean_key, uuid_key, other_key, Keys, three_way,
  compare_bytes, bool_lt, compare_values, compare_keys,
}

abbrev pub flip : Sign → Sign
flip less = greater
flip same = same
flip greater = less

-- At most, so that both laws of a total preorder can be stated.
abbrev pub is_le : Sign → Bool
is_le less = true
is_le same = true
is_le greater = false

-- A comparison that is turned round by exchanging its arguments, and transitive.
pub record IsOrder {A : Type 0} (compare : A → A → Sign) : Type 0 where
  pub turned : (a b : A) → compare b a ≡ flip (compare a b)
  pub chained :
      (a b c : A)
      → is_le (compare a b) ≡ true
      → is_le (compare b c) ≡ true
      → is_le (compare a c) ≡ true

-- What `<` of a total order satisfies.
pub record IsLess {A : Type 0} (lt : A → A → Bool) : Type 0 where
  pub apart : (a b : A) → lt a b ≡ true → lt b a ≡ false
  pub splits : (a b c : A) → lt a c ≡ true → lt a b ≡ false → lt b c ≡ true

pub three_way-IsOrder : {A : Type 0} (lt : A → A → Bool) → IsLess lt → IsOrder (three_way lt)
three_way-IsOrder lt v = record {
  turned = λ a b. ground (arith, v.apart a b, v.apart b a);
  chained =
      λ a b c h k. ground (arith, h, k, v.splits c b a, v.apart a b, v.apart b c, v.apart a c);
}

pub ltb-IsLess : IsLess ltb
ltb-IsLess = record {
  apart = λ a b h. ground (arith, h);
  splits = λ a b c h k. ground (arith, h, k);
}

bool_lt-IsLess : IsLess bool_lt
bool_lt-IsLess = record {
  apart = λ a b h. ground (arith, h);
  splits = λ a b c h k. ground (arith, h, k);
}

-- A comparison of what the keys are mapped to.
on-IsOrder :
    {A B : Type 0} (f : B → A) (compare : A → A → Sign)
    → IsOrder compare
    → IsOrder (λ a b. compare (f a) (f b))
on-IsOrder f compare v = record {
  turned = λ a b. v.turned (f a) (f b);
  chained = λ a b c h k. v.chained (f a) (f b) (f c) h k;
}

compare_bytes-turned : (xs ys : Bytes) → compare_bytes ys xs ≡ flip (compare_bytes xs ys)
unfolding compare_bytes
compare_bytes-turned [] [] = refl
compare_bytes-turned [] (y ∷ ys) = refl
compare_bytes-turned (x ∷ xs) [] = refl
compare_bytes-turned (x ∷ xs) (y ∷ ys) = ground (arith, compare_bytes-turned xs ys)

compare_bytes-chained :
    (xs ys zs : Bytes)
    → is_le (compare_bytes xs ys) ≡ true
    → is_le (compare_bytes ys zs) ≡ true
    → is_le (compare_bytes xs zs) ≡ true
unfolding compare_bytes
compare_bytes-chained [] ys [] h k = refl
compare_bytes-chained [] ys (z ∷ zs) h k = refl
compare_bytes-chained (x ∷ xs) [] zs h k = cc
compare_bytes-chained (x ∷ xs) (y ∷ ys) [] h k = cc
compare_bytes-chained (x ∷ xs) (y ∷ ys) (z ∷ zs) h k =
    ground (arith, h, k, compare_bytes-chained xs ys zs)

-- What Qt documents of its comparisons.
pub record KeyLaws (q : Keys) : Type 0 where
  pub text : IsOrder q.compare_text
  pub text_caseless : IsOrder q.compare_text_caseless
  pub date : IsLess q.date_lt
  pub time : IsLess q.time_lt
  pub datetime : IsLess q.datetime_lt

-- Keys that are not floating-point or decimal numbers.
abbrev pub is_exact : KeyType → Bool
is_exact float_key = false
is_exact decimal_key = false
is_exact t = true

module _ (q : Keys) (laws : KeyLaws q) where
  compare_values-IsOrder : (t : KeyType) → is_exact t ≡ true → IsOrder (compare_values q t)
  unfolding compare_values
  compare_values-IsOrder integer_key h =
      on-IsOrder q.to_long_long (three_way ltb) (three_way-IsOrder ltb ltb-IsLess)
  compare_values-IsOrder float_key h = cc
  compare_values-IsOrder decimal_key h = cc
  compare_values-IsOrder char_key h =
      on-IsOrder (λ v. q.trimmed (q.to_text v)) q.compare_text laws.text
  compare_values-IsOrder string_key h = on-IsOrder q.to_text q.compare_text laws.text
  compare_values-IsOrder binary_key h =
      on-IsOrder q.to_bytes compare_bytes
        (record { turned = compare_bytes-turned; chained = compare_bytes-chained })
  compare_values-IsOrder date_key h =
      on-IsOrder q.to_date (three_way q.date_lt) (three_way-IsOrder q.date_lt laws.date)
  compare_values-IsOrder time_key h =
      on-IsOrder q.to_time (three_way q.time_lt) (three_way-IsOrder q.time_lt laws.time)
  compare_values-IsOrder datetime_key h =
      on-IsOrder q.to_datetime (three_way q.datetime_lt)
        (three_way-IsOrder q.datetime_lt laws.datetime)
  compare_values-IsOrder boolean_key h =
      on-IsOrder q.to_bool (three_way bool_lt) (three_way-IsOrder bool_lt bool_lt-IsLess)
  compare_values-IsOrder uuid_key h =
      on-IsOrder (λ v. q.without_format (q.to_text v)) q.compare_text_caseless laws.text_caseless
  compare_values-IsOrder other_key h = record { turned = λ a b. refl; chained = λ a b c h k. refl }

  -- For keys of one type that is not a floating-point or decimal number, null keys among them,
  -- exchanging the keys turns the sign of compare round, and at most is transitive, if QString, QDate,
  -- QTime and QDateTime compare so.
  pub compare_keys-IsOrder : (t : KeyType) → is_exact t ≡ true → IsOrder (compare_keys q t)
  unfolding compare_keys
  compare_keys-IsOrder t h =
      let v = compare_values-IsOrder t h in
      record {
        turned = λ a b. ground (arith, v.turned a b);
        chained = λ a b c i j. ground (arith, i, j, v.chained a b c);
      }
