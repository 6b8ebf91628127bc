-- ===== src/KeyComparator.antt =====
-- include/qindb/key_comparator.h and src/index/key_comparator.cpp: the order on index keys.
--
-- `Keys` is what the comparator uses of QVariant, QString, QDate, QTime, QDateTime and double. A qint64
-- is its value plus 2 ^ 63, which keeps the order. The result of a comparison is its sign; QString's
-- compare may answer any number of that sign.
pub mod Order
use qin_db.Shared.{
  ℕ, Bool, true, false, not, ◌&&◌, Option, none, some, List, [], ◌∷◌, ltb, ◌==◌, if◌then◌else◌,
  length,
}
use qin_db.Page.LittleEndian.{Bytes}

pub data Sign : Type 0 where
  less : Sign
  same : Sign
  greater : Sign

-- The classes into which compare sorts the members of DataType.
pub data KeyType : Type 0 where
  integer_key float_key decimal_key char_key string_key binary_key : KeyType
  date_key time_key datetime_key boolean_key uuid_key other_key : KeyType

pub record Keys : Type 1 where
  pub Value : Type 0
  pub Double : Type 0
  pub Text : Type 0
  pub Date : Type 0
  pub Time : Type 0
  pub DateTime : Type 0
  pub is_null : Value → Bool
  pub to_long_long : Value → ℕ
  pub to_double : Value → Double
  pub to_text : Value → Text
  pub to_bytes : Value → Bytes
  pub to_date : Value → Date
  pub to_time : Value → Time
  pub to_datetime : Value → DateTime
  pub to_bool : Value → Bool
  pub is_nan : Double → Bool
  pub is_inf : Double → Bool
  pub is_positive : Double → Bool
  pub is_negative : Double → Bool
  pub double_lt : Double → Double → Bool
  pub minus : Double → Double → Double
  pub is_tiny : Double → Bool
  pub parse_double : Text → Option Double
  pub compare_text : Text → Text → Sign
  pub compare_text_caseless : Text → Text → Sign
  pub trimmed : Text → Text
  pub without_format : Text → Text
  pub date_lt : Date → Date → Bool
  pub time_lt : Time → Time → Bool
  pub datetime_lt : DateTime → DateTime → Bool

-- if (v1 < v2) return -1; if (v1 > v2) return 1; return 0;
abbrev pub three_way : {A : Type 0} → (A → A → Bool) → A → A → Sign
three_way lt a b = if lt a b then less else if lt b a then greater else same

-- compareBinary: the bytes of both, and then the lengths.
unfoldable pub compare_bytes : Bytes → Bytes → Sign
compare_bytes [] [] = same
compare_bytes [] (y ∷ ys) = less
compare_bytes (x ∷ xs) [] = greater
compare_bytes (x ∷ xs) (y ∷ ys) =
    let rest = compare_bytes xs ys in if ltb x y then less else if ltb y x then greater else rest

-- compareBoolean
abbrev pub bool_lt : Bool → Bool → Bool
bool_lt a b = not a && b

module _ (q : Keys) where
  unfoldable pub compare_float : q.Double → q.Double → Sign
  compare_float a b =
      let diff = q.minus a b in
      if q.is_nan a && q.is_nan b
      then same
      else if q.is_nan a
      then greater
      else if q.is_nan b
      then less
      else if q.is_inf a && q.is_inf b
      then (if q.is_positive a && q.is_positive b
          then same
          else if q.is_negative a && q.is_negative b
          then same
          else if q.is_positive a
          then greater
          else less)
      else if q.is_tiny diff
      then same
      else if q.is_negative diff
      then less
      else greater

  unfoldable pub compare_decimal : q.Text → q.Text → Sign
  compare_decimal a b = elim (q.parse_double a) [
    | none ↦ q.compare_text a b
    | some x ↦ elim (q.parse_double b) [
      | none ↦ q.compare_text a b
      | some y ↦ three_way q.double_lt x y
    ]
  ]

  -- The dispatch of compare on two keys that are not null.
  unfoldable pub compare_values : KeyType → q.Value → q.Value → Sign
  compare_values integer_key a b = three_way ltb (q.to_long_long a) (q.to_long_long b)
  compare_values float_key a b = compare_float (q.to_double a) (q.to_double b)
  compare_values decimal_key a b = compare_decimal (q.to_text a) (q.to_text b)
  compare_values char_key a b = q.compare_text (q.trimmed (q.to_text a)) (q.trimmed (q.to_text b))
  compare_values string_key a b = q.compare_text (q.to_text a) (q.to_text b)
  compare_values binary_key a b = compare_bytes (q.to_bytes a) (q.to_bytes b)
  compare_values date_key a b = three_way q.date_lt (q.to_date a) (q.to_date b)
  compare_values time_key a b = three_way q.time_lt (q.to_time a) (q.to_time b)
  compare_values datetime_key a b = three_way q.datetime_lt (q.to_datetime a) (q.to_datetime b)
  compare_values boolean_key a b = three_way bool_lt (q.to_bool a) (q.to_bool b)
  compare_values uuid_key a b =
      q.compare_text_caseless (q.without_format (q.to_text a)) (q.without_format (q.to_text b))
  compare_values other_key a b = same

  -- compare: a null key is below every other.
  unfoldable pub compare_keys : KeyType → q.Value → q.Value → Sign
  compare_keys type a b =
      let result = compare_values type a b in
      if q.is_null a && q.is_null b
      then same
      else if q.is_null a
      then less
      else if q.is_null b
      then greater
      else result
