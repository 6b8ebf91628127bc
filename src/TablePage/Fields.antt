-- ===== src/TablePage/Fields.antt =====
-- serializeField and deserializeField of src/storage/table_page.cpp, over what they use of Qt.
use qin_db.Shared.{
  ℕ, ◌^◌, ◌<◌, ◌≡◌, Bool, true, false, Option, none, some, ◌++◌, length, ltb, ◌==◌, if◌then◌else◌,
}
use qin_db.Page.LittleEndian.{Bytes}
use qin_db.TablePage.{is_empty}

-- The members of DataType that the two functions know, and one for the others.
pub data ColumnType : Type 0 where
  int_column : ColumnType
  bigint_column : ColumnType
  float_column : ColumnType
  double_column : ColumnType
  boolean_column : ColumnType
  char_column : ColumnType
  varchar_column : ColumnType
  text_column : ColumnType
  date_column : ColumnType
  time_column : ColumnType
  datetime_column : ColumnType
  decimal_column : ColumnType
  blob_column : ColumnType
  other_column : ColumnType

-- The fields of ColumnDef that are used here.
pub record ColumnDef : Type 0 where
  pub type : ColumnType
  pub length : ℕ

-- QVariant with its conversions, QString, and QDataStream in little-endian order. Numbers are bit
-- patterns; reading gives the value and the bytes left, or nothing if the status is no longer Ok.
pub record Variants : Type 1 where
  pub Value : Type 0
  pub Text : Type 0
  pub null : Value
  pub is_null : Value → Bool
  pub to_int : Value → ℕ
  pub to_long : Value → ℕ
  pub to_float : Value → ℕ
  pub to_double : Value → ℕ
  pub to_bool : Value → Bool
  pub to_text : Value → Text
  pub to_blob : Value → Bytes
  pub of_int : ℕ → Value
  pub of_long : ℕ → Value
  pub of_float : ℕ → Value
  pub of_double : ℕ → Value
  pub of_bool : Bool → Value
  pub of_text : Text → Value
  pub of_blob : Bytes → Value
  pub left_justified : ℕ → Text → Text
  pub trimmed : Text → Text
  pub put_number : ℕ → ℕ → Bytes
  pub get_number : ℕ → Bytes → Option (ℕ × Bytes)
  pub put_float : ℕ → Bytes
  pub get_float : Bytes → Option (ℕ × Bytes)
  pub put_double : ℕ → Bytes
  pub get_double : Bytes → Option (ℕ × Bytes)
  pub put_text : Text → Bytes
  pub get_text : Bytes → Option (Text × Bytes)
  pub put_blob : Bytes → Bytes
  pub get_blob : Bytes → Option (Bytes × Bytes)

-- What Qt documents: what operator<< writes, operator>> reads back.
pub record VariantLaws (q : Variants) : Type 0 where
  pub to_int_small : (v : q.Value) → q.to_int v < 256 ^ 4
  pub to_long_small : (v : q.Value) → q.to_long v < 256 ^ 8
  pub length-put_number : (n v : ℕ) → length (q.put_number n v) ≡ n
  pub get-put_number :
      (n v : ℕ) (bs : Bytes) → v < 256 ^ n → q.get_number n (q.put_number n v ++ bs) ≡ some (v, bs)
  pub get-put_float : (v : ℕ) (bs : Bytes) → q.get_float (q.put_float v ++ bs) ≡ some (v, bs)
  pub get-put_double : (v : ℕ) (bs : Bytes) → q.get_double (q.put_double v ++ bs) ≡ some (v, bs)
  pub get-put_text : (t : q.Text) (bs : Bytes) → q.get_text (q.put_text t ++ bs) ≡ some (t, bs)
  pub get-put_blob : (t bs : Bytes) → q.get_blob (q.put_blob t ++ bs) ≡ some (t, bs)

module _ (q : Variants) where
  -- The text of a value in a column of type CHAR.
  unfoldable pub padded : ℕ → q.Text → q.Text
  padded n t = if ltb 0 n then q.left_justified n t else t

  -- The switch of serializeField.
  unfoldable pub put_value : ColumnType → ℕ → q.Value → Option Bytes
  put_value int_column n v = some (q.put_number 4 (q.to_int v))
  put_value bigint_column n v = some (q.put_number 8 (q.to_long v))
  put_value float_column n v = some (q.put_float (q.to_float v))
  put_value double_column n v = some (q.put_double (q.to_double v))
  put_value boolean_column n v = some (q.put_number 1 (if q.to_bool v then 1 else 0))
  put_value char_column n v = some (q.put_text (padded n (q.to_text v)))
  put_value varchar_column n v = some (q.put_text (q.to_text v))
  put_value text_column n v = some (q.put_text (q.to_text v))
  put_value date_column n v = some (q.put_text (q.to_text v))
  put_value time_column n v = some (q.put_text (q.to_text v))
  put_value datetime_column n v = some (q.put_text (q.to_text v))
  put_value decimal_column n v = some (q.put_text (q.to_text v))
  put_value blob_column n v = some (q.put_blob (q.to_blob v))
  put_value other_column n v = none

  -- serializeField: whether the value is null, then the value.
  unfoldable pub serialize_field : ColumnDef → q.Value → Option Bytes
  serialize_field c v =
      let flag = q.put_number 1 (if q.is_null v then 1 else 0) in
      if q.is_null v
      then some flag
      else elim (put_value c.type c.length v) [ none ↦ none | some bs ↦ some (flag ++ bs) ]

  -- What a read has given, as a QVariant.
  abbrev pub as_value : {A : Type 0} → (A → q.Value) → Option (A × Bytes) → Option (q.Value × Bytes)
  as_value of none = none
  as_value of (some (a, rest)) = some (of a, rest)

  -- The switch of deserializeField.
  unfoldable pub get_value : ColumnType → Bytes → Option (q.Value × Bytes)
  get_value int_column bs = as_value q.of_int (q.get_number 4 bs)
  get_value bigint_column bs = as_value q.of_long (q.get_number 8 bs)
  get_value float_column bs = as_value q.of_float (q.get_float bs)
  get_value double_column bs = as_value q.of_double (q.get_double bs)
  get_value boolean_column bs =
      as_value (λ n. q.of_bool (if n == 0 then false else true)) (q.get_number 1 bs)
  get_value char_column bs = as_value (λ t. q.of_text (q.trimmed t)) (q.get_text bs)
  get_value varchar_column bs = as_value q.of_text (q.get_text bs)
  get_value text_column bs = as_value q.of_text (q.get_text bs)
  get_value date_column bs = as_value q.of_text (q.get_text bs)
  get_value time_column bs = as_value q.of_text (q.get_text bs)
  get_value datetime_column bs = as_value q.of_text (q.get_text bs)
  get_value decimal_column bs = as_value q.of_text (q.get_text bs)
  get_value blob_column bs = as_value q.of_blob (q.get_blob bs)
  get_value other_column bs = none

  -- deserializeField
  unfoldable pub deserialize_field : ColumnDef → Bytes → Option (q.Value × Bytes)
  deserialize_field c bs = if is_empty bs then none else elim (q.get_number 1 bs) [
    | none ↦ none
    | some (flag, rest) ↦ if flag == 0 then get_value c.type rest else some (q.null, rest)
  ]

  -- What becomes of a value that is not null in a column.
  abbrev pub converted : ColumnType → ℕ → q.Value → q.Value
  converted int_column n v = q.of_int (q.to_int v)
  converted bigint_column n v = q.of_long (q.to_long v)
  converted float_column n v = q.of_float (q.to_float v)
  converted double_column n v = q.of_double (q.to_double v)
  converted boolean_column n v = q.of_bool (q.to_bool v)
  converted char_column n v = q.of_text (q.trimmed (padded n (q.to_text v)))
  converted blob_column n v = q.of_blob (q.to_blob v)
  converted other_column n v = v
  converted type n v = q.of_text (q.to_text v)

  abbrev pub stored_value : ColumnDef → q.Value → q.Value
  stored_value c v = if q.is_null v then q.null else converted c.type c.length v
