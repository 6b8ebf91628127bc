-- ===== src/TablePage/Conversions.antt =====
-- A field that serializeField of src/storage/table_page.cpp writes, as deserializeField reads it.
use mathlib.Core.List.{append_assoc}
use qin_db.Shared.{
  length-append, ℕ, ◌^◌, ◌<◌, ◌≡◌, refl, sym, ap, inl, inr, Bool, true, false, Bool-cases,
  Option-cases, some, [], ◌∷◌, ◌++◌, arith, length, ◌==◌, if◌then◌else◌,
}
use qin_db.Page.LittleEndian.{Bytes}
use qin_db.TablePage.{is_empty}
use qin_db.TablePage.Fields.{
  ColumnType, ColumnDef, Variants, VariantLaws, put_value, get_value, as_value, converted,
  stored_value, serialize_field, deserialize_field, padded, int_column, bigint_column, float_column,
  double_column, boolean_column, char_column, varchar_column, text_column, date_column, time_column,
  datetime_column, decimal_column, blob_column, other_column,
}

some_injective : {A : Type 0} (a b : A) → some a ≡ some b → a ≡ b
some_injective a b e = cc

module _ (q : Variants) (laws : VariantLaws q) where
  flag_small : (b : Bool) → (if b then 1 else 0) < 256 ^ 1
  flag_small true = omega arith
  flag_small false = omega arith

  flag_back : (b : Bool) → (if (if b then 1 else 0) == 0 then false else true) ≡ b
  flag_back true = refl
  flag_back false = refl

  get_text-put :
      (v : q.Value) (bs rest : Bytes)
      → some (q.put_text (q.to_text v)) ≡ some bs
      → as_value q q.of_text (q.get_text (bs ++ rest)) ≡ some (q.of_text (q.to_text v), rest)
  get_text-put v bs rest h =
      rw (sym (some_injective _ _ h), laws.get-put_text (q.to_text v) rest) refl

  get-put_value :
      (type : ColumnType) (n : ℕ) (v : q.Value) (bs rest : Bytes)
      → put_value q type n v ≡ some bs
      → get_value q type (bs ++ rest) ≡ some (converted q type n v, rest)
  unfolding put_value get_value
  get-put_value int_column n v bs rest h =
      rw (sym (some_injective _ _ h), laws.get-put_number 4 (q.to_int v) rest (laws.to_int_small v))
        refl
  get-put_value bigint_column n v bs rest h =
      rw
        (
          sym (some_injective _ _ h),
          laws.get-put_number 8 (q.to_long v) rest (laws.to_long_small v),
        )
        refl
  get-put_value float_column n v bs rest h =
      rw (sym (some_injective _ _ h), laws.get-put_float (q.to_float v) rest) refl
  get-put_value double_column n v bs rest h =
      rw (sym (some_injective _ _ h), laws.get-put_double (q.to_double v) rest) refl
  get-put_value boolean_column n v bs rest h =
      rw
        (
          sym (some_injective _ _ h),
          laws.get-put_number 1 (if q.to_bool v then 1 else 0) rest (flag_small (q.to_bool v)),
        )
        (ap (λ b. some (q.of_bool b, rest)) (flag_back (q.to_bool v)))
  get-put_value char_column n v bs rest h =
      rw (sym (some_injective _ _ h), laws.get-put_text (padded q n (q.to_text v)) rest) refl
  get-put_value varchar_column n v bs rest h = get_text-put v bs rest h
  get-put_value text_column n v bs rest h = get_text-put v bs rest h
  get-put_value date_column n v bs rest h = get_text-put v bs rest h
  get-put_value time_column n v bs rest h = get_text-put v bs rest h
  get-put_value datetime_column n v bs rest h = get_text-put v bs rest h
  get-put_value decimal_column n v bs rest h = get_text-put v bs rest h
  get-put_value blob_column n v bs rest h =
      rw (sym (some_injective _ _ h), laws.get-put_blob (q.to_blob v) rest) refl
  get-put_value other_column n v bs rest h = cc

  not_empty : (bs : Bytes) → 0 < length bs → is_empty bs ≡ false
  not_empty [] h = absurd (omega arith)
  not_empty (b ∷ bs) h = refl

  pub deserialize-serialize_field :
      (c : ColumnDef) (v : q.Value) (bs rest : Bytes)
      → serialize_field q c v ≡ some bs
      → deserialize_field q c (bs ++ rest) ≡ some (stored_value q c v, rest)
  unfolding serialize_field deserialize_field
  deserialize-serialize_field c v bs rest h =
      let flag = q.put_number 1 (if q.is_null v then 1 else 0) in
      let flag_read = λ (more : Bytes).
        laws.get-put_number 1 (if q.is_null v then 1 else 0) more (flag_small (q.is_null v)) in
      let wide = λ (more : Bytes). not_empty (flag ++ more) (
        omega (
          arith,
          length-append flag more,
          laws.length-put_number 1 (if q.is_null v then 1 else 0),
        )) in
      elim (Bool-cases (q.is_null v)) [
        | inl null ↦
            let whole : flag ≡ bs = ground (arith, null, h) in
            rw (sym whole, wide rest, flag_read rest, null) refl
        | inr there ↦ elim (Option-cases (put_value q c.type c.length v)) [
          | inl unknown ↦ ground (arith, there, unknown, h)
          | inr (written, e) ↦
              let whole : flag ++ written ≡ bs = ground (arith, there, e, h) in
              rw
                (
                  sym whole,
                  append_assoc flag written rest,
                  wide (written ++ rest),
                  flag_read (written ++ rest),
                  there,
                )
                (get-put_value c.type c.length v written rest e)
        ]
      ]
