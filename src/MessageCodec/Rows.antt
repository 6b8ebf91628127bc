-- ===== src/MessageCodec/Rows.antt =====
-- Query responses in src/network/message_codec.cpp: columns, rows and the whole message.
use qin_db.Shared.{◌+◌, ◌^◌, ◌<◌, List, [], ◌∷◌, length}
use qin_db.MessageCodec.Wire.{Qt}
use qin_db.MessageCodec.Values.{Fits, received}
use qin_db.MessageCodec.{
  u32_mod, int_max, ColumnInfo, Variant, QueryResponse, query_response_payload,
}

module _ (q : Qt) where
  abbrev pub FitColumns : List (ColumnInfo q.Text) → Type 0
  FitColumns [] = Unit {0}
  FitColumns (c ∷ cs) =
      (length (q.to_utf8 c.name) < u32_mod) × (c.column_type < 256) × FitColumns cs

  -- A value for each column, of its type.
  abbrev pub FitRow : List (ColumnInfo q.Text) → List (Variant q.Text) → Type 0
  FitRow [] [] = Unit {0}
  FitRow [] (v ∷ vs) = ⊥
  FitRow (c ∷ cs) [] = ⊥
  FitRow (c ∷ cs) (v ∷ vs) = Fits q c.column_type v × FitRow cs vs

  abbrev pub received_row : List (Variant q.Text) → List (Variant q.Text)
  received_row [] = []
  received_row (v ∷ vs) = received q v ∷ received_row vs

  abbrev pub received_rows : List (List (Variant q.Text)) → List (List (Variant q.Text))
  received_rows [] = []
  received_rows (r ∷ rs) = received_row r ∷ received_rows rs

  abbrev pub FitRows : List (ColumnInfo q.Text) → List (List (Variant q.Text)) → Type 0
  FitRows cs [] = Unit {0}
  FitRows cs (r ∷ rs) = FitRow cs r × FitRows cs rs

  -- A response whose numbers and counts fit their fields and whose rows fit its columns.
  pub record FitResponse (r : QueryResponse q.Text) : Type 0 where
    pub status : r.status < 256
    pub result_type : r.result_type < 256
    pub rows_affected : r.rows_affected < 2 ^ 64
    pub column_count : length r.columns < u32_mod
    pub row_count : length r.rows < u32_mod
    pub columns : FitColumns r.columns
    pub rows : FitRows r.columns r.rows
    pub current_database : length (q.to_utf8 r.current_database) < u32_mod
    pub frame : 5 + length (query_response_payload q r) < int_max
