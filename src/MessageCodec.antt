-- ===== src/MessageCodec.antt =====
-- include/qindb/message_codec.h, include/qindb/protocol.h and src/network/message_codec.cpp: the
-- messages between client and server as bytes.
--
-- Numbers, strings and streams are those of `MessageCodec.Wire`. Signed numbers and doubles are their
-- bit patterns. A payload is written from left to right; an encoder returns its bytes. A size is
-- written modulo 2 ^ 32, as the cast to uint32_t does.
pub mod Wire
pub mod Streams
pub mod Messages
pub mod Values
pub mod Rows
use qin_db.Shared.{
  ℕ, zero, suc, ◌+◌, ◌-◌, ◌*◌, ◌/◌, ◌%◌, ◌^◌, Bool, true, false, not, ◌&&◌, ◌||◌, Option, none,
  some, List, [], ◌∷◌, ◌++◌, ltb, leb, ◌==◌, if◌then◌else◌, length,
}
use qin_db.Page.LittleEndian.{Bytes}
use Wire.{Qt, Stream, stream_of, read_number, read_raw}

abbrev pub u32_mod : ℕ
u32_mod = 2 ^ 32

-- An int is negative if its pattern is at least this.
abbrev pub int_max : ℕ
int_max = 2 ^ 31

-- MessageType
abbrev pub auth_request : ℕ
auth_request = 0x01

abbrev pub auth_response : ℕ
auth_response = 0x02

abbrev pub query_request : ℕ
query_request = 0x10

abbrev pub query_response : ℕ
query_response = 0x11

abbrev pub database_switch : ℕ
database_switch = 0x12

abbrev pub error_response : ℕ
error_response = 0x20

-- The enumerators of DataType that decodeVariant tests.
abbrev pub smallint : ℕ
smallint = 1

abbrev pub int_type : ℕ
int_type = 3

abbrev pub bigint : ℕ
bigint = 5

abbrev pub float_type : ℕ
float_type = 8

abbrev pub double_type : ℕ
double_type = 10

abbrev pub bool_type : ℕ
bool_type = 45

pub record AuthRequest (T : Type 0) : Type 0 where
  pub protocol_version : ℕ
  pub username : T
  pub password : T
  pub database : T

pub record AuthResponse (T : Type 0) : Type 0 where
  pub status : ℕ
  pub session_id : ℕ
  pub message : T

pub record QueryRequest (T : Type 0) : Type 0 where
  pub session_id : ℕ
  pub sql : T

pub record ErrorResponse (T : Type 0) : Type 0 where
  pub error_code : ℕ
  pub message : T
  pub detail : T

pub record ColumnInfo (T : Type 0) : Type 0 where
  pub name : T
  pub column_type : ℕ

-- QVariant, as far as encodeVariant tells its types apart; `other` is a value of another type, with
-- what its toString gives.
pub data Variant (T : Type 0) : Type 0 where
  null : Variant T
  int_value : ℕ → Variant T
  long_value : ℕ → Variant T
  double_value : ℕ → Variant T
  text_value : T → Variant T
  bool_value : Bool → Variant T
  other : T → Variant T

pub record QueryResponse (T : Type 0) : Type 0 where
  pub status : ℕ
  pub result_type : ℕ
  pub rows_affected : ℕ
  pub columns : List (ColumnInfo T)
  pub rows : List (List (Variant T))
  pub current_database : T

abbrev pub is_empty : Bytes → Bool
is_empty [] = true
is_empty (b ∷ bs) = false

-- The end of every decoder: nothing is returned if the status is not Ok.
abbrev pub checked : {A : Type 0} → Stream → A → Option A
checked s a = if s.ok then some a else none

module _ (q : Qt) where
  unfoldable pub encode_message : ℕ → Bytes → Bytes
  encode_message type payload =
      q.put 4 ((1 + length payload) % u32_mod) ++ (q.put 1 type ++ payload)

  -- The sum of four and the length is a uint32_t, cast to int; so is the payload's size.
  unfoldable pub decode_message : Bytes → Option (ℕ × Bytes)
  decode_message bytes =
      let (s, message_length) = read_number q 4 (stream_of bytes) in
      let needed = (4 + message_length) % u32_mod in
      let (s', type) = read_number q 1 s in
      let size = (message_length + u32_mod - 1) % u32_mod in
      if ltb (length bytes) 5
      then none
      else if ltb needed int_max && ltb (length bytes) needed
      then none
      else if ltb 0 size && ltb size int_max
      then some (type, (read_raw q size s').1)
      else some (type, [])

  unfoldable pub encode_string : q.Text → Bytes
  encode_string t = q.put 4 (length (q.to_utf8 t) % u32_mod) ++ q.to_utf8 t

  unfoldable pub decode_string : Stream → Stream × q.Text
  decode_string s =
      let (s', size) = read_number q 4 s in
      let (s'', bytes) = read_raw q size s' in
      if size == 0 then (s', q.empty) else (s'', q.from_utf8 bytes)

  unfoldable pub encode_auth_request : AuthRequest q.Text → Bytes
  encode_auth_request r = encode_message auth_request (
      q.put 2 r.protocol_version
      ++ (encode_string r.username ++ (encode_string r.password ++ encode_string r.database)))

  unfoldable pub decode_auth_request : Bytes → Option (AuthRequest q.Text)
  decode_auth_request payload =
      let (s1, version) = read_number q 2 (stream_of payload) in
      let (s2, user) = decode_string s1 in
      let (s3, pass) = decode_string s2 in
      let (s4, db) = decode_string s3 in
      if is_empty payload
      then none
      else checked s4
          (record { protocol_version = version; username = user; password = pass; database = db })

  unfoldable pub encode_auth_response : AuthResponse q.Text → Bytes
  encode_auth_response r =
      encode_message auth_response
        (q.put 1 r.status ++ (q.put 8 r.session_id ++ encode_string r.message))

  unfoldable pub decode_auth_response : Bytes → Option (AuthResponse q.Text)
  decode_auth_response payload =
      let (s1, status) = read_number q 1 (stream_of payload) in
      let (s2, session) = read_number q 8 s1 in
      let (s3, text) = decode_string s2 in
      if is_empty payload
      then none
      else checked s3 (record { status = status; session_id = session; message = text })

  unfoldable pub encode_query_request : QueryRequest q.Text → Bytes
  encode_query_request r =
      encode_message query_request (q.put 8 r.session_id ++ encode_string r.sql)

  unfoldable pub decode_query_request : Bytes → Option (QueryRequest q.Text)
  decode_query_request payload =
      let (s1, session) = read_number q 8 (stream_of payload) in
      let (s2, text) = decode_string s1 in
      if is_empty payload then none else checked s2 (record { session_id = session; sql = text })

  unfoldable pub encode_database_switch : q.Text → Bytes
  encode_database_switch name = encode_message database_switch (encode_string name)

  unfoldable pub decode_database_switch : Bytes → Option q.Text
  decode_database_switch payload =
      let (s1, name) = decode_string (stream_of payload) in
      if is_empty payload then none else checked s1 name

  unfoldable pub encode_error_response : ErrorResponse q.Text → Bytes
  encode_error_response r =
      encode_message error_response
        (q.put 4 r.error_code ++ (encode_string r.message ++ encode_string r.detail))

  unfoldable pub decode_error_response : Bytes → Option (ErrorResponse q.Text)
  decode_error_response payload =
      let (s1, error) = read_number q 4 (stream_of payload) in
      let (s2, text) = decode_string s1 in
      let (s3, more) = decode_string s2 in
      if is_empty payload
      then none
      else checked s3 (record { error_code = error; message = text; detail = more })

  -- encodeVariant, the size before the bytes. A null value is not given to it.
  unfoldable pub variant_bytes : Variant q.Text → Bytes
  variant_bytes null = encode_string q.empty
  variant_bytes (int_value v) = q.put 4 v
  variant_bytes (long_value v) = q.put 8 v
  variant_bytes (double_value v) = q.put 8 v
  variant_bytes (text_value t) = encode_string t
  variant_bytes (bool_value b) = q.put 1 (if b then 1 else 0)
  variant_bytes (other t) = encode_string t

  unfoldable pub encode_variant : Variant q.Text → Bytes
  encode_variant v = q.put 4 (length (variant_bytes v) % u32_mod) ++ variant_bytes v

  -- The choice of decodeVariant, on the bytes of the value; the status of its stream is not looked at.
  unfoldable pub decode_typed : ℕ → Bytes → Variant q.Text
  decode_typed type bytes =
      if type == int_type || (type == bigint || type == smallint)
      then int_value (read_number q 4 (stream_of bytes)).1
      else if type == double_type || type == float_type
      then double_value (read_number q 8 (stream_of bytes)).1
      else if type == bool_type
      then bool_value (not ((read_number q 1 (stream_of bytes)).1 == 0))
      else text_value (decode_string (stream_of bytes)).1

  unfoldable pub decode_variant : ℕ → Stream → Stream × Variant q.Text
  decode_variant type s =
      let (s', size) = read_number q 4 s in
      let (s'', bytes) = read_raw q size s' in
      if size == 0 then (s', null) else (s'', decode_typed type bytes)

  -- One value of a row of a query response: the null flag, and the value if there is one.
  unfoldable pub encode_cell : Variant q.Text → Bytes
  encode_cell null = q.put 1 1
  encode_cell v = q.put 1 0 ++ encode_variant v

  unfoldable pub decode_cell : ℕ → Stream → Stream × Variant q.Text
  decode_cell type s =
      let (s', flag) = read_number q 1 s in if flag == 0 then decode_variant type s' else (s', null)

  unfoldable pub encode_row : List (Variant q.Text) → Bytes
  encode_row [] = []
  encode_row (v ∷ vs) = encode_cell v ++ encode_row vs

  unfoldable pub encode_rows : List (List (Variant q.Text)) → Bytes
  encode_rows [] = []
  encode_rows (r ∷ rs) = encode_row r ++ encode_rows rs

  unfoldable pub encode_columns : List (ColumnInfo q.Text) → Bytes
  encode_columns [] = []
  encode_columns (c ∷ cs) = encode_string c.name ++ (q.put 1 c.column_type ++ encode_columns cs)

  unfoldable pub query_response_payload : QueryResponse q.Text → Bytes
  query_response_payload r =
      q.put 1 r.status
      ++ (q.put 1 r.result_type
          ++ (q.put 8 r.rows_affected
              ++ (q.put 4 (length r.columns % u32_mod)
                  ++ (q.put 4 (length r.rows % u32_mod)
                      ++ (encode_columns r.columns
                          ++ (encode_rows r.rows ++ encode_string r.current_database))))))

  unfoldable pub encode_query_response : QueryResponse q.Text → Bytes
  encode_query_response r = encode_message query_response (query_response_payload r)

  -- The loops of decodeQueryResponse. The columns that were read give the types of a row's values.
  unfoldable pub decode_columns : ℕ → Stream → Stream × List (ColumnInfo q.Text)
  decode_columns zero s = (s, [])
  decode_columns (suc n) s =
      let (s1, name) = decode_string s in
      let (s2, type) = read_number q 1 s1 in
      let (s3, cs) = decode_columns n s2 in (s3, record { name = name; column_type = type } ∷ cs)

  unfoldable pub decode_row : List (ColumnInfo q.Text) → Stream → Stream × List (Variant q.Text)
  decode_row [] s = (s, [])
  decode_row (c ∷ cs) s =
      let (s1, v) = decode_cell c.column_type s in let (s2, vs) = decode_row cs s1 in (s2, v ∷ vs)

  unfoldable pub decode_rows :
      List (ColumnInfo q.Text) → ℕ → Stream → Stream × List (List (Variant q.Text))
  decode_rows cs zero s = (s, [])
  decode_rows cs (suc n) s =
      let (s1, r) = decode_row cs s in let (s2, rs) = decode_rows cs n s1 in (s2, r ∷ rs)

  unfoldable pub decode_query_response : Bytes → Option (QueryResponse q.Text)
  decode_query_response payload =
      let (s1, status) = read_number q 1 (stream_of payload) in
      let (s2, result) = read_number q 1 s1 in
      let (s3, affected) = read_number q 8 s2 in
      let (s4, columns) = read_number q 4 s3 in
      let (s5, rows) = read_number q 4 s4 in
      let (s6, cs) = decode_columns columns s5 in
      let (s7, rs) = decode_rows cs rows s6 in
      let (s8, db) = decode_string s7 in
      if is_empty payload
      then none
      else checked s8 (record {
        status = status;
        result_type = result;
        rows_affected = affected;
        columns = cs;
        rows = rs;
        current_database = db;
      })
