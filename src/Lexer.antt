-- ===== src/Lexer.antt =====
-- include/qindb/lexer.h and src/parser/lexer.cpp: the tokens of SQL text.
--
-- The source is a QString, a list of UTF-16 code units here; the state keeps what is not yet read of
-- it in place of the position. `Chars` is what the lexer uses of QChar and QString. The functions
-- current and peek answer 0 past the end, as for a NUL in the text; advance stays at the end. A loop
-- that advances has more fuel than there are characters, and running out of it is `none`, the loop that
-- does not end.
pub mod Keywords
pub mod Cursors
pub mod Scanners
pub mod Progress
pub mod Strings
pub mod Skipping
use qin_db.Shared.{
  ℕ, zero, suc, ◌+◌, ◌-◌, Bool, true, false, not, ◌&&◌, ◌||◌, Option, none, some, List, [], ◌∷◌,
  ◌++◌, ◌==◌, if◌then◌else◌, length, take,
}
use qin_db.Page.LittleEndian.{Bytes}
use qin_db.HashBucketPage.{same_key}
use Keywords.{
  TokenType, integer_literal, float_literal, string_literal, identifier, eof_token, invalid_token,
  plus_token, minus_token, star_token, slash_token, percent_token, eq_token, ne_token, lt_token,
  le_token, gt_token, ge_token, assign_token, lparen_token, rparen_token, comma_token,
  semicolon_token, dot_token, keyword_map,
}
pub use Cursors.{Cursor}
unfoldable pub use Cursors.{
  current, peek, advance, advance_while_for, advance_while, between, starts_line_comment,
  starts_block_comment, ends_block_comment, in_line_comment, in_block_comment, skip_comment,
}

pub record Chars : Type 1 where
  pub Double : Type 0
  pub is_digit : ℕ → Bool
  pub is_letter : ℕ → Bool
  pub is_letter_or_number : ℕ → Bool
  pub is_space : ℕ → Bool
  pub to_lower : Bytes → Bytes
  pub to_double : Bytes → Double
  pub to_long_long : Bytes → ℕ

pub data TokenValue (D : Type 0) : Type 0 where
  no_value : TokenValue D
  long_value : ℕ → TokenValue D
  double_value : D → TokenValue D
  text_value : Bytes → TokenValue D

pub record Token (D : Type 0) : Type 0 where
  pub type : TokenType
  pub lexeme : Bytes
  pub value : TokenValue D
  pub line : ℕ
  pub column : ℕ

-- The messages of the syntax errors.
pub data LexError : Type 0 where
  unterminated_string : LexError
  unexpected_character : ℕ → LexError

-- What the backslash makes of the character behind it.
abbrev pub unescape : ℕ → ℕ
unescape x =
    if x == b'n' then b'\n' else if x == b't' then b'\t' else if x == b'r' then b'\r' else x

-- The loop of scanString, with what it has read.
unfoldable pub string_body : ℕ → ℕ → Cursor → Bytes → Option (Cursor × Bytes)
string_body zero quote c str = none
string_body (suc fuel) quote c str =
    let escaped = advance c in
    let after_escape =
      string_body fuel quote (advance escaped) (str ++ (unescape (current escaped) ∷ [])) in
    let after_plain = string_body fuel quote (advance c) (str ++ (current c ∷ [])) in
    if current c == quote || current c == 0
    then some (c, str)
    else if current c == b'\\'
    then after_escape
    else after_plain

abbrev find_keyword : Bytes → List (Bytes × TokenType) → Option TokenType
find_keyword word [] = none
find_keyword word ((w, t) ∷ rest) =
    let deeper = find_keyword word rest in if same_key w word then some t else deeper

-- The operators and delimiters, where `c` is behind the character `ch`.
abbrev pub operator_token : ℕ → Cursor → Option (TokenType × Bytes × Cursor)
operator_token ch c =
    let one : TokenType → Option (TokenType × Bytes × Cursor) = λ t. some (t, ch ∷ [], c) in
    let two : TokenType → Option (TokenType × Bytes × Cursor) =
      λ t. some (t, ch ∷ current c ∷ [], advance c) in
    if ch == b'+'
    then one plus_token
    else if ch == b'-'
    then one minus_token
    else if ch == b'*'
    then one star_token
    else if ch == b'/'
    then one slash_token
    else if ch == b'%'
    then one percent_token
    else if ch == b'('
    then one lparen_token
    else if ch == b')'
    then one rparen_token
    else if ch == b','
    then one comma_token
    else if ch == b';'
    then one semicolon_token
    else if ch == b'.'
    then one dot_token
    else if ch == b'='
    then one eq_token
    else if ch == b'<'
    then (if current c == b'='
        then two le_token
        else if current c == b'>'
        then two ne_token
        else one lt_token)
    else if ch == b'>'
    then (if current c == b'=' then two ge_token else one gt_token)
    else if ch == b'!' && current c == b'='
    then two ne_token
    else if ch == b':' && current c == b'='
    then two assign_token
    else none

module _ (q : Chars) where
  unfoldable pub skip_whitespace : Cursor → Option Cursor
  skip_whitespace = advance_while (λ c. q.is_space (current c))

  -- The loop of nextToken over comments and the white space behind them.
  unfoldable pub skip_comments : ℕ → Cursor → Option Cursor
  skip_comments zero c = none
  skip_comments (suc fuel) c =
      let rest : Option Cursor = elim (skip_comment c) [
        | none ↦ none
        | some d ↦ elim (skip_whitespace d) [ none ↦ none | some e ↦ skip_comments fuel e ]
      ] in
      if starts_line_comment c || starts_block_comment c then rest else some c

  -- Both loops of nextToken, in front of a token.
  unfoldable pub skip_blank : Cursor → Option Cursor
  skip_blank c = elim (skip_whitespace c) [
    | none ↦ none
    | some d ↦ skip_comments (suc (length d.rest)) d
  ]

  -- makeToken, with a column and a value of its own.
  abbrev make_token : TokenType → Bytes → TokenValue q.Double → Cursor → ℕ → Token q.Double
  make_token type lexeme value c column = record {
    type = type;
    lexeme = lexeme;
    value = value;
    line = c.line;
    column = column;
  }

  abbrev pub skip_digits : Cursor → Option Cursor
  skip_digits = advance_while (λ c. q.is_digit (current c))

  -- The exponent of a number.
  unfoldable pub skip_exponent : Cursor → Option Cursor
  skip_exponent c =
      let behind = advance c in
      let signed =
        if current behind == b'+' || current behind == b'-' then advance behind else behind in
      if current c == b'e' || current c == b'E' then skip_digits signed else some c

  -- The point of a number, and what follows it.
  unfoldable pub skip_fraction : Cursor → Option Cursor
  skip_fraction c = elim (skip_digits (advance c)) [ none ↦ none | some d ↦ skip_exponent d ]

  abbrev pub float_token : Cursor → Cursor → Token q.Double
  float_token c end =
      make_token float_literal (between c end) (double_value (q.to_double (between c end))) end
        c.column

  abbrev pub integer_token : Cursor → Cursor → Token q.Double
  integer_token c end =
      make_token integer_literal (between c end) (long_value (q.to_long_long (between c end))) end
        c.column

  unfoldable pub scan_number : Cursor → Option (Cursor × Token q.Double)
  scan_number c = elim (skip_digits c) [
    | none ↦ none
    | some whole ↦
        let real : Option (Cursor × Token q.Double) = elim (skip_fraction whole) [
          | none ↦ none
          | some end ↦ some (end, float_token c end)
        ] in
        if current whole == b'.' && q.is_digit (peek whole)
        then real
        else some (whole, integer_token c whole)
  ]

  abbrev pub Scanned : Type 0
  Scanned = Cursor × Token q.Double × Option LexError

  -- scanString behind its loop.
  unfoldable pub close_string : ℕ → Cursor → Bytes → Scanned
  close_string column end str =
      let closed = advance end in
      if current end == 0
      then (end, make_token invalid_token str no_value end end.column, some unterminated_string)
      else (closed, make_token string_literal str (text_value str) closed column, none)

  unfoldable pub scan_string : Cursor → Option Scanned
  scan_string c = elim (string_body (suc (length (advance c).rest)) (current c) (advance c) []) [
    | none ↦ none
    | some (end, str) ↦ some (close_string c.column end str)
  ]

  unfoldable pub identifier_type : Bytes → TokenType
  identifier_type word = elim (find_keyword (q.to_lower word) keyword_map) [
    | none ↦ identifier
    | some t ↦ t
  ]

  abbrev pub in_identifier : Cursor → Bool
  in_identifier c = q.is_letter_or_number (current c) || current c == b'_'

  unfoldable pub scan_identifier : Cursor → Option (Cursor × Token q.Double)
  scan_identifier c = elim (advance_while in_identifier c) [
    | none ↦ none
    | some end ↦
        some
          (end, make_token (identifier_type (between c end)) (between c end) no_value end c.column)
  ]

  -- A token without an error.
  abbrev pub sound : Option (Cursor × Token q.Double) → Option Scanned
  sound none = none
  sound (some (c, t)) = some (c, t, none)

  -- nextToken behind white space and comments.
  unfoldable pub scan_token : Cursor → Option Scanned
  scan_token c =
      let ch = current c in
      let behind = advance c in
      if ch == 0
      then some (c, make_token eof_token [] no_value c c.column, none)
      else if q.is_digit ch
      then sound (scan_number c)
      else if ch == b'\'' || ch == b'"'
      then scan_string c
      else if q.is_letter ch || ch == b'_'
      then sound (scan_identifier c)
      else elim (operator_token ch behind) [
        | some (type, lexeme, end) ↦
            some (end, make_token type lexeme no_value end end.column, none)
        | none ↦ some (
          behind,
          make_token invalid_token (ch ∷ []) no_value behind behind.column,
          some (unexpected_character ch),
        )
      ]

  pub record Lexer : Type 0 where
    pub cursor : Cursor
    pub error : Option LexError
    pub peeked : Option (Token q.Double)

  abbrev pub start : Bytes → Lexer
  start source = record {
    cursor = record { rest = source; line = 1; column = 1 };
    error = none;
    peeked = none;
  }

  unfoldable pub scanned : Lexer → Scanned → Lexer × Token q.Double
  scanned l (c, t, failed) =
      (record l { cursor = c; error = elim failed [ none ↦ l.error | some e ↦ some e ] }, t)

  unfoldable pub next_token : Lexer → Option (Lexer × Token q.Double)
  next_token l = elim l.peeked [
    | some t ↦ some (record l { peeked = none }, t)
    | none ↦ elim (skip_blank l.cursor) [
      | none ↦ none
      | some c ↦ elim (scan_token c) [ none ↦ none | some r ↦ some (scanned l r) ]
    ]
  ]

  unfoldable pub peek_token : Lexer → Option (Lexer × Token q.Double)
  peek_token l = elim l.peeked [
    | some t ↦ some (l, t)
    | none ↦ elim (next_token l) [
      | none ↦ none
      | some (l', t) ↦ some (record l' { peeked = some t }, t)
    ]
  ]

  unfoldable pub has_more : Lexer → Bool
  has_more l = elim l.cursor.rest [ [] ↦ false | x ∷ xs ↦ true ]
