-- ===== src/Lexer/Scanners.antt =====
-- The loops of src/parser/lexer.cpp that scan a token come to an end, behind where they began.
use qin_db.Shared.{
  ℕ, zero, suc, ◌≤◌, ◌<◌, ◌≡◌, ◌≢◌, refl, true, false, ◌&&◌, ◌||◌, inl, inr, some, [], ◌∷◌, ◌++◌,
  ◌==◌, if◌then◌else◌, arith, Bool-cases,
}
use qin_db.Page.LittleEndian.{Bytes}
use qin_db.Lexer.Keywords.{TokenType}
use qin_db.Lexer.{
  Chars, Cursor, current, peek, advance, string_body, unescape, skip_digits, skip_exponent,
  skip_fraction, scan_number, close_string, scan_string, in_identifier, scan_identifier,
  operator_token, Scanned, Token,
}
use qin_db.Lexer.Skipping.{left, advance-le, advance-lt, Ends, Stops, advance_while-Ends}

-- The loop of scanString ends on every text.
string_body-ends :
    (fuel quote : ℕ) (c : Cursor) (str : Bytes)
    → left c < fuel
    → (d : Cursor) × (s : Bytes) × (string_body fuel quote c str ≡ some (d, s)) × (left d ≤ left c)
unfolding string_body
string_body-ends zero quote c str enough = absurd (omega arith)
string_body-ends (suc fuel) quote c str enough =
    elim (Bool-cases (current c == quote || current c == 0)) [
      | inl stop ↦ rw (string_body, stop) (c, str, refl, omega arith)
      | inr going ↦
          let there : current c ≢ 0 = ground (arith, going) in
          let less = advance-lt c there in
          let le = advance-le (advance c) in
          elim (Bool-cases (current c == b'\\')) [
            | inl escaped ↦
                let (d, s, ends, few) =
                  string_body-ends fuel quote (advance (advance c))
                    (str ++ (unescape (current (advance c)) ∷ [])) (omega (arith, less, le)) in
                rw (string_body, going, escaped) (d, s, ends, omega (arith, few, less, le))
            | inr plain ↦
                let (d, s, ends, few) =
                  string_body-ends fuel quote (advance c) (str ++ (current c ∷ []))
                    (omega (arith, less)) in
                rw (string_body, going, plain) (d, s, ends, omega (arith, few, less))
          ]
    ]

pub operator_token-le :
    (ch : ℕ) (c end : Cursor) (t : TokenType) (lexeme : Bytes)
    → operator_token ch c ≡ some (t, lexeme, end)
    → left end ≤ left c
operator_token-le ch c end t lexeme e = ground (arith, e, advance-le c)

module _ (q : Chars) where
  -- What QChar documents: a letter is a letter or number, and NUL is neither white space nor a digit
  -- nor a letter or number.
  pub record CharLaws : Type 0 where
    pub is_letter-is_letter_or_number :
        (x : ℕ) → q.is_letter x ≡ true → q.is_letter_or_number x ≡ true
    pub is_space_nul : q.is_space 0 ≡ false
    pub is_digit_nul : q.is_digit 0 ≡ false
    pub is_letter_or_number_nul : q.is_letter_or_number 0 ≡ false

module _ (q : Chars) (laws : CharLaws q) where
  digits-Stops : Stops (λ c. q.is_digit (current c))
  digits-Stops d e = rw e laws.is_digit_nul

  skip_digits-Ends : (c : Cursor) → Ends (λ d. q.is_digit (current d)) c (skip_digits q c)
  skip_digits-Ends c = advance_while-Ends (λ d. q.is_digit (current d)) c digits-Stops

  skip_exponent-ends :
      (c : Cursor) → (d : Cursor) × (skip_exponent q c ≡ some d) × (left d ≤ left c)
  unfolding skip_exponent
  skip_exponent-ends c =
      let behind = advance c in
      let signed =
        if current behind == b'+' || current behind == b'-' then advance behind else behind in
      let le : left signed ≤ left c = ground (arith, advance-le c, advance-le behind) in
      elim (Bool-cases (current c == b'e' || current c == b'E')) [
        | inr no_exponent ↦ rw no_exponent (c, refl, omega arith)
        | inl exponent ↦
            let (d, ends, few, stop, moved) = skip_digits-Ends signed in
            rw exponent (d, ends, omega (arith, few, le))
      ]

  skip_fraction-ends :
      (c : Cursor) → (d : Cursor) × (skip_fraction q c ≡ some d) × (left d ≤ left c)
  unfolding skip_fraction
  skip_fraction-ends c =
      let (d, digits, le, stop, moved) = skip_digits-Ends (advance c) in
      let (e, ends, few) = skip_exponent-ends d in
      rw (digits, skip_fraction) (e, ends, omega (arith, advance-le c, le, few))

  -- A number ends, behind its first digit.
  pub scan_number-lt :
      (c : Cursor)
      → q.is_digit (current c) ≡ true
      → (r : Cursor × Token q.Double) × (scan_number q c ≡ some r) × (left r.0 < left c)
  unfolding scan_number
  scan_number-lt c h =
      let (whole, digits, le, stop, moved) = skip_digits-Ends c in
      let (end, fraction, few) = skip_fraction-ends whole in
      elim (Bool-cases (current whole == b'.' && q.is_digit (peek whole))) [
        | inl real ↦ rw (digits, scan_number, real, fraction) (_, refl, omega (arith, few, moved h))
        | inr integer ↦ rw (digits, scan_number, integer) (_, refl, moved h)
      ]

  -- A string ends, behind its opening quote.
  pub scan_string-lt :
      (c : Cursor)
      → current c ≢ 0
      → (r : Scanned q) × (scan_string q c ≡ some r) × (left r.0 < left c)
  unfolding scan_string close_string
  scan_string-lt c there =
      let (end, str, ends, le) =
        string_body-ends (suc (left (advance c))) (current c) (advance c) [] (omega arith) in
      rw (ends, scan_string)
        (
          close_string q c.column end str,
          refl,
          ground (arith, advance-lt c there, le, advance-le end),
        )

  pub scan_identifier-lt :
      (c : Cursor)
      → in_identifier q c ≡ true
      → (r : Cursor × Token q.Double) × (scan_identifier q c ≡ some r) × (left r.0 < left c)
  unfolding scan_identifier
  scan_identifier-lt c h =
      let (d, ends, le, stop, moved) =
        advance_while-Ends (in_identifier q) c
          (λ d e. rw e (ground (arith, laws.is_letter_or_number_nul))) in
      rw (ends, scan_identifier) (_, refl, moved h)
