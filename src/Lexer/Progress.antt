-- ===== src/Lexer/Progress.antt =====
-- The lexer of src/parser/lexer.cpp comes to the end of every text.
use qin_db.Shared.{
  ℕ, zero, suc, ◌≤◌, ◌<◌, ◌≡◌, ◌≢◌, refl, sym, ap, ◌∙◌, Bool, true, false, ◌||◌, ◌⊎◌, inl, inr,
  Option, none, some, List, [], ◌∷◌, ◌==◌, if◌then◌else◌, length, arith, Bool-cases, Option-cases,
}
use qin_db.Page.LittleEndian.{Bytes}
use qin_db.Lexer.Keywords.{TokenType, eof_token}
use qin_db.Lexer.{
  Chars, Cursor, current, advance, scan_number, scan_identifier, operator_token, sound, scan_token,
  Scanned, scanned, Lexer, start, next_token, peek_token, Token,
}
use qin_db.Lexer.Skipping.{left, advance-lt, skip_blank-AtToken}
use qin_db.Lexer.Scanners.{
  CharLaws, operator_token-le, scan_number-lt, scan_string-lt, scan_identifier-lt,
}

abbrev pub is_eof : TokenType → Bool
is_eof eof_token = true
is_eof t = false

module _ (q : Chars) where
  -- Tokens up to the end of the text, if there are fewer than the bound and each is scanned.
  abbrev pub all_tokens : ℕ → Lexer q → Option (List (Token q.Double))
  all_tokens zero l = none
  all_tokens (suc fuel) l = elim (next_token q l) [
    | none ↦ none
    | some (l', t) ↦
        let rest = all_tokens fuel l' in
        if is_eof t.type then some [] else elim rest [ none ↦ none | some ts ↦ some (t ∷ ts) ]
  ]

module _ (q : Chars) (laws : CharLaws q) where
  -- A token is scanned, and it is the end of the text, or fewer characters are left.
  abbrev Progress : Cursor → Option (Scanned q) → Type 0
  Progress c s = (r : Scanned q) × (s ≡ some r) × ((is_eof r.1.type ≡ true) ⊎ (left r.0 < left c))

  sound-Progress :
      (c : Cursor) (s : Option (Cursor × Token q.Double))
      → (r : Cursor × Token q.Double) × (s ≡ some r) × (left r.0 < left c)
      → Progress c (sound q s)
  sound-Progress c s ((d, t), e, less) = rw e ((d, t, none), refl, inr less)

  scan_token-Progress : (c : Cursor) → Progress c (scan_token q c)
  unfolding scan_token
  scan_token-Progress c = elim (Bool-cases (current c == 0)) [
    | inl end ↦ rw end (_, refl, inl refl)
    | inr more ↦
        let there : current c ≢ 0 = ground arith in
        elim (Bool-cases (q.is_digit (current c))) [
          | inl digit ↦
              rw (more, digit) (sound-Progress c (scan_number q c) (scan_number-lt q laws c digit))
          | inr no_digit ↦ elim (Bool-cases (current c == b'\'' || current c == b'"')) [
            | inl quote ↦
                let (r, ends, less) = scan_string-lt q laws c there in
                rw (more, no_digit, quote) (r, ends, inr less)
            | inr no_quote ↦ elim (Bool-cases (q.is_letter (current c) || current c == b'_')) [
              | inl word ↦
                  rw (more, no_digit, no_quote, word)
                    (sound-Progress c (scan_identifier q c) (
                      scan_identifier-lt q laws c
                        (ground (arith, laws.is_letter-is_letter_or_number (current c)))))
              | inr no_word ↦ elim (Option-cases (operator_token (current c) (advance c))) [
                | inl unknown ↦
                    rw (more, no_digit, no_quote, no_word, unknown)
                      (_, refl, inr (advance-lt c there))
                | inr ((t, lexeme, end), found) ↦
                    rw (more, no_digit, no_quote, no_word, found)
                      (
                        _,
                        refl,
                        inr (
                            omega (
                              arith,
                              advance-lt c there,
                              operator_token-le (current c) (advance c) end t lexeme found,
                            )),
                      )
              ]
            ]
          ]
        ]
  ]

  next_token-Progress :
      (l : Lexer q)
      → l.peeked ≡ none
      → (r : Lexer q × Token q.Double) × (next_token q l ≡ some r)
        × ((is_eof r.1.type ≡ true) ⊎ (left r.0.cursor < left l.cursor))
        × (r.0.peeked ≡ none)
  unfolding next_token scanned
  next_token-Progress l fresh =
      let (d, skipped, le, at) = skip_blank-AtToken q laws.is_space_nul l.cursor in
      let ((c, t, failed), found, step) = scan_token-Progress d in
      rw (fresh, next_token, skipped, found)
        (
          scanned q l (c, t, failed),
          refl,
          elim step [ inl end ↦ inl end | inr less ↦ inr (omega (arith, le, less)) ],
          fresh,
        )

  all_tokens-ends :
      (fuel : ℕ) (l : Lexer q)
      → l.peeked ≡ none
      → left l.cursor < fuel
      → (ts : List (Token q.Double)) × (all_tokens q fuel l ≡ some ts) × (length ts ≤ left l.cursor)
  all_tokens-ends zero l fresh enough = absurd (omega arith)
  all_tokens-ends (suc fuel) l fresh enough =
      let ((l', t), found, step, empty) = next_token-Progress l fresh in
      elim (Bool-cases (is_eof t.type)) [
        | inl end ↦ rw (all_tokens, found, end) ([], refl, omega arith)
        | inr more ↦
            let less : left l'.cursor < left l.cursor = elim step [
              | inl end ↦ absurd (ground (arith, end, more))
              | inr less ↦ less
            ] in
            let (ts, rest, few) = all_tokens-ends fuel l' empty (omega (arith, less)) in
            rw (all_tokens, found, more, rest) (t ∷ ts, refl, omega (arith, few, less))
      ]

  -- Taking tokens from the start of any text returns every time, every loop of the lexer included, and
  -- comes to the end-of-file token, after at most as many tokens as the text has characters. A letter
  -- is assumed to be a letter or number, and NUL to be neither white space nor a digit nor a letter or
  -- number.
  pub all_tokens-start :
      (source : Bytes)
      → (ts : List (Token q.Double)) × (all_tokens q (suc (length source)) (start q source)
          ≡ some ts)
        × (length ts ≤ length source)
  all_tokens-start source =
      all_tokens-ends (suc (length source)) (start q source) refl (omega arith)

  peek_token-of :
      (l : Lexer q) (r : Lexer q × Token q.Double)
      → l.peeked ≡ none
      → next_token q l ≡ some r
      → peek_token q l ≡ some (record r.0 { peeked = some r.1 }, r.1)
  unfolding peek_token
  peek_token-of l r fresh found = rw (fresh, peek_token, found) refl

  -- Looking ahead returns, and once or more often it changes neither the next token nor what follows
  -- it.
  pub next_token-peek_token :
      (l : Lexer q)
      → l.peeked ≡ none
      → (ahead : Lexer q) × (t : Token q.Double) × (peek_token q l ≡ some (ahead, t))
        × (next_token q ahead ≡ next_token q l)
        × (peek_token q ahead ≡ some (ahead, t))
  unfolding next_token peek_token
  next_token-peek_token l fresh =
      let (r, found, step, empty) = next_token-Progress l fresh in
      (
        record r.0 { peeked = some r.1 },
        r.1,
        peek_token-of l r fresh found,
        ap (λ p. some (record r.0 { peeked = p }, r.1)) (sym empty) ∙ sym found,
        refl,
      )
