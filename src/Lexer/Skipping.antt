-- ===== src/Lexer/Skipping.antt =====
-- The loops of src/parser/lexer.cpp that skip come to an end, where what they skip is over.
use qin_db.Shared.{
  ℕ, zero, suc, ◌≤◌, ◌<◌, ◌≡◌, ◌≢◌, refl, Bool, true, false, ◌||◌, inl, inr, Option, some, ◌==◌,
  length, if◌then◌else◌, arith, Bool-cases,
}
use qin_db.Lexer.{
  Chars, Cursor, current, advance, advance_while_for, advance_while, starts_line_comment,
  starts_block_comment, in_line_comment, in_block_comment, skip_comment, skip_whitespace,
  skip_comments, skip_blank,
}

abbrev pub left : Cursor → ℕ
left c = length c.rest

pub advance-le : (c : Cursor) → left (advance c) ≤ left c
unfolding advance
advance-le c = ground arith

pub advance-lt : (c : Cursor) → current c ≢ 0 → left (advance c) < left c
unfolding advance current
advance-lt c h = ground arith

-- The test fails where the text is at its end, or at a NUL.
abbrev pub Stops : (Cursor → Bool) → Type 0
Stops test = (d : Cursor) → current d ≡ 0 → test d ≡ false

-- The loop from `c` ends, where its test fails, and has moved on if the test held at the start.
abbrev pub Ends : (Cursor → Bool) → Cursor → Option Cursor → Type 0
Ends test c r =
    (d : Cursor) × (r ≡ some d)
    × (left d ≤ left c)
    × (test d ≡ false)
    × (test c ≡ true → left d < left c)

advance_while_for-Ends :
    (test : Cursor → Bool) (fuel : ℕ) (c : Cursor)
    → Stops test
    → left c < fuel
    → Ends test c (advance_while_for test fuel c)
unfolding advance_while_for
advance_while_for-Ends test zero c over enough = absurd (omega arith)
advance_while_for-Ends test (suc fuel) c over enough = elim (Bool-cases (test c)) [
  | inr stop ↦
      rw (advance_while_for, stop)
        (c, refl, omega arith, stop, λ on. absurd (ground (arith, stop, on)))
  | inl going ↦
      let there : current c ≢ 0 = λ e. absurd (ground (arith, going, over c e)) in
      let less = advance-lt c there in
      let (d, ends, le, stop, moved) =
        advance_while_for-Ends test fuel (advance c) over (omega (arith, less)) in
      rw (advance_while_for, going)
        (d, ends, omega (arith, le, less), stop, λ on. omega (arith, le, less))
]

pub advance_while-Ends :
    (test : Cursor → Bool) (c : Cursor) → Stops test → Ends test c (advance_while test c)
advance_while-Ends test c over = advance_while_for-Ends test (suc (left c)) c over (omega arith)

skip_comment-lt :
    (c : Cursor)
    → (starts_line_comment c || starts_block_comment c) ≡ true
    → (d : Cursor) × (skip_comment c ≡ some d) × (left d < left c)
unfolding skip_comment
skip_comment-lt c h =
    let there : current c ≢ 0 = ground (arith, h) in
    let opened = advance (advance c) in
    elim (Bool-cases (starts_line_comment c)) [
      | inl line ↦
          let (d, ends, le, stop, moved) =
            advance_while-Ends in_line_comment c (λ d e. ground (arith, e)) in
          rw (line) (d, ends, moved (ground (arith, line)))
      | inr no_line ↦
          let block : starts_block_comment c ≡ true = ground (arith, h, no_line) in
          let (d, ends, le, stop, moved) =
            advance_while-Ends in_block_comment opened (λ d e. ground (arith, e)) in
          let less : left d < left c =
            omega (arith, le, advance-lt c there, advance-le (advance c)) in
          rw (no_line, block, ends)
            (
              if current d == b'*' then advance (advance d) else d,
              refl,
              ground (arith, less, advance-le d, advance-le (advance d)),
            )
    ]

module _ (q : Chars) (end : q.is_space 0 ≡ false) where
  -- Neither white space nor a comment begins.
  abbrev pub AtToken : Cursor → Type 0
  AtToken c =
      (q.is_space (current c) ≡ false) × ((starts_line_comment c || starts_block_comment c) ≡ false)

  skip_whitespace-Ends : (c : Cursor) → Ends (λ d. q.is_space (current d)) c (skip_whitespace q c)
  unfolding skip_whitespace
  skip_whitespace-Ends c = advance_while-Ends (λ d. q.is_space (current d)) c (λ d e. rw e end)

  skip_comments-AtToken :
      (fuel : ℕ) (c : Cursor)
      → q.is_space (current c) ≡ false
      → left c < fuel
      → (d : Cursor) × (skip_comments q fuel c ≡ some d) × (left d ≤ left c) × AtToken d
  unfolding skip_comments
  skip_comments-AtToken zero c space enough = absurd (omega arith)
  skip_comments-AtToken (suc fuel) c space enough =
      elim (Bool-cases (starts_line_comment c || starts_block_comment c)) [
        | inr over ↦ rw (skip_comments, over) (c, refl, omega arith, (space, over))
        | inl more ↦
            let (d, commented, less) = skip_comment-lt c more in
            let (e, spaced, le, stop, moved) = skip_whitespace-Ends d in
            let (f, ends, le', at) = skip_comments-AtToken fuel e stop (omega (arith, less, le)) in
            rw (skip_comments, more, commented, spaced) (f, ends, omega (arith, less, le, le'), at)
      ]

  -- If the end of the text is no white space, then the loops of nextToken over white space and comments
  -- end on every text, and where they end neither white space nor a comment begins.
  pub skip_blank-AtToken :
      (c : Cursor) → (d : Cursor) × (skip_blank q c ≡ some d) × (left d ≤ left c) × AtToken d
  unfolding skip_blank
  skip_blank-AtToken c =
      let (d, spaced, le, stop, moved) = skip_whitespace-Ends c in
      let (e, ends, le', at) = skip_comments-AtToken (suc (left d)) d stop (omega arith) in
      rw (spaced, skip_blank) (e, ends, omega (arith, le, le'), at)
