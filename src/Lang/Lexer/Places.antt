-- ===== src/Lang/Lexer/Places.antt =====
-- internal/lang/lexer.go: the offset, the line and the column that the lexer keeps.
use shellf.Prelude.{
  ℕ, zero, suc, ◌+◌, ◌≤◌, false, if◌then◌else◌, [], ◌∷◌, ◌++◌, Str, ◌==◌, length, length-append,
  ◌≡◌, refl, sym, ap, ◌∙◌, arith,
}
use shellf.Lang.Lexer.{
  Token, Lexer, new_lexer, advance, advance_by, move_over, skip, skip_length, Lexeme, lexeme, bad,
  lex_text, Lexed, token, lex_error, emit, next,
}

-- The line behind a text that starts on `line`.
unfoldable pub line_after : Str → ℕ → ℕ
line_after [] line = line
line_after (c ∷ s) line = line_after s (if c == b'\n' then line + 1 else line)

-- The column behind a text that starts in `col`.
unfoldable pub col_after : Str → ℕ → ℕ
col_after [] col = col
col_after (c ∷ s) col = col_after s (if c == b'\n' then 1 else col + 1)

-- The lexer `l` stands behind the start `before` of the source.
pub record Behind (src before : Str) (l : Lexer) : Type 0 where
  pub same_src : l.src ≡ src
  pub split : src ≡ before ++ l.rest
  pub offset : l.pos ≡ length before
  pub on_line : l.line ≡ line_after before 1
  pub in_col : l.col ≡ col_after before 1

abbrev pub IsPlaced : Str → Lexer → Type 0
IsPlaced src l = (before : Str) × Behind src before l

pub new_lexer-IsPlaced : (src : Str) → IsPlaced src (new_lexer src)
unfolding line_after col_after
new_lexer-IsPlaced src =
    ([], record { same_src = refl; split = refl; offset = refl; on_line = refl; in_col = refl })

line_after-snoc :
    (s : Str) (c line : ℕ)
    → line_after (s ++ (c ∷ [])) line
      ≡ (if c == b'\n' then line_after s line + 1 else line_after s line)
unfolding line_after
line_after-snoc [] c line = refl
line_after-snoc (d ∷ s) c line = line_after-snoc s c _

col_after-snoc :
    (s : Str) (c col : ℕ)
    → col_after (s ++ (c ∷ [])) col ≡ (if c == b'\n' then 1 else col_after s col + 1)
unfolding col_after
col_after-snoc [] c col = refl
col_after-snoc (d ∷ s) c col = col_after-snoc s c _

append_snoc : (s : Str) (c : ℕ) (t : Str) → s ++ (c ∷ t) ≡ (s ++ (c ∷ [])) ++ t
append_snoc [] c t = refl
append_snoc (d ∷ s) c t = ap (λ z. d ∷ z) (append_snoc s c t)

move_over-IsPlaced :
    (src : Str) (s : Str) (l : Lexer) → l.rest ≡ s → IsPlaced src l → IsPlaced src (move_over s l)
move_over-IsPlaced src [] l e p = p
move_over-IsPlaced src (c ∷ s) l e (before, b) = (
  before ++ (c ∷ []),
  record {
    same_src = b.same_src;
    split = b.split ∙ ap (λ z. before ++ z) e ∙ append_snoc before c s;
    offset = omega (arith, b.offset, length-append before (c ∷ []));
    on_line = rw b.on_line (sym (line_after-snoc before c 1));
    in_col = rw b.in_col (sym (col_after-snoc before c 1));
  },
)

advance_by-IsPlaced :
    (src : Str) (n : ℕ) (l : Lexer) → IsPlaced src l → IsPlaced src (advance_by n l)
unfolding advance_by
advance_by-IsPlaced src zero l p = p
advance_by-IsPlaced src (suc n) l p =
    advance_by-IsPlaced src n (advance l) (move_over-IsPlaced src l.rest l refl p)

move_over-pos : (s : Str) (l : Lexer) → l.pos ≤ (move_over s l).pos
move_over-pos [] l = omega arith
move_over-pos (c ∷ s) l = omega arith

advance_by-pos : (n : ℕ) (l : Lexer) → l.pos ≤ (advance_by n l).pos
unfolding advance_by
advance_by-pos zero l = omega arith
advance_by-pos (suc n) l = omega (arith, move_over-pos l.rest l, advance_by-pos n (advance l))

move_over-start : (s : Str) (l : Lexer) → (move_over s l).tok_start ≡ l.tok_start
move_over-start [] l = refl
move_over-start (c ∷ s) l = refl

advance_by-start : (n : ℕ) (l : Lexer) → (advance_by n l).tok_start ≡ l.tok_start
unfolding advance_by
advance_by-start zero l = refl
advance_by-start (suc n) l = advance_by-start n (advance l) ∙ move_over-start l.rest l

-- A placed lexer is not behind the end of its source.
pub IsPlaced-bound : (src : Str) (l : Lexer) → IsPlaced src l → l.pos ≤ length src
IsPlaced-bound src l (before, b) =
    omega (arith, b.offset, ap length b.split, length-append before l.rest)

-- The token `t` starts behind a start of the source, at the offset, on the line and in the column
-- that come with it, and ends within the source.
pub record TokenPlace (src : Str) (t : Token) (l : Lexer) : Type 0 where
  pub before : Str
  pub text : Str
  pub parts : src ≡ before ++ text
  pub start : l.tok_start ≡ length before
  pub line : t.line ≡ line_after before 1
  pub col : t.col ≡ col_after before 1
  pub start_end : l.tok_start ≤ l.pos
  pub end_bound : l.pos ≤ length src

abbrev pub LexedPlaced : Str → Lexed → Type 0
LexedPlaced src (lex_error e) = Unit {0}
LexedPlaced src (token t l) = IsPlaced src l × TokenPlace src t l

emit-LexedPlaced :
    (src : Str) (l : Lexer) (x : Lexeme) → IsPlaced src l → LexedPlaced src (emit l x)
emit-LexedPlaced src l (bad e) p = tt
emit-LexedPlaced src l (lexeme k v n) (before, b) = (
  placed,
  record {
    before = before;
    text = l.rest;
    parts = b.split;
    start = advance_by-start n started ∙ b.offset;
    line = b.on_line;
    col = b.in_col;
    start_end = omega (arith, advance_by-start n started, advance_by-pos n started);
    end_bound = IsPlaced-bound src (advance_by n started) placed;
  },
)
  where
    started : Lexer
    started = record l { tok_start = l.pos }

    placed : IsPlaced src (advance_by n started)
    placed = advance_by-IsPlaced src n started (
      before,
      record {
        same_src = b.same_src;
        split = b.split;
        offset = b.offset;
        on_line = b.on_line;
        in_col = b.in_col;
      },
    )

-- For a lexer whose unread text, offset, line and column are those behind a start of the source, `next`
-- reports an error or answers a token and a lexer that is placed again. The token's line and column are
-- those behind the part of the source before its start offset, which is at most the offset that the
-- lexer stops at, and that is at most the length of the source.
pub next-IsPlaced : (src : Str) (l : Lexer) → IsPlaced src l → LexedPlaced src (next l)
unfolding next skip
next-IsPlaced src l p =
    emit-LexedPlaced src (skip l) (lex_text (skip l).line (skip l).col (skip l).rest)
      (advance_by-IsPlaced src (skip_length false l.rest) l p)
