-- ===== src/Lang/Lexer/Shrinks.antt =====
-- Every token but the last takes bytes of the unread text, and a captured text gives none back.
use shellf.Prelude.{
  ℕ, zero, suc, ◌+◌, ◌≤◌, ◌<◌, Bool, true, false, [], ◌∷◌, Option, none, some, Str, str, ◌==◌,
  if◌then◌else◌, length, has_prefix, drop, ◌≡◌, ◌≢◌, ◌⊎◌, inl, inr, refl, ap, arith, Bool-cases,
}
use shellf.Lang.Lexer.{
  TokKind, eof, is_kind, Token, Lexer, advance, advance_by, move_over, skip, skip_length,
  span_length, is_digit, is_ident_start, is_ident_part, string_body, triple_end, punctuation,
  Lexeme, lexeme, bad, string_lexeme, triple_lexeme, lex_byte, lex_text, Lexed, token, lex_error,
  emit, next,
}
use shellf.Lang.Lexer.Raw.{
  Captured, captured, failed, skip_inline, raw_braces, raw_line, raw_shell_body, try_raw_byte,
  raw_ident, close_braces, brace_end,
}

-- `l'` has no more unread text than `l`.
abbrev pub Within : Lexer → Lexer → Type 0
Within l l' = length l'.rest ≤ length l.rest

move_over-le : (s : Str) (l : Lexer) → l.rest ≡ s → length (move_over s l).rest ≤ length s
move_over-le [] l e = omega (arith, ap length e)
move_over-le (c ∷ s) l e = omega arith

advance-le : (l : Lexer) → Within l (advance l)
advance-le l = move_over-le l.rest l refl

move_over-lt : (s : Str) (l : Lexer) → s ≢ [] → length (move_over s l).rest < length s
move_over-lt [] l ne = absurd (ne refl)
move_over-lt (c ∷ s) l ne = omega arith

advance_by-le : (n : ℕ) (l : Lexer) → Within l (advance_by n l)
unfolding advance_by
advance_by-le zero l = omega arith
advance_by-le (suc n) l = omega (arith, advance-le l, advance_by-le n (advance l))

advance_by-lt :
    (n : ℕ) (l : Lexer) → 1 ≤ n → l.rest ≢ [] → length (advance_by n l).rest < length l.rest
unfolding advance_by
advance_by-lt zero l h ne = omega arith
advance_by-lt (suc n) l h ne = omega (arith, move_over-lt l.rest l ne, advance_by-le n (advance l))

skip-le : (l : Lexer) → Within l (skip l)
unfolding skip
skip-le l = advance_by-le (skip_length false l.rest) l

-- A lexeme of a text: the end of it, or a kind that is not the end's and at least one byte.
abbrev GoodLexeme : Str → Lexeme → Type 0
GoodLexeme s (bad e) = Unit {0}
GoodLexeme s (lexeme k v n) =
    ((is_kind k eof ≡ true) × (s ≡ [])) ⊎ ((is_kind k eof ≡ false) × (1 ≤ n) × (s ≢ []))

span_pos : (p : ℕ → Bool) (c : ℕ) (s : Str) → p c ≡ true → 1 ≤ span_length p (c ∷ s)
unfolding span_length
span_pos p c s h = rw h (omega arith)

punctuation-ne-eof : (c : ℕ) (k : TokKind) → punctuation c ≡ some k → is_kind k eof ≡ false
unfolding punctuation is_kind
punctuation-ne-eof c k h = ground arith

if-Good :
    (s : Str) (b : Bool) (x y : Lexeme)
    → (b ≡ true → GoodLexeme s x)
    → (b ≡ false → GoodLexeme s y)
    → GoodLexeme s (if b then x else y)
if-Good s true x y f g = f refl
if-Good s false x y f g = g refl

-- A kind that is not the end's, of at least one byte.
long :
    (k : TokKind) (v : Str) (n c : ℕ) (s : Str)
    → is_kind k eof ≡ false
    → 1 ≤ n
    → GoodLexeme (c ∷ s) (lexeme k v n)
long k v n c s h pos = inr (h, pos, λ q. cc)

string_lexeme-Good :
    (line col c : ℕ) (s : Str) (o : Option (Str × ℕ))
    → GoodLexeme (c ∷ s) (string_lexeme line col o)
unfolding is_kind
string_lexeme-Good line col c s none = tt
string_lexeme-Good line col c s (some (v, n)) = inr (refl, omega arith, λ q. cc)

triple_lexeme-Good :
    (line col c : ℕ) (s t : Str) (o : Option ℕ) → GoodLexeme (c ∷ s) (triple_lexeme line col t o)
unfolding is_kind
triple_lexeme-Good line col c s t none = tt
triple_lexeme-Good line col c s t (some n) = inr (refl, omega arith, λ q. cc)

by_punctuation :
    (c : ℕ) (s : Str) (o : Option TokKind) (y : Lexeme)
    → punctuation c ≡ o
    → GoodLexeme (c ∷ s) y
    → GoodLexeme (c ∷ s) (elim o [ some k ↦ lexeme k (c ∷ []) 1 | none ↦ y ])
by_punctuation c s none y e g = g
by_punctuation c s (some k) y e g = long k (c ∷ []) 1 c s (punctuation-ne-eof c k e) (omega arith)

lex_byte-Good : (line col c : ℕ) (s : Str) → GoodLexeme (c ∷ s) (lex_byte line col c s)
unfolding lex_byte is_kind is_ident_part
lex_byte-Good line col c s = by_punctuation c s (punctuation c) _ refl (
    if-Good (c ∷ s) (c == b'"') _ _
      (λ q.
        if-Good (c ∷ s) (has_prefix s (b'"' ∷ b'"' ∷ [])) _ _
          (λ t. triple_lexeme-Good line col c s (drop 2 s) (triple_end (drop 2 s)))
          (λ t. string_lexeme-Good line col c s (string_body false s)))
      (λ q.
        if-Good (c ∷ s) (is_digit c) _ _ (λ d. inr (refl, span_pos is_digit c s d, λ z. cc))
          (λ d.
            if-Good (c ∷ s) (is_ident_start c) _ _
              (λ i. inr (refl, span_pos is_ident_part c s (rw i refl), λ z. cc)) (λ i. tt))))

lex_text-Good : (line col : ℕ) (s : Str) → GoodLexeme s (lex_text line col s)
unfolding lex_text is_kind
lex_text-Good line col [] = inl (refl, refl)
lex_text-Good line col (c ∷ s) =
    if-Good (c ∷ s) (has_prefix (c ∷ s) (str "==")) _ _ (λ h. inr (refl, omega arith, λ q. cc))
      (λ h.
        if-Good (c ∷ s) (has_prefix (c ∷ s) (str "!=")) _ _ (λ h. inr (refl, omega arith, λ q. cc))
          (λ h.
            if-Good (c ∷ s) (has_prefix (c ∷ s) (str "->")) _ _
              (λ h. inr (refl, omega arith, λ q. cc)) (λ h. lex_byte-Good line col c s)))

-- The end of the text, or a token that took a byte of it.
abbrev pub GoodToken : Lexer → Token → Lexer → Type 0
GoodToken l t l' =
    ((is_kind t.kind eof ≡ true) × (l'.rest ≡ []))
    ⊎ ((is_kind t.kind eof ≡ false) × (length l'.rest < length l.rest))

abbrev pub GoodLexed : Lexer → Lexed → Type 0
GoodLexed l (lex_error e) = Unit {0}
GoodLexed l (token t l') = GoodToken l t l'

emit-Good : (l : Lexer) (x : Lexeme) → GoodLexeme l.rest x → GoodLexed l (emit l x)
emit-Good l (bad e) g = tt
emit-Good l (lexeme k v n) (inl (h, e)) = inl (
  h,
  rest_nil (advance_by n (record l { tok_start = l.pos }))
      (advance_by-le n (record l { tok_start = l.pos })),
)
  where
    rest_nil : (l' : Lexer) → Within l l' → l'.rest ≡ []
    rest_nil l' w = no_rest l'.rest (omega (arith, ap length e))
      where
        no_rest : (s : Str) → length s ≤ 0 → s ≡ []
        no_rest [] h = refl
        no_rest (c ∷ s) h = absurd (omega arith)
emit-Good l (lexeme k v n) (inr (h, pos, ne)) =
    inr (h, advance_by-lt n (record l { tok_start = l.pos }) pos ne)

-- `next` takes a byte of the unread text at least, or is at its end.
pub next-Good : (l : Lexer) → GoodLexed l (next l)
unfolding next
next-Good l =
    from_skip (emit (skip l) (lex_text (skip l).line (skip l).col (skip l).rest))
      (emit-Good (skip l) _ (lex_text-Good (skip l).line (skip l).col (skip l).rest))
  where
    from_skip : (r : Lexed) → GoodLexed (skip l) r → GoodLexed l r
    from_skip (lex_error e) g = tt
    from_skip (token t l') (inl g) = inl g
    from_skip (token t l') (inr (k, lt)) = inr (k, omega (arith, lt, skip-le l))

skip_inline-le : (l : Lexer) → Within l (skip_inline l)
unfolding skip_inline
skip_inline-le l = advance_by-le _ l

abbrev pub CapturedWithin : Lexer → Captured → Type 0
CapturedWithin l (failed e) = Unit {0}
CapturedWithin l (captured s l') = Within l l'

raw_braces-le : (l : Lexer) → CapturedWithin l (raw_braces l)
unfolding raw_braces
raw_braces-le l = close (brace_end 0 (advance l).rest)
  where
    close : (o : Option ℕ) → CapturedWithin l (close_braces (advance l) o)
    close none = tt
    close (some n) = omega (arith, advance-le l, advance_by-le (n + 1) (advance l))

pub raw_shell_body-le : (l : Lexer) → CapturedWithin l (raw_shell_body l)
unfolding raw_shell_body raw_line
raw_shell_body-le l = elim (Bool-cases (has_prefix (skip_inline l).rest (b'{' ∷ []))) [
  | inl braced ↦
      rw braced (from_inline (raw_braces (skip_inline l)) (raw_braces-le (skip_inline l)))
  | inr line ↦ rw line (omega (arith, skip_inline-le l, advance_by-le _ (skip_inline l)))
]
  where
    from_inline : (r : Captured) → CapturedWithin (skip_inline l) r → CapturedWithin l r
    from_inline (failed e) g = tt
    from_inline (captured s l') g = omega (arith, g, skip_inline-le l)

pub try_raw_byte-le : (c : ℕ) (l : Lexer) → Within l (try_raw_byte c l).1
unfolding try_raw_byte
try_raw_byte-le c l = elim (Bool-cases (has_prefix (skip_inline l).rest (c ∷ []))) [
  | inl there ↦ rw there (omega (arith, skip_inline-le l, advance-le (skip_inline l)))
  | inr absent ↦ rw absent (skip_inline-le l)
]

pub raw_ident-le : (l : Lexer) → Within l (raw_ident l).1
unfolding raw_ident
raw_ident-le l = omega (
  arith,
  skip_inline-le l,
  advance_by-le (span_length is_ident_part (skip_inline l).rest) (skip_inline l),
)
