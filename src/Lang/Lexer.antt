-- ===== src/Lang/Lexer.antt =====
-- internal/lang/lexer.go: tokens. A loop of the lexer that moves over some bytes is the count of those
-- bytes here, and a move by that count.
pub mod Dedent
pub mod Raw
pub mod Shrinks
pub mod Places
use shellf.Prelude.{
  ℕ, zero, suc, ◌+◌, Bool, true, false, ◌&&◌, ◌||◌, List, [], ◌∷◌, Option, none, some, Str, ◌==◌,
  leb, if◌then◌else◌, take, drop, has_prefix, str, length, is_blank,
}
use shellf.Lang.Lexer.Dedent.{dedent_triple}

-- `tokKind`
pub data TokKind : Type 0 where
  eof ident string number lbrace rbrace lbrack rbrack lparen rparen eq colon comma dot : TokKind
  eq_eq not_eq arrow bang question percent tilde raw_string : TokKind

-- The number that Go's `iota` gives a kind.
unfoldable pub kind_number : TokKind → ℕ
kind_number eof = 0
kind_number ident = 1
kind_number string = 2
kind_number number = 3
kind_number lbrace = 4
kind_number rbrace = 5
kind_number lbrack = 6
kind_number rbrack = 7
kind_number lparen = 8
kind_number rparen = 9
kind_number eq = 10
kind_number colon = 11
kind_number comma = 12
kind_number dot = 13
kind_number eq_eq = 14
kind_number not_eq = 15
kind_number arrow = 16
kind_number bang = 17
kind_number question = 18
kind_number percent = 19
kind_number tilde = 20
kind_number raw_string = 21

unfoldable pub is_kind : TokKind → TokKind → Bool
unfolding kind_number
is_kind k j = kind_number k == kind_number j

pub record Token : Type 0 where
  pub kind : TokKind
  pub val : Str
  pub line : ℕ
  pub col : ℕ

-- `lexer`, with the unread text `l.src[l.pos:]` beside its offset.
pub record Lexer : Type 0 where
  pub src : Str
  pub rest : Str
  pub pos : ℕ
  pub line : ℕ
  pub col : ℕ
  pub tok_start : ℕ

-- `newLexer`
abbrev pub new_lexer : Str → Lexer
new_lexer src = record { src = src; rest = src; pos = 0; line = 1; col = 1; tok_start = 0 }

-- The errors of the lexer, with the place that the message names.
pub data LexError : Type 0 where
  unexpected : ℕ → ℕ → ℕ → LexError
  unterminated_string unterminated_triple : ℕ → ℕ → LexError
  unterminated_shell : LexError

-- `adv`, on the unread text: Go's is not called at the end.
abbrev pub move_over : Str → Lexer → Lexer
move_over [] l = l
move_over (c ∷ s) l = record l {
  rest = s;
  pos = l.pos + 1;
  line = if c == b'\n' then l.line + 1 else l.line;
  col = if c == b'\n' then 1 else l.col + 1;
}

abbrev pub advance : Lexer → Lexer
advance l = move_over l.rest l

unfoldable pub advance_by : ℕ → Lexer → Lexer
advance_by zero l = l
advance_by (suc n) l = advance_by n (advance l)

-- The bytes that `skip` passes, outside a comment or within one.
unfoldable pub skip_length : Bool → Str → ℕ
skip_length comment [] = 0
skip_length true (c ∷ s) = suc (skip_length (if c == b'\n' then false else true) s)
skip_length false (c ∷ s) =
    let blank = skip_length false s in
    let hash = skip_length true s in
    if is_blank c then suc blank else if c == b'#' then suc hash else 0

unfoldable pub skip : Lexer → Lexer
skip l = advance_by (skip_length false l.rest) l

-- The bytes of the longest start that passes a test.
unfoldable pub span_length : (ℕ → Bool) → Str → ℕ
span_length p [] = 0
span_length p (c ∷ s) = let more = span_length p s in if p c then suc more else 0

unfoldable pub is_digit : ℕ → Bool
is_digit c = leb b'0' c && leb c b'9'

unfoldable pub is_ident_start : ℕ → Bool
is_ident_start c = c == b'_' || (leb b'a' c && leb c b'z') || (leb b'A' c && leb c b'Z')

unfoldable pub is_ident_part : ℕ → Bool
is_ident_part c = is_ident_start c || is_digit c || c == b'-'

unfoldable pub unescape : ℕ → ℕ
unescape c = if c == b'n' then b'\n' else if c == b't' then b'\t' else c

abbrev pub put_byte : ℕ → Option (Str × ℕ) → Option (Str × ℕ)
put_byte c none = none
put_byte c (some (s, n)) = some (c ∷ s, suc n)

abbrev pub pass_byte : Option (Str × ℕ) → Option (Str × ℕ)
pass_byte none = none
pass_byte (some (s, n)) = some (s, suc n)

-- The loop of `lexString`, behind a backslash or not: the text, and the bytes up to the closing quote
-- with it.
unfoldable pub string_body : Bool → Str → Option (Str × ℕ)
unfolding unescape
string_body escaped [] = none
string_body true (c ∷ s) = put_byte (unescape c) (string_body false s)
string_body false (c ∷ s) =
    let behind = string_body true s in
    let more = string_body false s in
    if c == b'"' then some ([], 1) else if c == b'\\' then pass_byte behind else put_byte c more

abbrev pub triple_quote : Str
triple_quote = b'"' ∷ b'"' ∷ b'"' ∷ []

-- `strings.Index(rest, `"""`)`
unfoldable pub triple_end : Str → Option ℕ
triple_end [] = none
triple_end (c ∷ s) =
    let later = triple_end s in
    if has_prefix (c ∷ s) triple_quote
    then some 0
    else elim later [ none ↦ none | some n ↦ some (suc n) ]

-- The map `punctuation`.
unfoldable pub punctuation : ℕ → Option TokKind
punctuation c =
    if c == b'{'
    then some lbrace
    else if c == b'}'
    then some rbrace
    else if c == b'['
    then some lbrack
    else if c == b']'
    then some rbrack
    else if c == b'('
    then some lparen
    else if c == b')'
    then some rparen
    else if c == b'='
    then some eq
    else if c == b':'
    then some colon
    else if c == b','
    then some comma
    else if c == b'.'
    then some dot
    else if c == b'!'
    then some bang
    else if c == b'%'
    then some percent
    else if c == b'~'
    then some tilde
    else if c == b'?'
    then some question
    else none

-- What `next` has read: the kind, the text and the bytes of a token, or an error.
pub data Lexeme : Type 0 where
  lexeme : TokKind → Str → ℕ → Lexeme
  bad : LexError → Lexeme

abbrev pub string_lexeme : ℕ → ℕ → Option (Str × ℕ) → Lexeme
string_lexeme line col none = bad (unterminated_string line col)
string_lexeme line col (some (s, n)) = lexeme string s (suc n)

-- The bytes of the opening quotes, the content and the closing quotes.
abbrev pub triple_lexeme : ℕ → ℕ → Str → Option ℕ → Lexeme
triple_lexeme line col s none = bad (unterminated_triple line col)
triple_lexeme line col s (some n) = lexeme raw_string (dedent_triple (take n s)) (3 + (n + 3))

-- `next` by its first byte, once no operator of two bytes is there.
unfoldable pub lex_byte : ℕ → ℕ → ℕ → Str → Lexeme
lex_byte line col c s = elim (punctuation c) [
  | some k ↦ lexeme k (c ∷ []) 1
  | none ↦
      if c == b'"'
      then (if has_prefix s (b'"' ∷ b'"' ∷ [])
          then triple_lexeme line col (drop 2 s) (triple_end (drop 2 s))
          else string_lexeme line col (string_body false s))
      else if is_digit c
      then lexeme number (take (span_length is_digit (c ∷ s)) (c ∷ s))
          (span_length is_digit (c ∷ s))
      else if is_ident_start c
      then lexeme ident (take (span_length is_ident_part (c ∷ s)) (c ∷ s))
          (span_length is_ident_part (c ∷ s))
      else bad (unexpected line col c)
]

-- `next`, behind `skip`.
unfoldable pub lex_text : ℕ → ℕ → Str → Lexeme
lex_text line col [] = lexeme eof [] 0
lex_text line col (c ∷ s) =
    if has_prefix (c ∷ s) (str "==")
    then lexeme eq_eq (str "==") 2
    else if has_prefix (c ∷ s) (str "!=")
    then lexeme not_eq (str "!=") 2
    else if has_prefix (c ∷ s) (str "->")
    then lexeme arrow (str "->") 2
    else lex_byte line col c s

pub data Lexed : Type 0 where
  token : Token → Lexer → Lexed
  lex_error : LexError → Lexed

abbrev pub emit : Lexer → Lexeme → Lexed
emit l (bad e) = lex_error e
emit l (lexeme k v n) =
    token (record { kind = k; val = v; line = l.line; col = l.col })
      (advance_by n (record l { tok_start = l.pos }))

-- `next`
unfoldable pub next : Lexer → Lexed
next l = let l' = skip l in emit l' (lex_text l'.line l'.col l'.rest)
