-- ===== src/Lang/Parser/Ensures.antt =====
-- internal/lang/parser.go: rules for the computations of the parser. The unread text and the token in
-- hand bound what a computation may still take, and with it the fuel.
use shellf.Prelude.{
  ℕ, zero, suc, ◌+◌, ◌≤◌, ◌<◌, Bool, true, false, if◌then◌else◌, length, ◌≡◌, ◌≢◌, refl, ap, ◌∙◌,
  arith, ◌==◌,
}
use shellf.Lang.Lexer.{TokKind, eof, is_kind, kind_number, Token}
use shellf.Lang.Parser.{
  ParserState, Parsed, ok, failed, out_of_fuel, P, ◌>>=◌, pure, tok, fail, Complaint,
}

-- A result that is not a lack of fuel, and satisfies `Q` if it is no error.
abbrev pub Ensures : {A : Type 0} → (A → ParserState → Type 0) → Parsed A → Type 0
Ensures Q (ok a p) = Q a p
Ensures Q (failed e) = Unit {0}
Ensures Q out_of_fuel = ⊥

pub record Runs {A : Type 0} (Pre : ParserState → Type 0) (m : P A)
    (Post : A → ParserState → Type 0) : Type 0 where
  pub run : (p : ParserState) → Pre p → Ensures Post (m p)

-- The unread text, and the token in hand unless it is the end.
unfoldable pub measure : ParserState → ℕ
measure p = length p.lex.rest + (if is_kind p.tok.kind eof then 0 else 1)

pub record Below (n : ℕ) (d : Bool) (p : ParserState) : Type 0 where
  pub room : measure p < n
  pub place : p.in_def ≡ d

-- The token in hand is to be dropped.
pub record Ready (n : ℕ) (d : Bool) (p : ParserState) : Type 0 where
  pub room : length p.lex.rest < n
  pub place : p.in_def ≡ d

pub record At (t : Token) (Pre : ParserState → Type 0) (p : ParserState) : Type 0 where
  pub hand : p.tok ≡ t
  pub also : Pre p

pub record Gives {A : Type 0} (n : ℕ) (d : Bool) (Q : A → Type 0) (a : A) (p : ParserState)
    : Type 0 where
  pub left : Below n d p
  pub good : Q a

abbrev pub Any : {A : Type 0} → A → Type 0
Any a = Unit {0}

-- The computation takes a token at least, from any state with fewer than `n` left to take.
pub record Consumes {A : Type 0} (n : ℕ) (d : Bool) (m : P A) (Q : A → Type 0) : Type 0 where
  pub from : (k : ℕ) → suc k ≤ n → Runs (Below (suc k) d) m (Gives k d Q)

pub Ensures-weaken :
    {A : Type 0} {Q R : A → ParserState → Type 0} (f : (a : A) (p : ParserState) → Q a p → R a p)
    (r : Parsed A)
    → Ensures Q r
    → Ensures R r
Ensures-weaken f (ok a p) q = f a p q
Ensures-weaken f (failed e) q = tt
Ensures-weaken f out_of_fuel q = q

module _ {A : Type 0} {m : P A} where
  pub Runs-up :
      {Pre : ParserState → Type 0} {Q : A → Type 0} {d : Bool} {k n : ℕ}
      → k ≤ n
      → Runs Pre m (Gives k d Q)
      → Runs Pre m (Gives n d Q)
  Runs-up le h = record {
    run = λ p pre.
        Ensures-weaken
          (λ a p' g. record {
            left = record { room = omega (arith, g.left.room, le); place = g.left.place };
            good = g.good;
          })
          (m p) (h.run p pre);
  }

  pub Runs-map :
      {Pre : ParserState → Type 0} {Q R : A → Type 0} {d : Bool} {n : ℕ}
      → ((a : A) → Q a → R a)
      → Runs Pre m (Gives n d Q)
      → Runs Pre m (Gives n d R)
  Runs-map f h = record {
    run = λ p pre.
        Ensures-weaken (λ a p' g. record { left = g.left; good = f a g.good }) (m p) (h.run p pre);
  }

  pub Runs-down :
      {Post : A → ParserState → Type 0} {d : Bool} {k n : ℕ}
      → k ≤ n
      → Runs (Below n d) m Post
      → Runs (Below k d) m Post
  Runs-down le h = record {
    run = λ p b. h.run p (record { room = omega (arith, b.room, le); place = b.place });
  }

  pub Runs-none : {Post : A → ParserState → Type 0} {d : Bool} → Runs (Below 0 d) m Post
  Runs-none = record { run = λ p b. absurd (omega (arith, b.room)) }

  pub Runs-At :
      {Pre : ParserState → Type 0} {Post : A → ParserState → Type 0} {t : Token}
      → Runs Pre m Post
      → Runs (At t Pre) m Post
  Runs-At h = record { run = λ p b. h.run p b.also }

  pub Consumes-down :
      {Q : A → Type 0} {d : Bool} (n : ℕ) {k : ℕ} → k ≤ n → Consumes n d m Q → Consumes k d m Q
  Consumes-down n le h = record { from = λ j lt. h.from j (omega (arith, le, lt)) }

  pub Consumes-Runs :
      {Q : A → Type 0} {d : Bool} (n : ℕ) → Consumes n d m Q → Runs (Below n d) m (Gives n d Q)
  Consumes-Runs zero h = Runs-none
  Consumes-Runs (suc n) h = Runs-up (omega arith) (h.from n (omega arith))

abbrev pub Live : TokKind → Type 0
Live eof = ⊥
Live _ = Unit {0}

Live-eof : (j : TokKind) → Live j → kind_number j ≢ 0
unfolding kind_number
Live-eof eof e = absurd e
Live-eof _ e = λ h. absurd (omega (arith, h))

other_number : (a b : ℕ) → (a == b) ≡ true → b ≢ 0 → (a == 0) ≡ false
other_number a b h ne = ground arith

-- A computation that takes a token, where it need not.
pub Runs-lax :
    {A : Type 0} {m : P A} {Q : A → Type 0} {d : Bool} (k : ℕ)
    → ((j : ℕ) → k ≡ suc j → Runs (Below (suc j) d) m (Gives j d Q))
    → Runs (Below k d) m (Gives k d Q)
Runs-lax zero h = Runs-none
Runs-lax (suc j) h = Runs-up (omega arith) (h j refl)

-- A token of a kind that is not the end's is not the end.
pub not_eof : (k j : TokKind) → Live j → is_kind k j ≡ true → is_kind k eof ≡ false
unfolding is_kind kind_number
not_eof k j e h = other_number (kind_number k) (kind_number j) h (Live-eof j e)

module _ {A : Type 0} {Post : A → ParserState → Type 0} where
  pub Runs-fail : {Pre : ParserState → Type 0} (c : Complaint) → Runs Pre (fail c) Post
  unfolding fail
  Runs-fail c = record { run = λ p b. tt }

  pub Runs-if :
      {Pre : ParserState → Type 0} (c : Bool) {m k : P A}
      → (c ≡ true → Runs Pre m Post)
      → (c ≡ false → Runs Pre k Post)
      → Runs Pre (if c then m else k) Post
  Runs-if true f g = f refl
  Runs-if false f g = g refl

  pub Runs-tok :
      {Pre : ParserState → Type 0} (f : Token → P A)
      → ((t : Token) → Runs (At t Pre) (f t) Post)
      → Runs Pre (tok >>= f) Post
  unfolding tok ◌>>=◌
  Runs-tok f h = record { run = λ p pre. (h p.tok).run p (record { hand = refl; also = pre }) }

  pub Runs-Ready :
      {m : P A} {n : ℕ} {d : Bool} {t : Token}
      → is_kind t.kind eof ≡ false
      → Runs (Ready n d) m Post
      → Runs (At t (Below (suc n) d)) m Post
  unfolding measure
  Runs-Ready {n = n} {t = t} live h = record {
    run =
        λ p pre. h.run p (record { room = room p pre.hand pre.also.room; place = pre.also.place });
  }
    where
      room : (p : ParserState) → p.tok ≡ t → measure p < suc n → length p.lex.rest < n
      room p e lt = omega (
        arith,
        lt,
        ap (λ b. length p.lex.rest + (if b then 0 else 1)) (ap (λ u. is_kind u.kind eof) e ∙ live),
      )

  pub Runs-bind :
      {B : Type 0} {Pre : ParserState → Type 0} {Mid : B → ParserState → Type 0} (m : P B)
      (f : B → P A)
      → Runs Pre m Mid
      → ((b : B) → Runs (Mid b) (f b) Post)
      → Runs Pre (m >>= f) Post
  unfolding ◌>>=◌
  Runs-bind {B} {Mid = Mid} m f h g = record { run = λ p pre. go (m p) (h.run p pre) }
    where
      go :
          (r : Parsed B)
          → Ensures Mid r
          → Ensures Post
              (elim r [ ok a p' ↦ f a p' | failed e ↦ failed e | out_of_fuel ↦ out_of_fuel ])
      go (ok a p') q = (g a).run p' q
      go (failed e) q = tt
      go out_of_fuel q = q

  -- A part that gives a good value, and what follows it.
  pub Runs-then :
      {B : Type 0} {Pre : ParserState → Type 0} {Q : B → Type 0} {n : ℕ} {d : Bool} {m : P B}
      {f : B → P A}
      → Runs Pre m (Gives n d Q)
      → ((b : B) → Q b → Runs (Below n d) (f b) Post)
      → Runs Pre (m >>= f) Post
  Runs-then h g = Runs-bind _ _ h (λ b. record { run = λ p pre. (g b pre.good).run p pre.left })

pub Runs-here :
    {A : Type 0} {Pre : ParserState → Type 0} {Post : A → ParserState → Type 0} (a : A)
    → ((p : ParserState) → Pre p → Post a p)
    → Runs Pre (pure a) Post
unfolding pure
Runs-here a h = record { run = h }

pub Runs-pure :
    {A : Type 0} {Q : A → Type 0} {n : ℕ} {d : Bool} (a : A)
    → Q a
    → Runs (Below n d) (pure a) (Gives n d Q)
Runs-pure a q = Runs-here a (λ p b. record { left = b; good = q })
