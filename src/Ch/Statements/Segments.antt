-- ===== src/Ch/Statements/Segments.antt =====
-- What a piece of a statement is, said without the code, and that the code reads it so.
use pggen.Prelude.{
  ℕ, suc, ◌≤◌, ◌<◌, ◌≡◌, refl, ap, ◌≢◌, inl, inr, true, false, [], ◌∷◌, ◌++◌, none, some, arith,
  ◌==◌, length, length-append, Option-cases, ◌&&◌, All,
}
use pggen.Prelude.Text.{Text}
use pggen.Ch.Statements.{literal_end, is_quote, skip_literal, line_end, block_end, skip_comment}

-- The rest of a literal up to its closing quote: escapes, and bytes that are no quote.
pub data LiteralBody (quote : ℕ) : Text → Type 0 where
  close : {c : ℕ} → c ≡ quote → LiteralBody quote (c ∷ [])
  escape :
      {c : ℕ} (d : ℕ) {s : Text} → c ≡ b'\\' → LiteralBody quote s → LiteralBody quote (c ∷ d ∷ s)
  plain :
      {c : ℕ} {s : Text} → c ≢ b'\\' → c ≢ quote → LiteralBody quote s → LiteralBody quote (c ∷ s)

literal_end_plain :
    (quote c : ℕ) (s : Text)
    → c ≢ b'\\'
    → c ≢ quote
    → literal_end quote (c ∷ s) ≡ (c ∷ (literal_end quote s).0, (literal_end quote s).1)
unfolding literal_end
literal_end_plain quote c [] n m = refl
literal_end_plain quote c (d ∷ s) n m = ground arith

literal_end_escape :
    (quote c d : ℕ) (s : Text)
    → c ≡ b'\\'
    → literal_end quote (c ∷ d ∷ s) ≡ (c ∷ d ∷ (literal_end quote s).0, (literal_end quote s).1)
unfolding literal_end
literal_end_escape quote c d s e = ground arith

literal_end-body :
    (quote : ℕ) {body : Text} (rest : Text)
    → quote ≢ b'\\'
    → LiteralBody quote body
    → literal_end quote (body ++ rest) ≡ (body, rest)
literal_end-body quote [] q (close e) = unfold literal_end in ground arith
literal_end-body quote (d ∷ rest) q (close e) = unfold literal_end in ground arith
literal_end-body quote rest q (escape {c} d {s} e b) =
    rw (literal_end_escape quote c d (s ++ rest) e, literal_end-body quote rest q b)
literal_end-body quote rest q (plain {c} {s} n m b) =
    rw (literal_end_plain quote c (s ++ rest) n m, literal_end-body quote rest q b)

-- A quoted literal: a quote, and its body.
pub data IsLiteral : Text → Type 0 where
  literal : {q : ℕ} {body : Text} → is_quote q ≡ true → LiteralBody q body → IsLiteral (q ∷ body)

-- The code finds the end of every literal, whatever follows it.
pub skip_literal-IsLiteral :
    {lit : Text} (rest : Text) → IsLiteral lit → skip_literal (lit ++ rest) ≡ some (lit, rest)
unfolding skip_literal
skip_literal-IsLiteral rest (literal {q} h b) = rw (h, literal_end-body q rest (ground arith) b)

-- A line comment holds no newline; the end of a block comment is the first one.
pub data BlockBody : Text → Type 0 where
  close : {c d : ℕ} → c ≡ b'*' → d ≡ b'/' → BlockBody (c ∷ d ∷ [])
  more :
      {c d : ℕ} {s : Text}
      → (c == b'*' && d == b'/') ≡ false
      → BlockBody (d ∷ s)
      → BlockBody (c ∷ d ∷ s)

line_end-newline :
    (body rest : Text)
    → All (λ c. c ≢ b'\n') body
    → line_end (body ++ b'\n' ∷ rest) ≡ (body, b'\n' ∷ rest)
unfolding line_end
line_end-newline [] rest h = refl
line_end-newline (c ∷ body) rest (n, h) = ground (arith, line_end-newline body rest h)

block_end-body :
    {body : Text} (rest : Text) → BlockBody body → block_end (body ++ rest) ≡ (body, rest)
unfolding block_end
block_end-body rest (close e d) = ground arith
block_end-body rest (more {c} {d} {s} n b) = rw (n, block_end-body rest b)

-- A comment that ends before the text does. The newline that ends a line comment is not a part of it.
pub data IsComment : Text → Text → Type 0 where
  line :
      {body rest : Text} → All (λ c. c ≢ b'\n') body → IsComment (b'-' ∷ b'-' ∷ body) (b'\n' ∷ rest)
  block : {body rest : Text} → BlockBody body → IsComment (b'/' ∷ b'*' ∷ body) rest

pub skip_comment-IsComment :
    {comment rest : Text}
    → IsComment comment rest
    → skip_comment (comment ++ rest) ≡ some (comment, rest)
unfolding skip_comment
skip_comment-IsComment (line {body} {rest} h) = rw (line_end-newline body rest h)
skip_comment-IsComment (block {body} {rest} b) = rw (block_end-body rest b)

-- Whatever is skipped is a part of the text, and not empty.
literal_end-split : (quote : ℕ) (s : Text) → (literal_end quote s).0 ++ (literal_end quote s).1 ≡ s
unfolding literal_end
literal_end-split quote [] = refl
literal_end-split quote (c ∷ []) = refl
literal_end-split quote (c ∷ d ∷ s) =
    ground (arith, literal_end-split quote s, literal_end-split quote (d ∷ s))

line_end-split : (s : Text) → (line_end s).0 ++ (line_end s).1 ≡ s
unfolding line_end
line_end-split [] = refl
line_end-split (c ∷ s) = ground (arith, line_end-split s)

block_end-split : (s : Text) → (block_end s).0 ++ (block_end s).1 ≡ s
unfolding block_end
block_end-split [] = refl
block_end-split (c ∷ []) = refl
block_end-split (c ∷ d ∷ s) = ground (arith, block_end-split (d ∷ s))

-- A part of a text is no longer than the text.
length-part : (part rest : Text) {s : Text} → part ++ rest ≡ s → length rest ≤ length s
length-part part rest e = omega (arith, ap length e, length-append part rest)

pub skip_literal-split :
    (s : Text) {lit rest : Text}
    → skip_literal s ≡ some (lit, rest)
    → (lit ++ rest ≡ s) × (length rest < length s)
unfolding skip_literal
skip_literal-split [] h = cc
skip_literal-split (q ∷ s) {lit} {rest} h =
    let split = literal_end-split q s in
    let shorter = length-part (literal_end q s).0 (literal_end q s).1 split in
    (ground arith, ground arith)

pub skip_comment-split :
    (s : Text) {comment rest : Text}
    → skip_comment s ≡ some (comment, rest)
    → (comment ++ rest ≡ s) × (length rest < length s)
unfolding skip_comment
skip_comment-split [] h = cc
skip_comment-split (c ∷ []) h = cc
skip_comment-split (c ∷ d ∷ s) h =
    let line = line_end-split s in
    let block = block_end-split s in
    let line_le = length-part (line_end s).0 (line_end s).1 line in
    let block_le = length-part (block_end s).0 (block_end s).1 block in (ground arith, ground arith)

-- What stands at the front of a text: a comment, a literal, or a byte of neither.
pub data View (c : ℕ) (s : Text) : Type 0 where
  comment :
      {k rest : Text}
      → skip_comment (c ∷ s) ≡ some (k, rest)
      → k ++ rest ≡ c ∷ s
      → length rest < suc (length s)
      → View c s
  literal :
      {k rest : Text}
      → skip_comment (c ∷ s) ≡ none
      → skip_literal (c ∷ s) ≡ some (k, rest)
      → k ++ rest ≡ c ∷ s
      → length rest < suc (length s)
      → View c s
  byte : skip_comment (c ∷ s) ≡ none → skip_literal (c ∷ s) ≡ none → View c s

pub view : (c : ℕ) (s : Text) → View c s
view c s = elim (Option-cases (skip_comment (c ∷ s))) [
  | inr ((k, rest), e) ↦ let split = skip_comment-split (c ∷ s) e in comment e split.0 split.1
  | inl e ↦ elim (Option-cases (skip_literal (c ∷ s))) [
    | inr ((k, rest), e') ↦
        let split = skip_literal-split (c ∷ s) e' in literal e e' split.0 split.1
    | inl e' ↦ byte e e'
  ]
]
