-- ===== src/Scanner/Progress.antt =====
-- A token takes a character, if no NUL stands where it begins.
use pggen.Prelude.{
  ℕ, ◌≡◌, refl, ◌≢◌, Bool, true, false, ◌&&◌, ◌||◌, [], ◌∷◌, ◌++◌, none, some, arith, ◌==◌,
  if◌then◌else◌, drop,
}
use pggen.Prelude.{All}
use pggen.Prelude.Text.{Text}
use pggen.Scanner.{
  illegal, eof, Token, block_comment, string, quoted_ident, Body, peek, line_comment_body,
  block_comment_body, quoted_body, tag_body, dollar_contents, dollar_string, fragment_body, Scanned,
  token, ended, literal_token, fragment_token, comment_token, scan_token,
}

pub data Takes : Scanned → Type 0 where
  took : {tok : Token} {used lit rest : Text} → used ≢ [] → Takes (token tok used lit rest)
  at_end : Takes (ended eof)
  halted : Takes (ended illegal)

-- A conditional whose branches know the test.
Takes-if :
    (b : Bool) {x y : Scanned}
    → (b ≡ true → Takes x)
    → (b ≡ false → Takes y)
    → Takes (if b then x else y)
Takes-if true hx hy = hx refl
Takes-if false hx hy = hy refl

Takes-literal :
    (tok : Token) (c : ℕ) (opening : Text) (b : Body) → Takes (literal_token tok (c ∷ opening) b)
Takes-literal tok c opening none = halted
Takes-literal tok c opening (some (body, rest)) = took (cc)

Takes-comment :
    (c : ℕ) (s : Text) → (c == b'-') ≡ true → Takes (comment_token (line_comment_body (c ∷ s)))
unfolding line_comment_body
Takes-comment c s e = rw (go) (took (cc))
  where
    go : (c == b'\n') ≡ false
    go = ground arith

Takes-block :
    (c : ℕ) (s : Text) {y : Scanned}
    → ((peek s == b'*') ≡ false → Takes y)
    → Takes (
        if peek s == b'*'
        then literal_token block_comment (c ∷ peek s ∷ []) (block_comment_body 1 (drop 1 s))
        else y)
Takes-block c s hy =
    Takes-if (peek s == b'*')
      (λ e. Takes-literal block_comment c (peek s ∷ []) (block_comment_body 1 (drop 1 s))) hy

-- The test at which `scanQueryFragment` stops.
abbrev stops : ℕ → Text → Bool
stops c s =
    c == 0
    || c == b';'
    || (c == b'-' && peek s == b'-')
    || (c == b'/' && peek s == b'*')
    || c == b'\''
    || c == b'"'

module _ (is_unicode_letter : ℕ → Bool) where
  Takes-dollar :
      (c : ℕ) (b : Body) → Takes (literal_token string [] (dollar_string is_unicode_letter c b))
  Takes-dollar c none = halted
  Takes-dollar c (some (tag, s)) = go (dollar_contents is_unicode_letter (c ∷ tag) s)
    where
      go :
          (b : Body)
          → Takes (
              literal_token string []
                (elim b [ none ↦ none | some (body, rest) ↦ some ((c ∷ tag) ++ body, rest) ]))
      go none = halted
      go (some (body, rest)) = took (cc)

  Takes-fragment :
      (c : ℕ) (s : Text)
      → stops c s ≡ false
      → (c == b'$') ≡ false
      → Takes (fragment_token (fragment_body is_unicode_letter false 0 (c ∷ s)))
  unfolding fragment_body
  Takes-fragment c s e e' = rw (e, e') (took (cc))

  pub scan_token-Takes : (s : Text) → All (λ c. c ≢ 0) s → Takes (scan_token is_unicode_letter s)
  unfolding scan_token
  scan_token-Takes [] h = at_end
  scan_token-Takes (c ∷ s) h =
      let ne = h.0 in
      Takes-if (c == b'-')
        (λ e.
          Takes-if (peek s == b'-') (λ e'. Takes-comment c s e)
            (λ e'. Takes-fragment c s (ground arith) (ground arith)))
        (λ e.
          Takes-if (c == b'/')
            (λ e1. Takes-block c s (λ e'. Takes-fragment c s (ground arith) (ground arith)))
            (λ e1.
              Takes-if (c == b'\'') (λ e'. Takes-literal string c [] (quoted_body c s))
                (λ e2.
                  Takes-if (c == b'$') (λ e'. Takes-dollar c (tag_body is_unicode_letter s))
                    (λ e3.
                      Takes-if (c == b'"') (λ e'. Takes-literal quoted_ident c [] (quoted_body c s))
                        (λ e4.
                          Takes-if (c == b';') (λ e'. took (cc))
                            (λ e5. Takes-fragment c s (ground arith) e3))))))
