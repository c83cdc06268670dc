-- ===== src/Engine/Command/Layout.antt =====
-- The layout that `extract_command` passes over in front of a statement, as a grammar of its own.
use mysql_selective_trace_pl.Common.{
  ℕ, ◌≡◌, refl, ap, ◌∙◌, Bool, true, false, ◌&&◌, ◌||◌, some, List, [], ◌∷◌, ◌++◌, arith, leb, ◌==◌,
  All, Bytes, contains,
}
use mysql_selective_trace_pl.Engine.Chars.{is_space}
use mysql_selective_trace_pl.Engine.Command.{
  byte_is, skip_digits, skip_line, skip_block, skip_comment, ends_dashes, skip_one,
}
use mysql_selective_trace_pl.Engine.Command.Skip.{skip, skip-skip_one}

-- a piece of layout; `version` and `version_m` are the openings of executable comments
pub data Piece : Type 0 where
  space : ℕ → Piece
  paren : Piece
  comment version version_m hash dashes : Bytes → Piece

-- the piece in front of the rest of the statement
abbrev pub put : Piece → Bytes → Bytes
put (space c) rest = c ∷ rest
put paren rest = b'(' ∷ rest
put (comment body) rest = b'/' ∷ b'*' ∷ body ++ (b'*' ∷ b'/' ∷ rest)
put (version number) rest = b'/' ∷ b'*' ∷ b'!' ∷ number ++ rest
put (version_m number) rest = b'/' ∷ b'*' ∷ b'M' ∷ b'!' ∷ number ++ rest
put (hash line) rest = b'#' ∷ line ++ (b'\n' ∷ rest)
put (dashes line) rest = b'-' ∷ b'-' ∷ line ++ (b'\n' ∷ rest)

abbrev pub layout : List Piece → Bytes → Bytes
layout [] rest = rest
layout (x ∷ xs) rest = put x (layout xs rest)

-- whether `*/` occurs
abbrev pub closes : Bytes → Bool
closes [] = false
closes (c ∷ []) = false
closes (c ∷ d ∷ s) = c == b'*' && d == b'/' || closes (d ∷ s)

-- whether the body makes the comment an executable one
abbrev pub marked : Bytes → Bool
marked [] = false
marked (c ∷ []) = c == b'!'
marked (c ∷ d ∷ s) = c == b'!' || c == b'M' && d == b'!'

abbrev pub is_digit : ℕ → Bool
is_digit c = leb b'0' c && leb c b'9'

abbrev pub starts_digit : Bytes → Bool
starts_digit [] = false
starts_digit (c ∷ s) = is_digit c

-- What makes a piece well formed in front of the rest.
abbrev pub IsPiece : Piece → Bytes → Type 0
IsPiece (space c) rest = is_space c ≡ true
IsPiece paren rest = Unit
IsPiece (comment body) rest = (closes body ≡ false) × (marked body ≡ false)
IsPiece (version number) rest = All (λ c. is_digit c ≡ true) number × (starts_digit rest ≡ false)
IsPiece (version_m number) rest = All (λ c. is_digit c ≡ true) number × (starts_digit rest ≡ false)
IsPiece (hash line) rest = contains b'\n' line ≡ false
IsPiece (dashes line) rest = (contains b'\n' line ≡ false) × (ends_dashes line ≡ true)

abbrev pub IsLayout : List Piece → Bytes → Type 0
IsLayout [] rest = Unit
IsLayout (x ∷ xs) rest = IsPiece x (layout xs rest) × IsLayout xs rest

skip_digits-append :
    (number rest : Bytes)
    → All (λ c. is_digit c ≡ true) number
    → starts_digit rest ≡ false
    → skip_digits (number ++ rest) ≡ rest
unfolding skip_digits
skip_digits-append [] [] h e = refl
skip_digits-append [] (c ∷ rest) h e = ground arith
skip_digits-append (c ∷ number) rest h e = ground (arith, skip_digits-append number rest)

skip_line-append :
    (line rest : Bytes)
    → contains b'\n' line ≡ false
    → skip_line (line ++ (b'\n' ∷ rest)) ≡ b'\n' ∷ rest
unfolding skip_line contains
skip_line-append [] rest h = refl
skip_line-append (c ∷ line) rest h = ground (arith, skip_line-append line rest)

skip_block-append :
    (body rest : Bytes) → closes body ≡ false → skip_block (body ++ (b'*' ∷ b'/' ∷ rest)) ≡ rest
unfolding skip_block
skip_block-append [] rest h = refl
skip_block-append (c ∷ []) rest h = ground arith
skip_block-append (c ∷ d ∷ body) rest h = ground (arith, skip_block-append (d ∷ body) rest)

skip_comment-append :
    (body rest : Bytes)
    → closes body ≡ false
    → marked body ≡ false
    → skip_comment (body ++ (b'*' ∷ b'/' ∷ rest)) ≡ rest
unfolding skip_comment byte_is
skip_comment-append [] rest h m = skip_block-append [] rest h
skip_comment-append (c ∷ []) rest h m = ground (arith, skip_block-append (c ∷ []) rest)
skip_comment-append (c ∷ d ∷ body) rest h m = ground (arith, skip_block-append (c ∷ d ∷ body) rest)

skip_newline : (rest : Bytes) → skip (b'\n' ∷ rest) ≡ skip rest
unfolding skip_one is_space
skip_newline rest = skip-skip_one (b'\n' ∷ rest) rest refl

skip_line_round :
    (c : ℕ) (p line rest : Bytes)
    → skip_one (c ∷ p) ≡ some (skip_line (c ∷ p))
    → c ∷ p ≡ line ++ (b'\n' ∷ rest)
    → contains b'\n' line ≡ false
    → skip (c ∷ p) ≡ skip rest
skip_line_round c p line rest round whole h =
    skip-skip_one (c ∷ p) (b'\n' ∷ rest)
      (round ∙ ap (λ t. some (skip_line t)) whole ∙ ap some (skip_line-append line rest h))
    ∙ skip_newline rest

ends_dashes-append :
    (line rest : Bytes) → ends_dashes line ≡ true → ends_dashes (line ++ (b'\n' ∷ rest)) ≡ true
unfolding ends_dashes is_space
ends_dashes-append [] rest h = refl
ends_dashes-append (c ∷ line) rest h = h

skip-put : (x : Piece) (rest : Bytes) → IsPiece x rest → skip (put x rest) ≡ skip rest
unfolding skip_one is_space skip_comment byte_is contains
skip-put (space c) rest h = skip-skip_one (c ∷ rest) rest (ground arith)
skip-put paren rest h = skip-skip_one (b'(' ∷ rest) rest refl
skip-put (comment body) rest (h, m) =
    skip-skip_one _ rest (ap some (skip_comment-append body rest h m))
skip-put (version number) rest (h, e) =
    skip-skip_one _ rest (ap some (skip_digits-append number rest h e))
skip-put (version_m number) rest (h, e) =
    skip-skip_one _ rest (ap some (skip_digits-append number rest h e))
skip-put (hash line) rest h =
    skip_line_round b'#' (line ++ (b'\n' ∷ rest)) (b'#' ∷ line) rest refl refl h
skip-put (dashes line) rest (h, s) =
    let both = ends_dashes-append line rest s in
    skip_line_round b'-' (b'-' ∷ line ++ (b'\n' ∷ rest)) (b'-' ∷ b'-' ∷ line) rest (rw both refl)
      refl h

-- All of it is passed over.
pub skip-layout :
    (xs : List Piece) (rest : Bytes) → IsLayout xs rest → skip (layout xs rest) ≡ skip rest
skip-layout [] rest h = refl
skip-layout (x ∷ xs) rest (h, hs) = skip-put x (layout xs rest) h ∙ skip-layout xs rest hs
