-- ===== src/Engine/Command/Word.antt =====
-- The word that `extract_command` stores.
use mysql_selective_trace_pl.Common.{
  ℕ, suc, ◌+◌, ◌≤◌, ◌<◌, ◌≡◌, refl, sym, ap, ◌∙◌, ◌≢◌, ◌⊎◌, inl, inr, true, false, ◌&&◌, none, some,
  List, [], ◌∷◌, ◌++◌, map, arith, leb, length, is_nil, All, Bytes, codes, equal_iff,
}
use mathlib.Core.Path.{subst}
use mysql_selective_trace_pl.Engine.Chars.{is_space, is_ident_char, starts_ident, up}
use mysql_selective_trace_pl.Engine.Command.{
  skip_one, word_byte, read_word, skip_spaces, read_letters, join_start, or_other, extract_command,
}
use mysql_selective_trace_pl.Engine.Command.Skip.{skip, skip_stop}
use mysql_selective_trace_pl.Engine.Command.Layout.{Piece, layout, IsLayout, skip-layout}

abbrev pub AllIdent : Bytes → Type 0
AllIdent w = All (λ c. is_ident_char c ≡ true) w

word_byte_ident : (c : ℕ) → is_ident_char c ≡ true → word_byte c ≡ some (up c)
unfolding is_ident_char word_byte up
word_byte_ident c h = ground arith

word_byte_other : (c : ℕ) → is_ident_char c ≡ false → word_byte c ≡ none
unfolding is_ident_char word_byte
word_byte_other c h = ground arith

read_word-append :
    (buf_size n : ℕ) (w tail : Bytes)
    → AllIdent w
    → starts_ident tail ≡ false
    → n + length w < buf_size
    → n + length w ≤ 16
    → read_word buf_size n (w ++ tail) ≡ (map up w, tail)
unfolding read_word
read_word-append buf_size n [] [] h e lt le = refl
read_word-append buf_size n [] (c ∷ tail) h e lt le = ground (arith, word_byte_other c)
read_word-append buf_size n (c ∷ w) tail (h, hs) e lt le =
    ground (arith, word_byte_ident c h, read_word-append buf_size (n + 1) w tail hs e)

skip_one_ident : (c : ℕ) (p : Bytes) → is_ident_char c ≡ true → skip_one (c ∷ p) ≡ none
unfolding is_ident_char skip_one is_space
skip_one_ident c p h = ground arith

-- a word behind layout, read into a buffer that is large enough
read_word-layout :
    (xs : List Piece) (c : ℕ) (w tail : Bytes) (buf_size : ℕ)
    → IsLayout xs ((c ∷ w) ++ tail)
    → AllIdent (c ∷ w)
    → starts_ident tail ≡ false
    → length (c ∷ w) < buf_size
    → length (c ∷ w) ≤ 16
    → read_word buf_size 0 (skip (layout xs ((c ∷ w) ++ tail))) ≡ (map up (c ∷ w), tail)
read_word-layout xs c w tail buf_size l h e lt le =
    let start = skip-layout xs _ l ∙ skip_stop _ (skip_one_ident c (w ++ tail) h.0) in
    ap (read_word buf_size 0) start
    ∙ read_word-append buf_size 0 (c ∷ w) tail h e (omega arith) (omega arith)

-- Whatever layout stands in front of a statement (spaces, parentheses, comments of each flavour,
-- openings of executable comments), if its first word is made of letters, digits and underscores,
-- ends in front of another byte or the text's end, has at most 16 bytes and fits in the buffer with
-- its NUL, and is not START, then the command is that word in capitals.
pub extract_command-layout :
    (xs : List Piece) (c : ℕ) (w tail : Bytes) (buf_size : ℕ)
    → IsLayout xs ((c ∷ w) ++ tail)
    → AllIdent (c ∷ w)
    → starts_ident tail ≡ false
    → length (c ∷ w) < buf_size
    → length (c ∷ w) ≤ 16
    → map up (c ∷ w) ≢ codes "START"
    → extract_command (layout xs ((c ∷ w) ++ tail)) buf_size ≡ some (map up (c ∷ w))
unfolding extract_command join_start or_other
extract_command-layout xs c w tail buf_size l h e lt le ne =
    let word = read_word-layout xs c w tail buf_size l h e lt le in
    rw word (ground (arith, (equal_iff (map up (c ∷ w)) (codes "START")).0))

skip_spaces-append :
    (gap rest : Bytes)
    → All (λ c. is_space c ≡ true) gap
    → (is_nil rest ≡ true) ⊎ ((c : ℕ) × (p : Bytes) × (rest ≡ c ∷ p) × (is_space c ≡ false))
    → skip_spaces (gap ++ rest) ≡ rest
unfolding skip_spaces
skip_spaces-append [] [] h e = refl
skip_spaces-append [] (d ∷ rest) h (inl e) = cc
skip_spaces-append [] (d ∷ rest) h (inr (c, p, e, s)) = ground arith
skip_spaces-append (c ∷ gap) rest (h, hs) e = rw h (skip_spaces-append gap rest hs e)

abbrev IsCapital : ℕ → Type 0
IsCapital c = (leb b'A' c && leb c b'Z') ≡ true

read_letters-append :
    (w tail : Bytes) (m : ℕ)
    → m + length w ≡ 11
    → All IsCapital (map up w)
    → read_letters m (w ++ tail) ≡ map up w
unfolding read_letters up
read_letters-append [] [] m e h = refl
read_letters-append [] (c ∷ tail) m e h = ground arith
read_letters-append (c ∷ w) tail m e (h, hs) =
    let rest = read_letters-append w tail (m + 1) (omega arith) hs in ground arith

length-map-up : (w : Bytes) → length (map up w) ≡ length w
length-map-up [] = refl
length-map-up (c ∷ w) = ap suc (length-map-up w)

space-not_capital : (c : ℕ) → IsCapital (up c) → is_space c ≡ false
unfolding up is_space
space-not_capital c h = ground arith

space-not_ident : (c : ℕ) → is_space c ≡ true → is_ident_char c ≡ false
unfolding is_ident_char is_space
space-not_ident c h = ground arith

transaction_capitals : All IsCapital (codes "TRANSACTION")
transaction_capitals =
    (refl, (refl, (refl, (refl, (refl, (refl, (refl, (refl, (refl, (refl, (refl, tt)))))))))))

capital_ident : (c : ℕ) → IsCapital (up c) → is_ident_char c ≡ true
unfolding up is_ident_char
capital_ident c h = ground arith

capitals_ident : (w : Bytes) → All IsCapital (map up w) → AllIdent w
capitals_ident [] h = tt
capitals_ident (c ∷ w) (h, hs) = (capital_ident c h, capitals_ident w hs)

letters_of : (c : ℕ) (w : Bytes) → map up (c ∷ w) ≡ codes "START" → AllIdent (c ∷ w)
letters_of c w e =
    capitals_ident (c ∷ w)
      (subst (All IsCapital) (sym e) (refl, (refl, (refl, (refl, (refl, tt))))))

-- START, a gap of one or more spaces and TRANSACTION, in any case and behind any layout, is the
-- command BEGIN, in a buffer of at least 6 bytes, whatever follows it.
pub extract_command-start :
    (xs : List Piece) (c : ℕ) (w : Bytes) (s : ℕ) (gap : Bytes) (d : ℕ) (v tail : Bytes)
    (buf_size : ℕ)
    → IsLayout xs ((c ∷ w) ++ ((s ∷ gap) ++ ((d ∷ v) ++ tail)))
    → map up (c ∷ w) ≡ codes "START"
    → All (λ b. is_space b ≡ true) (s ∷ gap)
    → map up (d ∷ v) ≡ codes "TRANSACTION"
    → 6 ≤ buf_size
    → extract_command (layout xs ((c ∷ w) ++ ((s ∷ gap) ++ ((d ∷ v) ++ tail)))) buf_size
      ≡ some (codes "BEGIN")
unfolding extract_command join_start or_other
extract_command-start xs c w s gap d v tail buf_size l start gaps transaction big =
    let size : length (c ∷ w) ≡ 5 = sym (length-map-up (c ∷ w)) ∙ ap length start in
    let capitals : All IsCapital (map up (d ∷ v)) =
      subst (All IsCapital) (sym transaction) transaction_capitals in
    let word =
      read_word-layout xs c w ((s ∷ gap) ++ ((d ∷ v) ++ tail)) buf_size l (letters_of c w start)
        (space-not_ident s gaps.0) (omega arith) (omega arith) in
    let next =
      skip_spaces-append (s ∷ gap) ((d ∷ v) ++ tail) gaps
        (inr (d, v ++ tail, refl, space-not_capital d capitals.0)) in
    let long : length (d ∷ v) ≡ 11 = sym (length-map-up (d ∷ v)) ∙ ap length transaction in
    let second = read_letters-append (d ∷ v) tail 0 (omega arith) capitals in
    let first = (equal_iff (map up (c ∷ w)) (codes "START")).1 start in
    let last = (equal_iff (map up (d ∷ v)) (codes "TRANSACTION")).1 transaction in
    rw (word, next, second, first, last) (ground arith)
