-- ===== src/Engine/Tokens/Csv.antt =====
-- `split_csv` against a reference: cut at the commas, clean each piece, drop the empty ones.
use mysql_selective_trace_pl.Common.{
  ℕ, ◌≡◌, refl, sym, ap, ◌∙◌, ◌≢◌, inl, inr, Option, none, some, List, [], ◌∷◌, ◌++◌, append-nil,
  append_assoc, arith, ◌==◌, Bool-cases, if_cases, All, All-append, Bytes, split_on, add_front,
  split_on_sep, split_on_other,
}
use mathlib.Core.List.{cons-ne-nil}
use mysql_selective_trace_pl.Engine.Tokens.{clean_token, flush, split_csv_loop, split_csv}
use mysql_selective_trace_pl.Engine.Tokens.Clean.{AllFolded, clean_token-AllFolded}

-- the pieces that are not empty once cleaned
abbrev pub cleaned : List Bytes → List Bytes
cleaned [] = []
cleaned (p ∷ ps) = flush [] (clean_token p) ++ cleaned ps

-- the pieces of `cur ++ s`, if `cur` holds no separator
abbrev join_front : Bytes → List Bytes → List Bytes
join_front cur [] = []
join_front cur (p ∷ ps) = (cur ++ p) ∷ ps

flush-append : (tokens : List Bytes) (t : Bytes) → flush tokens t ≡ tokens ++ flush [] t
unfolding flush
flush-append tokens [] = sym (append-nil tokens)
flush-append tokens (c ∷ t) = refl

join_front-add_front :
    (cur : Bytes) (c : ℕ) (ps : List Bytes)
    → join_front cur (add_front c ps) ≡ join_front (cur ++ c ∷ []) ps
unfolding add_front
join_front-add_front cur c [] = refl
join_front-add_front cur c (p ∷ ps) = ap (λ t. t ∷ ps) (sym (append_assoc cur (c ∷ []) p))

join_front-nil : (ps : List Bytes) → join_front [] ps ≡ ps
join_front-nil [] = refl
join_front-nil (p ∷ ps) = refl

split_csv_loop_lem :
    (p cur : Bytes) (tokens : List Bytes)
    → All (λ c. c ≢ 0) p
    → split_csv_loop p cur tokens ≡ tokens ++ cleaned (join_front cur (split_on b',' p))
unfolding split_csv_loop
split_csv_loop_lem [] cur tokens h =
    unfold split_on in
    rw (append-nil cur, append-nil (flush [] (clean_token cur)))
      (flush-append tokens (clean_token cur))
split_csv_loop_lem (c ∷ p) cur tokens (nz, h) = elim (Bool-cases (c == b',')) [
  | inl comma ↦
      rw (split_on_sep b',' c p comma, append-nil cur)
        (ground (
          arith,
          split_csv_loop_lem p [] (flush tokens (clean_token cur)) h,
          ap cleaned (join_front-nil (split_on b',' p)),
          flush-append tokens (clean_token cur),
          append_assoc tokens (flush [] (clean_token cur)) (cleaned (split_on b',' p)),
        ))
  | inr other ↦
      rw (split_on_other b',' c p other, join_front-add_front cur c (split_on b',' p))
        (ground (arith, split_csv_loop_lem p (cur ++ c ∷ []) tokens h))
]

-- For a text without a NUL, `split_csv` returns the cleaned pieces between the commas, in their
-- order, without the empty ones; for a NULL pointer it returns none.
pub split_csv_lem :
    (csv : Bytes)
    → All (λ c. c ≢ 0) csv
    → (split_csv (some csv) ≡ cleaned (split_on b',' csv)) × (split_csv none ≡ [])
unfolding split_csv
split_csv_lem csv h =
    (split_csv_loop_lem csv [] [] h ∙ ap cleaned (join_front-nil (split_on b',' csv)), refl)

-- A token is not empty and its letters are lower case.
abbrev pub IsToken : Bytes → Type 0
IsToken t = (t ≢ []) × AllFolded t

flush-IsToken :
    (tokens : List Bytes) (t : Bytes)
    → All IsToken tokens
    → AllFolded t
    → All IsToken (flush tokens t)
unfolding flush
flush-IsToken tokens [] h f = h
flush-IsToken tokens (c ∷ t) h f =
    All-append IsToken tokens ((c ∷ t) ∷ []) h ((cons-ne-nil c t, f), tt)

split_csv_loop-IsToken :
    (p cur : Bytes) (tokens : List Bytes)
    → All IsToken tokens
    → All IsToken (split_csv_loop p cur tokens)
unfolding split_csv_loop
split_csv_loop-IsToken [] cur tokens h =
    flush-IsToken tokens (clean_token cur) h (clean_token-AllFolded cur)
split_csv_loop-IsToken (c ∷ p) cur tokens h =
    let flushed = flush-IsToken tokens (clean_token cur) h (clean_token-AllFolded cur) in
    let on_comma = split_csv_loop-IsToken p [] (flush tokens (clean_token cur)) flushed in
    let on_byte = split_csv_loop-IsToken p (cur ++ c ∷ []) tokens h in
    if_cases (All IsToken) (c == 0) flushed (if_cases (All IsToken) (c == b',') on_comma on_byte)

-- Every token of `split_csv` is lower case and not empty.
pub split_csv-IsToken : (csv : Option Bytes) → All IsToken (split_csv csv)
unfolding split_csv
split_csv-IsToken none = tt
split_csv-IsToken (some csv) = split_csv_loop-IsToken csv [] [] tt
