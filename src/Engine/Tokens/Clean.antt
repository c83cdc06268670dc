-- ===== src/Engine/Tokens/Clean.antt =====
-- What the token helpers keep: each returns bytes of its argument only, folded once.
use mysql_selective_trace_pl.Common.{
  ℕ, ◌≡◌, refl, inl, inr, none, some, [], ◌∷◌, ◌++◌, map, arith, Option-cases, >>=-eq-some, All,
  All-append_inv, Bytes, cut_at, cut_at_sound,
}
use mathlib.Core.Path.{subst}
use mysql_selective_trace_pl.Engine.Chars.{ascii_lower, ascii_lower_idem}
use mysql_selective_trace_pl.Engine.Rules.{IsFolded}
use mysql_selective_trace_pl.Engine.Tokens.{
  trim_front, trim_back, keep_unless_space, clean_token, unsnoc, strip_ticks, split_cmd_qualifier,
  parse_cmd_qualifier,
}

unsnoc-none : (s : Bytes) → unsnoc s ≡ none → s ≡ []
unfolding unsnoc
unsnoc-none [] e = refl
unsnoc-none (c ∷ s) e = elim (Option-cases (unsnoc s)) [
  | inl e' ↦ ground arith
  | inr ((f, l), e') ↦ ground arith
]

unsnoc_sound : (s front : Bytes) (last : ℕ) → unsnoc s ≡ some (front, last) → s ≡ front ++ last ∷ []
unfolding unsnoc
unsnoc_sound [] front last e = cc
unsnoc_sound (c ∷ s) front last e = elim (Option-cases (unsnoc s)) [
  | inl e' ↦ ground (arith, unsnoc-none s e')
  | inr ((f, l), e') ↦ ground (arith, unsnoc_sound s f l e')
]

module _ (P : ℕ → Type 0) where
  trim_front-All : (s : Bytes) → All P s → All P (trim_front s)
  unfolding trim_front
  trim_front-All [] h = tt
  trim_front-All (c ∷ s) h = ground (arith, trim_front-All s h.1)

  keep_unless_space-All : (c : ℕ) (s : Bytes) → P c → All P s → All P (keep_unless_space c s)
  unfolding keep_unless_space
  keep_unless_space-All c [] p h = ground arith
  keep_unless_space-All c (d ∷ s) p h = (p, h)

  pub trim_back-All : (s : Bytes) → All P s → All P (trim_back s)
  unfolding trim_back
  trim_back-All [] h = tt
  trim_back-All (c ∷ s) h = keep_unless_space-All c (trim_back s) h.0 (trim_back-All s h.1)

  unsnoc-All : (s front : Bytes) (last : ℕ) → unsnoc s ≡ some (front, last) → All P s → All P front
  unfolding unsnoc
  unsnoc-All s front last e h =
      (All-append_inv P front (last ∷ []) (subst (All P) (unsnoc_sound s front last e) h)).0

  pub strip_ticks-All : (s : Bytes) → All P s → All P (strip_ticks s)
  unfolding strip_ticks
  strip_ticks-All [] h = tt
  strip_ticks-All (c ∷ s) h = elim (Option-cases (unsnoc s)) [
    | inl e ↦ rw (e, strip_ticks) h
    | inr ((front, last), e) ↦ rw (e, strip_ticks) (ground (arith, unsnoc-All s front last e h.1))
  ]

  pub cut_at-All : (b : ℕ) (s l r : Bytes) → cut_at b s ≡ some (l, r) → All P s → All P l × All P r
  cut_at-All b s l r e h =
      let (hl, hr) = All-append_inv P l (b ∷ r) (subst (All P) (cut_at_sound b s l r e).0 h) in
      (hl, hr.1)

  pub split_name-All :
      (token name : Bytes) (cmds : ℕ)
      → split_cmd_qualifier token ≡ some (name, cmds)
      → All P token
      → All P name
  unfolding split_cmd_qualifier
  split_name-All token name cmds e h = elim (Option-cases (cut_at b':' token)) [
    | inl bare ↦
        let same : token ≡ name = cc (rw (bare, split_cmd_qualifier) at e) in subst (All P) same h
    | inr ((l, r), cut) ↦
        let (mask, _, done) =
          >>=-eq-some (parse_cmd_qualifier r) _ (rw (cut, split_cmd_qualifier) at e) in
        let same : trim_back l ≡ name = cc in
        subst (All P) same (trim_back-All l (cut_at-All b':' token l r cut h).0)
  ]

abbrev pub AllFolded : Bytes → Type 0
AllFolded = All (λ c. ascii_lower c ≡ c)

pub AllFolded-IsFolded : (s : Bytes) → AllFolded s → IsFolded s
AllFolded-IsFolded [] h = refl
AllFolded-IsFolded (c ∷ s) (p, h) = cc (p, AllFolded-IsFolded s h)

lower-AllFolded : (s : Bytes) → AllFolded (map ascii_lower s)
lower-AllFolded [] = tt
lower-AllFolded (c ∷ s) = (ascii_lower_idem c, lower-AllFolded s)

pub clean_token-AllFolded : (s : Bytes) → AllFolded (clean_token s)
unfolding clean_token
clean_token-AllFolded s = lower-AllFolded (trim_back (trim_front s))
