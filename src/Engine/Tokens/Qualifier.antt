-- ===== src/Engine/Tokens/Qualifier.antt =====
-- What `parse_cmd_qualifier` accepts, and the mask that it returns.
use mysql_selective_trace_pl.Common.{
  ℕ, ◌≤◌, ◌<◌, bit_or, ◌≡◌, refl, ◌∙◌, ◌≢◌, ◌↔◌, ◌⊎◌, inl, inr, some, List, [], ◌∷◌, arith,
  Option-cases, >>=-eq-some, All, Any, Bytes, cut_at, split_on, split_on-ne-nil, iff_trans,
  or_assoc, or_map_left, or_map_right, or_absurd_left,
}
use mathlib.Core.Path.{subst}
use mysql_selective_trace_pl.Common.Bits.{
  HasBit, HasBit-bit_or, not_HasBit-zero, le-bit_or, zero-bit_or,
}
use mysql_selective_trace_pl.Engine.Tokens.{
  cmd_tokens, find_mask, token_mask, join_masks, parse_cmd_qualifier, split_cmd_qualifier,
}
use mysql_selective_trace_pl.Engine.Cmd

-- The token names a command or a group.
abbrev pub IsKnown : Bytes → Type 0
IsKnown tok = (mask : ℕ) × (token_mask tok ≡ some mask)

-- The token names a command or a group that holds bit `k`.
abbrev pub Adds : ℕ → Bytes → Type 0
Adds k tok = (mask : ℕ) × (token_mask tok ≡ some mask) × HasBit k mask

find_mask_pos :
    (table : List (Bytes × ℕ)) (tok : Bytes) (mask : ℕ)
    → All (λ e. 0 < e.1) table
    → find_mask table tok ≡ some mask
    → 0 < mask
unfolding find_mask
find_mask_pos [] tok mask h e = cc
find_mask_pos ((name, m) ∷ table) tok mask (p, h) e = ground (arith, find_mask_pos table tok mask h)

token_mask_pos : (tok : Bytes) (mask : ℕ) → token_mask tok ≡ some mask → 0 < mask
unfolding token_mask
token_mask_pos tok mask = find_mask_pos cmd_tokens _ mask (omega arith)

Adds-iff : (tok : Bytes) (mask k : ℕ) → token_mask tok ≡ some mask → HasBit k mask ↔ Adds k tok
Adds-iff tok mask k e = ((λ b. (mask, e, b)), from)
  where
    from : Adds k tok → HasBit k mask
    from (m, e', b) = let same : m ≡ mask = cc in subst (HasBit k) same b

join_masks_iff :
    (k cmds : ℕ) (toks : List Bytes) (m : ℕ)
    → join_masks cmds toks ≡ some m
    → HasBit k m ↔ (HasBit k cmds ⊎ Any (Adds k) toks)
unfolding join_masks
join_masks_iff k cmds [] m e =
    let same : cmds ≡ m = cc in
    subst (λ x. HasBit k x ↔ (HasBit k cmds ⊎ ⊥)) same
      ((λ b. inl b), (λ g. elim g [ inl b ↦ b | inr r ↦ absurd r ]))
join_masks_iff k cmds (tok ∷ toks) m e =
    let (mask, known, rest) = >>=-eq-some (token_mask tok) _ e in
    iff_trans (join_masks_iff k (bit_or cmds mask) toks m rest) (
      iff_trans
        (or_map_left
          (iff_trans (HasBit-bit_or k cmds mask) (or_map_right (Adds-iff tok mask k known))))
        or_assoc)

join_masks-IsKnown :
    (cmds : ℕ) (toks : List Bytes) (m : ℕ)
    → join_masks cmds toks ≡ some m
    → All IsKnown toks × (cmds ≤ m)
unfolding join_masks
join_masks-IsKnown cmds [] m e = (tt, ground arith)
join_masks-IsKnown cmds (tok ∷ toks) m e =
    let (mask, known, rest) = >>=-eq-some (token_mask tok) _ e in
    let (all_known, le) = join_masks-IsKnown (bit_or cmds mask) toks m rest in
    (((mask, known), all_known), omega (arith, le-bit_or cmds mask))

join_masks_total :
    (cmds : ℕ) (toks : List Bytes) → All IsKnown toks → (m : ℕ) × (join_masks cmds toks ≡ some m)
unfolding join_masks
join_masks_total cmds [] h = (cmds, refl)
join_masks_total cmds (tok ∷ toks) ((mask, known), h) =
    let (m, e) = join_masks_total (bit_or cmds mask) toks h in (m, rw known e)

join_masks_pos : (toks : List Bytes) (m : ℕ) → toks ≢ [] → join_masks 0 toks ≡ some m → 0 < m
unfolding join_masks
join_masks_pos [] m ne e = absurd (ne refl)
join_masks_pos (tok ∷ toks) m ne e =
    let (mask, known, rest) = >>=-eq-some (token_mask tok) _ e in
    let le = (join_masks-IsKnown (bit_or 0 mask) toks m rest).1 in
    omega (arith, token_mask_pos tok mask known, zero-bit_or mask, le)

parse_cmd_qualifier_inv :
    (quals : Bytes) (m : ℕ)
    → parse_cmd_qualifier quals ≡ some m
    → join_masks 0 (split_on b'|' quals) ≡ some m
unfolding parse_cmd_qualifier
parse_cmd_qualifier_inv quals m e =
    let (cmds, joined, rest) = >>=-eq-some (join_masks 0 (split_on b'|' quals)) _ e in
    joined ∙ ground (arith, rest)

pub parse_cmd_qualifier_pos : (quals : Bytes) (m : ℕ) → parse_cmd_qualifier quals ≡ some m → 0 < m
parse_cmd_qualifier_pos quals m e =
    join_masks_pos _ m (split_on-ne-nil b'|' quals) (parse_cmd_qualifier_inv quals m e)

-- The mask that `parse_cmd_qualifier` returns has a bit exactly if some token between the bars
-- names a command or a group with that bit.
pub parse_cmd_qualifier_iff :
    (quals : Bytes) (m k : ℕ)
    → parse_cmd_qualifier quals ≡ some m
    → HasBit k m ↔ Any (Adds k) (split_on b'|' quals)
parse_cmd_qualifier_iff quals m k e =
    iff_trans (join_masks_iff k 0 _ m (parse_cmd_qualifier_inv quals m e))
      (or_absurd_left (not_HasBit-zero k))

-- `parse_cmd_qualifier` succeeds, with a mask that is not empty, exactly if every token between
-- the bars is known: its last test `*cmds != 0` never fails.
pub parse_cmd_qualifier_total :
    (quals : Bytes)
    → All IsKnown (split_on b'|' quals) ↔ ((m : ℕ) × (parse_cmd_qualifier quals ≡ some m) × (0 < m))
unfolding parse_cmd_qualifier
parse_cmd_qualifier_total quals = (to, from)
  where
    to :
        All IsKnown (split_on b'|' quals) → (m : ℕ) × (parse_cmd_qualifier quals ≡ some m) × (0 < m)
    to h =
        let (m, e) = join_masks_total 0 (split_on b'|' quals) h in
        let pos = join_masks_pos _ m (split_on-ne-nil b'|' quals) e in
        (m, rw e (ground (arith, pos)), pos)

    from :
        ((m : ℕ) × (parse_cmd_qualifier quals ≡ some m) × (0 < m))
        → All IsKnown (split_on b'|' quals)
    from (m, e, pos) = (join_masks-IsKnown 0 _ m (parse_cmd_qualifier_inv quals m e)).0

pub split_cmd_qualifier_pos :
    (token name : Bytes) (cmds : ℕ) → split_cmd_qualifier token ≡ some (name, cmds) → 0 < cmds
unfolding split_cmd_qualifier
split_cmd_qualifier_pos token name cmds e = elim (Option-cases (cut_at b':' token)) [
  | inl bare ↦ let is_all : Cmd.all ≡ cmds = cc (rw (bare, split_cmd_qualifier) at e) in omega arith
  | inr ((l, r), cut) ↦
      let (mask, e', done) =
        >>=-eq-some (parse_cmd_qualifier r) _ (rw (cut, split_cmd_qualifier) at e) in
      let same : mask ≡ cmds = cc in omega (arith, parse_cmd_qualifier_pos r mask e')
]
