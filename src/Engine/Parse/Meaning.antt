-- ===== src/Engine/Parse/Meaning.antt =====
-- What the rules that `parse_filter_lists` builds grant, token by token.
use mysql_selective_trace_pl.Common.{
  is_nil, ℕ, ◌≡◌, refl, ◌↔◌, ◌⊎◌, inl, inr, false, some, List, [], ◌∷◌, ◌++◌, arith, Option-cases,
  >>=-eq-some, All, All-append, Any, Bytes, cut_at, iff_trans, or_assoc, or_map_left, or_map_right,
  or_absurd_right,
}
use mathlib.Core.Path.{subst}
use mysql_selective_trace_pl.Common.Bits.{HasBit}
use mysql_selective_trace_pl.Engine.Chars.{ascii_lower}
use mysql_selective_trace_pl.Engine.Rules.{FilterEntry, Grants, add_entry, add_entry-Grants}
use mysql_selective_trace_pl.Engine.Tokens.{strip_ticks, split_cmd_qualifier}
use mysql_selective_trace_pl.Engine.Tokens.Clean.{
  AllFolded, AllFolded-IsFolded, strip_ticks-All, cut_at-All, split_name-All,
}
use mysql_selective_trace_pl.Engine.Parse.{
  parsed, schema_token, Target, wildcard, exact, table_token, add_target, parse_schemas,
  parse_tables,
}

-- The token of the schema list grants bit `k` to the schema `n`.
abbrev pub SchemaGrants : Bytes → ℕ → Bytes → Type 0
SchemaGrants n k tok = (cmds : ℕ) × (schema_token tok ≡ some (n, cmds)) × HasBit k cmds

-- The token of the table list grants bit `k` to every table of the schema `n`.
abbrev pub WildGrants : Bytes → ℕ → Bytes → Type 0
WildGrants n k tok = (cmds : ℕ) × (table_token tok ≡ some (wildcard n cmds)) × HasBit k cmds

-- The token of the table list grants bit `k` to the table with the qualified name `n`.
abbrev pub ExactGrants : Bytes → ℕ → Bytes → Type 0
ExactGrants n k tok = (cmds : ℕ) × (table_token tok ≡ some (exact n cmds)) × HasBit k cmds

pub schema_token-AllFolded :
    (tok schema : Bytes) (cmds : ℕ)
    → schema_token tok ≡ some (schema, cmds)
    → AllFolded tok
    → AllFolded schema
unfolding schema_token
schema_token-AllFolded tok schema cmds e h = elim (Option-cases (split_cmd_qualifier tok)) [
  | inl bad ↦ cc (rw (bad, schema_token) at e)
  | inr ((name, mask), cut) ↦
      let name_folded = split_name-All _ tok name mask cut h in
      let e' = rw (cut, schema_token) at e in
      let same : strip_ticks name ≡ schema = ground (arith, e') in
      subst AllFolded same (strip_ticks-All _ name name_folded)
]

-- the name that a target is entered under
abbrev pub target_name : Target → Bytes
target_name (wildcard schema cmds) = schema
target_name (exact name cmds) = name

-- what `add_target` may return
pub add_target-cases :
    (schema table : Bytes) (cmds : ℕ) (t : Target)
    → add_target schema table cmds ≡ some t
    → (is_nil schema ≡ false)
      × (is_nil table ≡ false)
      × ((t ≡ wildcard schema cmds) ⊎ (t ≡ exact (schema ++ (b'.' ∷ table)) cmds))
unfolding add_target
add_target-cases schema table cmds t e = ground arith

add_target-AllFolded :
    (schema table : Bytes) (cmds : ℕ) (t : Target)
    → add_target schema table cmds ≡ some t
    → AllFolded schema
    → AllFolded table
    → AllFolded (target_name t)
add_target-AllFolded schema table cmds t e hs ht = elim (add_target-cases schema table cmds t e).2 [
  | inl is_wild ↦ rw is_wild hs
  | inr is_exact ↦
      rw is_exact (All-append _ schema (b'.' ∷ table) hs (unfold ascii_lower in refl, ht))
]

pub table_token-AllFolded :
    (tok : Bytes) (t : Target)
    → table_token tok ≡ some t
    → AllFolded tok
    → AllFolded (target_name t)
unfolding table_token
table_token-AllFolded tok t e h =
    let ((name, cmds), cut, e') = >>=-eq-some (split_cmd_qualifier tok) _ e in
    let ((schema, table), at_dot, e'') = >>=-eq-some (cut_at b'.' name) _ e' in
    let parts = cut_at-All _ b'.' name schema table at_dot (split_name-All _ tok name cmds cut h) in
    let added : add_target (strip_ticks schema) (strip_ticks table) cmds ≡ some t =
      ground (arith, e'') in
    add_target-AllFolded _ _ cmds t added (strip_ticks-All _ schema parts.0)
      (strip_ticks-All _ table parts.1)

schema_round_iff :
    (n : Bytes) (k : ℕ) (list : List FilterEntry) (tok schema : Bytes) (cmds : ℕ)
    → schema_token tok ≡ some (schema, cmds)
    → AllFolded tok
    → Any (Grants n k) (add_entry list schema cmds) ↔ (Any (Grants n k) list ⊎ SchemaGrants n k tok)
schema_round_iff n k list tok schema cmds e h =
    iff_trans
      (add_entry-Grants list schema cmds n k
        (AllFolded-IsFolded schema (schema_token-AllFolded tok schema cmds e h)))
      (or_map_right ((λ g. (cmds, rw (← g.0) e, g.1)), from))
  where
    from : SchemaGrants n k tok → (schema ≡ n) × HasBit k cmds
    from (m, e', b) = let same_mask : m ≡ cmds = cc in (cc, subst (HasBit k) same_mask b)

pub parse_schemas_iff :
    (n : Bytes) (k : ℕ) (list out : List FilterEntry) (toks : List Bytes)
    → All AllFolded toks
    → parse_schemas list toks ≡ parsed out
    → Any (Grants n k) out ↔ (Any (Grants n k) list ⊎ Any (SchemaGrants n k) toks)
unfolding parse_schemas
parse_schemas_iff n k list out [] h e =
    let same : list ≡ out = cc in
    subst (λ l. Any (Grants n k) l ↔ (Any (Grants n k) list ⊎ ⊥)) same
      ((λ g. inl g), (λ g. elim g [ inl a ↦ a | inr r ↦ absurd r ]))
parse_schemas_iff n k list out (tok ∷ toks) (f, h) e = elim (Option-cases (schema_token tok)) [
  | inl bad ↦ cc (rw (bad, parse_schemas) at e)
  | inr ((schema, cmds), good) ↦
      iff_trans
        (parse_schemas_iff n k (add_entry list schema cmds) out toks h
          (rw (good, parse_schemas) at e))
        (iff_trans (or_map_left (schema_round_iff n k list tok schema cmds good f)) or_assoc)
]

wildcard_round_iff :
    (n : Bytes) (k : ℕ) (list : List FilterEntry) (tok schema : Bytes) (cmds : ℕ)
    → table_token tok ≡ some (wildcard schema cmds)
    → AllFolded tok
    → Any (Grants n k) (add_entry list schema cmds) ↔ (Any (Grants n k) list ⊎ WildGrants n k tok)
wildcard_round_iff n k list tok schema cmds e h =
    iff_trans
      (add_entry-Grants list schema cmds n k
        (AllFolded-IsFolded schema (table_token-AllFolded tok (wildcard schema cmds) e h)))
      (or_map_right ((λ g. (cmds, rw (← g.0) e, g.1)), from))
  where
    from : WildGrants n k tok → (schema ≡ n) × HasBit k cmds
    from (m, e', b) = let same_mask : m ≡ cmds = cc in (cc, subst (HasBit k) same_mask b)

exact_round_iff :
    (n : Bytes) (k : ℕ) (list : List FilterEntry) (tok name : Bytes) (cmds : ℕ)
    → table_token tok ≡ some (exact name cmds)
    → AllFolded tok
    → Any (Grants n k) (add_entry list name cmds) ↔ (Any (Grants n k) list ⊎ ExactGrants n k tok)
exact_round_iff n k list tok name cmds e h =
    iff_trans
      (add_entry-Grants list name cmds n k
        (AllFolded-IsFolded name (table_token-AllFolded tok (exact name cmds) e h)))
      (or_map_right ((λ g. (cmds, rw (← g.0) e, g.1)), from))
  where
    from : ExactGrants n k tok → (name ≡ n) × HasBit k cmds
    from (m, e', b) = let same_mask : m ≡ cmds = cc in (cc, subst (HasBit k) same_mask b)

-- What a list of entries grants: what `list` did, and what the tokens do.
abbrev pub Extends :
    (Bytes → Type 0) → Bytes → ℕ → List FilterEntry → List Bytes → List FilterEntry → Type 0
Extends T n k list toks out = Any (Grants n k) out ↔ (Any (Grants n k) list ⊎ Any T toks)

pub parse_tables_iff :
    (n : Bytes) (k : ℕ) (wild tables : List FilterEntry) (toks : List Bytes)
    (wild' tables' : List FilterEntry)
    → All AllFolded toks
    → parse_tables wild tables toks ≡ parsed (wild', tables')
    → Extends (WildGrants n k) n k wild toks wild'
      × Extends (ExactGrants n k) n k tables toks tables'
unfolding parse_tables
parse_tables_iff n k wild tables [] wild' tables' h e =
    let same_wild : wild ≡ wild' = cc in
    let same_tables : tables ≡ tables' = cc in
    (
      subst (Extends (WildGrants n k) n k wild []) same_wild (or_absurd_right (λ r. r)),
      subst (Extends (ExactGrants n k) n k tables []) same_tables (or_absurd_right (λ r. r)),
    )
parse_tables_iff n k wild tables (tok ∷ toks) wild' tables' (f, h) e =
    elim (Option-cases (table_token tok)) [
      | inl bad ↦ cc (rw (bad, parse_tables) at e)
      | inr (wildcard schema cmds, good) ↦
          let (w, t) =
            parse_tables_iff n k (add_entry wild schema cmds) tables toks wild' tables' h
              (rw (good, parse_tables) at e) in
          let no_exact : ¬ ExactGrants n k tok = λ g. cc (good, g.1) in
          (
            iff_trans w (
                iff_trans (or_map_left (wildcard_round_iff n k wild tok schema cmds good f))
                  or_assoc),
            iff_trans t (iff_trans (or_map_left (or_absurd_right no_exact)) or_assoc),
          )
      | inr (exact name cmds, good) ↦
          let (w, t) =
            parse_tables_iff n k wild (add_entry tables name cmds) toks wild' tables' h
              (rw (good, parse_tables) at e) in
          let no_wild : ¬ WildGrants n k tok = λ g. cc (good, g.1) in
          (
            iff_trans w (iff_trans (or_map_left (or_absurd_right no_wild)) or_assoc),
            iff_trans t (
                iff_trans (or_map_left (exact_round_iff n k tables tok name cmds good f)) or_assoc),
          )
    ]
