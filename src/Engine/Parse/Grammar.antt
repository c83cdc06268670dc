-- ===== src/Engine/Parse/Grammar.antt =====
-- Which token lists `parse_filter_lists` accepts, by the form of the tokens.
use mysql_selective_trace_pl.Common.{
  ℕ, ◌≡◌, refl, sym, ap, ◌∙◌, ◌≢◌, ◌↔◌, ◌⊎◌, inl, inr, false, Option, none, some, [], ◌∷◌, ◌++◌,
  arith, is_nil, Option-cases, >>=-eq-some, All, All-mono, Bytes, codes, equal, contains,
  contains-All, cut_at, cut_at_sound, cut_at-none, split_on, if_cases,
}
use mathlib.Core.Path.{subst}
use mysql_selective_trace_pl.Engine.Rules.{FilterRules}
use mysql_selective_trace_pl.Engine.Cmd
use mysql_selective_trace_pl.Engine.Tokens.{
  strip_ticks, trim_back, parse_cmd_qualifier, split_cmd_qualifier, split_csv,
}
use mysql_selective_trace_pl.Engine.Tokens.Qualifier.{
  IsKnown, parse_cmd_qualifier_pos, parse_cmd_qualifier_total,
}
use mysql_selective_trace_pl.Engine.Parse.{
  parsed, Target, wildcard, exact, schema_token, table_token, add_target, parse_filter_lists,
}
use mysql_selective_trace_pl.Engine.Parse.Meaning.{add_target-cases}
use mysql_selective_trace_pl.Engine.Parse.Valid.{IsPart, is_nil-false}
use mysql_selective_trace_pl.Engine.Parse.Errors.{IsGood, parse_filter_lists_total}

-- The byte does not occur in the text.
abbrev pub Without : ℕ → Bytes → Type 0
Without b s = All (λ c. c ≢ b) s

-- A token with this name: the token itself, without a colon, or what stands in front of its first
-- colon, without trailing space, where behind the colon stand names of commands or groups between
-- bars.
abbrev pub IsNamed : Bytes → Bytes → Type 0
IsNamed tok name =
    (Without b':' tok × (tok ≡ name))
    ⊎ ((front : Bytes) × (quals : Bytes) × (tok ≡ front ++ (b':' ∷ quals))
        × Without b':' front
        × All IsKnown (split_on b'|' quals)
        × (trim_back front ≡ name))

-- A schema, its backticks dropped, is not empty and has no dot.
abbrev pub IsSchemaToken : Bytes → Type 0
IsSchemaToken tok = (name : Bytes) × IsNamed tok name × IsPart (strip_ticks name)

-- A schema, the only dot, and a table; without backticks neither is empty.
abbrev pub IsTableToken : Bytes → Type 0
IsTableToken tok =
    (schema : Bytes) × (table : Bytes) × IsNamed tok (schema ++ (b'.' ∷ table))
    × Without b'.' schema
    × Without b'.' table
    × (strip_ticks schema ≢ [])
    × (strip_ticks table ≢ [])

cut_at-Without : (b : ℕ) (s : Bytes) → Without b s → cut_at b s ≡ none
unfolding cut_at
cut_at-Without b [] h = refl
cut_at-Without b (c ∷ s) h = ground (arith, cut_at-Without b s)

cut_at-append : (b : ℕ) (l r : Bytes) → Without b l → cut_at b (l ++ (b ∷ r)) ≡ some (l, r)
unfolding cut_at
cut_at-append b [] r h = ground arith
cut_at-append b (c ∷ l) r h = ground (arith, cut_at-append b l r)

contains-Without : (b : ℕ) (s : Bytes) → Without b s → contains b s ≡ false
unfolding contains
contains-Without b [] h = refl
contains-Without b (c ∷ s) h = ground (arith, contains-Without b s)

is_nil-ne : (s : Bytes) → s ≢ [] → is_nil s ≡ false
is_nil-ne [] h = absurd (h refl)
is_nil-ne (c ∷ s) h = refl

-- What the qualifier's parser makes of a token.
abbrev IsSplit : Bytes → Bytes → Type 0
IsSplit tok name = (cmds : ℕ) × (split_cmd_qualifier tok ≡ some (name, cmds))

IsNamed-IsSplit : (tok name : Bytes) → IsNamed tok name → IsSplit tok name
unfolding split_cmd_qualifier
IsNamed-IsSplit tok name (inl (bare, same)) = (
  Cmd.all,
  rw (cut_at-Without b':' tok bare, split_cmd_qualifier) (ap (λ n. some (n, Cmd.all)) same),
)
IsNamed-IsSplit tok name (inr (front, quals, whole, first, known, same)) =
    let (m, e, _) = (parse_cmd_qualifier_total quals).0 known in
    let cut : cut_at b':' tok ≡ some (front, quals) =
      ap (cut_at b':') whole ∙ cut_at-append b':' front quals first in
    (m, rw (cut, split_cmd_qualifier) (rw e (ap (λ n. some (n, m)) same)))

IsSplit-IsNamed :
    (tok name : Bytes) (cmds : ℕ) → split_cmd_qualifier tok ≡ some (name, cmds) → IsNamed tok name
unfolding split_cmd_qualifier
IsSplit-IsNamed tok name cmds e = elim (Option-cases (cut_at b':' tok)) [
  | inl bare ↦
      let same : tok ≡ name = cc (rw (bare, split_cmd_qualifier) at e) in
      inl (contains-All b':' tok (cut_at-none b':' tok bare), same)
  | inr ((front, quals), cut) ↦
      let (mask, e', done) =
        >>=-eq-some (parse_cmd_qualifier quals) _ (rw (cut, split_cmd_qualifier) at e) in
      let same : trim_back front ≡ name = cc in
      let (whole, first) = cut_at_sound b':' tok front quals cut in
      let known =
        (parse_cmd_qualifier_total quals).1 (mask, e', parse_cmd_qualifier_pos quals mask e') in
      inr (front, quals, whole, contains-All b':' front first, known, same)
]

schema_token-IsGood : (tok : Bytes) → IsSchemaToken tok → IsGood schema_token tok
unfolding schema_token
schema_token-IsGood tok (name, named, (some_byte, no_dot)) =
    let (cmds, e) = IsNamed-IsSplit tok name named in
    let filled = is_nil-ne (strip_ticks name) some_byte in
    let plain = contains-Without b'.' (strip_ticks name) no_dot in
    ((strip_ticks name, cmds), rw (e, schema_token) (rw (filled, plain) refl))

schema_token-IsSchemaToken : (tok : Bytes) → IsGood schema_token tok → IsSchemaToken tok
unfolding schema_token
schema_token-IsSchemaToken tok ((schema, cmds), e) = elim (Option-cases (split_cmd_qualifier tok)) [
  | inl bad ↦ cc (rw (bad, schema_token) at e)
  | inr ((name, mask), cut) ↦
      let e' = rw (cut, schema_token) at e in
      let same : strip_ticks name ≡ schema = ground (arith, e') in
      let some_byte : is_nil schema ≡ false = ground (arith, e') in
      let no_dot : contains b'.' schema ≡ false = ground (arith, e') in
      let part : IsPart schema = (is_nil-false schema some_byte, contains-All b'.' schema no_dot) in
      (name, IsSplit-IsNamed tok name mask cut, subst IsPart (sym same) part)
]

strip_ticks-ne : (s : Bytes) → strip_ticks s ≢ [] → s ≢ []
unfolding strip_ticks
strip_ticks-ne s h e = h (ap strip_ticks e)

add_target_good :
    (schema table : Bytes) (cmds : ℕ)
    → schema ≢ []
    → table ≢ []
    → (t : Target) × (add_target schema table cmds ≡ some t)
unfolding add_target
add_target_good schema table cmds hs ht =
    rw (is_nil-ne schema hs, is_nil-ne table ht)
      (if_cases (λ (o : Option Target). (t : Target) × (o ≡ some t)) (equal table (codes "*"))
        (wildcard schema cmds, refl) (exact (schema ++ (b'.' ∷ table)) cmds, refl))

table_token-IsGood : (tok : Bytes) → IsTableToken tok → IsGood table_token tok
unfolding table_token
table_token-IsGood tok (schema, table, named, no_dot, plain, some_schema, some_table) =
    let (cmds, e) = IsNamed-IsSplit tok (schema ++ (b'.' ∷ table)) named in
    let (t, added) =
      add_target_good (strip_ticks schema) (strip_ticks table) cmds some_schema some_table in
    let cut = cut_at-append b'.' schema table no_dot in
    let first = is_nil-ne schema (strip_ticks-ne schema some_schema) in
    let second = is_nil-ne table (strip_ticks-ne table some_table) in
    let third = contains-Without b'.' table plain in
    (t, rw (table_token, e) (rw cut (rw (first, second, third) added)))

table_token-IsTableToken : (tok : Bytes) → IsGood table_token tok → IsTableToken tok
unfolding table_token
table_token-IsTableToken tok (t, e) =
    let ((name, cmds), cut, e') = >>=-eq-some (split_cmd_qualifier tok) _ e in
    let ((schema, table), at_dot, e'') = >>=-eq-some (cut_at b'.' name) _ e' in
    let added : add_target (strip_ticks schema) (strip_ticks table) cmds ≡ some t =
      ground (arith, e'') in
    let no_dot : contains b'.' table ≡ false = ground (arith, e'') in
    let (some_schema, some_table, _) = add_target-cases _ _ cmds t added in
    let (whole, first) = cut_at_sound b'.' name schema table at_dot in
    (
      schema,
      table,
      subst (IsNamed tok) whole (IsSplit-IsNamed tok name cmds cut),
      contains-All b'.' schema first,
      contains-All b'.' table no_dot,
      is_nil-false _ some_schema,
      is_nil-false _ some_table,
    )

-- `parse_filter_lists` succeeds exactly if every token of the schema list is a schema and every token
-- of the table list a schema, a dot and a table, each with or without a qualifier: the name in front
-- of the colon, without backticks round its parts, has no empty part and no further dot, and the
-- tokens between the bars behind the colon all name a command or a group.
pub parse_filter_lists_iff :
    (s t : Option Bytes) (out : FilterRules)
    → (All IsSchemaToken (split_csv s) × All IsTableToken (split_csv t))
      ↔ ((rules : FilterRules) × (parse_filter_lists s t out ≡ parsed rules))
parse_filter_lists_iff s t out =
    let (to, from) = parse_filter_lists_total s t out in
    (
      (λ h. to (
        All-mono schema_token-IsGood (split_csv s) h.0,
        All-mono table_token-IsGood (split_csv t) h.1,
      )),
      (λ r.
          let (hs, ht) = from r in
          (
            All-mono schema_token-IsSchemaToken (split_csv s) hs,
            All-mono table_token-IsTableToken (split_csv t) ht,
          )),
    )
