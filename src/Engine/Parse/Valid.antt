-- ===== src/Engine/Parse/Valid.antt =====
-- The rules that `parse_filter_lists` builds are well formed.
use mysql_selective_trace_pl.Common.{
  is_nil, ℕ, ◌<◌, ◌≡◌, refl, sym, ◌≢◌, inl, inr, false, Option, some, List, [], ◌∷◌, ◌++◌, arith,
  Option-cases, >>=-eq-some, All, Distinct, Bytes, contains, cut_at, cut_at_sound, contains-All,
}
use mathlib.Core.List.{cons-ne-nil}
use mathlib.Core.Path.{subst}
use mysql_selective_trace_pl.Common.Bits.{le-bit_or}
use mysql_selective_trace_pl.Engine.Rules.{
  FilterEntry, FilterRules, IsFolded, names, add_entry, add_entry-All, add_entry-Distinct,
}
use mysql_selective_trace_pl.Engine.Tokens.{strip_ticks, split_cmd_qualifier, split_csv}
use mysql_selective_trace_pl.Engine.Tokens.Clean.{AllFolded, AllFolded-IsFolded, strip_ticks-All}
use mysql_selective_trace_pl.Engine.Tokens.Qualifier.{split_cmd_qualifier_pos}
use mysql_selective_trace_pl.Engine.Parse.{
  parsed, schema_token, Target, wildcard, exact, table_token, add_target, parse_schemas,
  parse_tables, parse_filter_lists,
}
use mysql_selective_trace_pl.Engine.Parse.Meaning.{
  schema_token-AllFolded, table_token-AllFolded, target_name, add_target-cases,
}
use mysql_selective_trace_pl.Engine.Parse.Matches.{parse_filter_lists_inv, folded_tokens}

-- An identifier: not empty, and without a dot.
abbrev pub IsPart : Bytes → Type 0
IsPart n = (n ≢ []) × All (λ c. c ≢ b'.') n

abbrev pub IsSchemaName : Bytes → Type 0
IsSchemaName n = IsFolded n × IsPart n

-- A schema, a dot and a table.
abbrev pub IsTableName : Bytes → Type 0
IsTableName n =
    IsFolded n
    × ((schema : Bytes) × (table : Bytes) × (n ≡ schema ++ (b'.' ∷ table))
        × IsPart schema
        × IsPart table)

-- A list with distinct names of one kind, each with some command.
pub record IsValidList (P : Bytes → Type 0) (list : List FilterEntry) : Type 0 where
  pub names_ok : All (λ e. P e.name × (0 < e.cmds)) list
  pub distinct : Distinct (names list)

pub record IsValid (r : FilterRules) : Type 0 where
  pub schemas_ok : IsValidList IsSchemaName r.schemas
  pub wildcards_ok : IsValidList IsSchemaName r.wildcard_schemas
  pub tables_ok : IsValidList IsTableName r.tables

add_entry-IsValidList :
    (P : Bytes → Type 0) (list : List FilterEntry) (name : Bytes) (cmds : ℕ)
    → IsFolded name
    → P name
    → 0 < cmds
    → IsValidList P list
    → IsValidList P (add_entry list name cmds)
add_entry-IsValidList P list name cmds folded p pos v = record {
  names_ok =
      add_entry-All (λ n m. P n × (0 < m)) list name cmds folded (p, pos)
        (λ n a b h. (h.0, omega (arith, le-bit_or a b, h.1))) v.names_ok;
  distinct = add_entry-Distinct list name cmds folded v.distinct;
}

pub is_nil-false : (n : Bytes) → is_nil n ≡ false → n ≢ []
is_nil-false [] h = cc
is_nil-false (c ∷ n) h = cons-ne-nil c n

schema_token-IsSchemaName :
    (tok schema : Bytes) (cmds : ℕ)
    → schema_token tok ≡ some (schema, cmds)
    → AllFolded tok
    → IsSchemaName schema × (0 < cmds)
unfolding schema_token
schema_token-IsSchemaName tok schema cmds e h = elim (Option-cases (split_cmd_qualifier tok)) [
  | inl bad ↦ cc (rw (bad, schema_token) at e)
  | inr ((name, mask), cut) ↦
      let e' = rw (cut, schema_token) at e in
      let same : strip_ticks name ≡ schema = ground (arith, e') in
      let same_mask : mask ≡ cmds = ground (arith, e') in
      let some_byte : is_nil schema ≡ false = ground (arith, e') in
      let no_dot : contains b'.' schema ≡ false = ground (arith, e') in
      let folded = schema_token-AllFolded tok schema cmds e h in
      let pos = split_cmd_qualifier_pos tok name mask cut in
      (
        (
          AllFolded-IsFolded schema folded,
          (is_nil-false schema some_byte, contains-All b'.' schema no_dot),
        ),
        omega (arith, pos),
      )
]

abbrev IsValidTarget : Target → Type 0
IsValidTarget (wildcard schema cmds) = IsSchemaName schema × (0 < cmds)
IsValidTarget (exact name cmds) = IsTableName name × (0 < cmds)

table_token-IsValidTarget :
    (tok : Bytes) (t : Target) → table_token tok ≡ some t → AllFolded tok → IsValidTarget t
unfolding table_token
table_token-IsValidTarget tok t e h =
    let ((name, cmds), cut, e') = >>=-eq-some (split_cmd_qualifier tok) _ e in
    let ((schema, table), at_dot, e'') = >>=-eq-some (cut_at b'.' name) _ e' in
    let added : add_target (strip_ticks schema) (strip_ticks table) cmds ≡ some t =
      ground (arith, e'') in
    let no_dot : contains b'.' table ≡ false = ground (arith, e'') in
    let (some_schema, some_table, cases) = add_target-cases _ _ cmds t added in
    let schema_part : IsPart (strip_ticks schema) = (
      is_nil-false _ some_schema,
      strip_ticks-All _ schema
          (contains-All b'.' schema (cut_at_sound b'.' name schema table at_dot).1),
    ) in
    let table_part : IsPart (strip_ticks table) =
      (is_nil-false _ some_table, strip_ticks-All _ table (contains-All b'.' table no_dot)) in
    let folded = AllFolded-IsFolded _ (table_token-AllFolded tok t e h) in
    let pos = split_cmd_qualifier_pos tok name cmds cut in
    elim cases [
      | inl is_wild ↦
          subst IsValidTarget (sym is_wild)
            ((subst (λ x. IsFolded (target_name x)) is_wild folded, schema_part), pos)
      | inr is_exact ↦ subst IsValidTarget (sym is_exact) (
        (
          subst (λ x. IsFolded (target_name x)) is_exact folded,
          (strip_ticks schema, strip_ticks table, refl, schema_part, table_part),
        ),
        pos,
      )
    ]

parse_schemas-IsValidList :
    (list out : List FilterEntry) (toks : List Bytes)
    → All AllFolded toks
    → parse_schemas list toks ≡ parsed out
    → IsValidList IsSchemaName list
    → IsValidList IsSchemaName out
unfolding parse_schemas
parse_schemas-IsValidList list out [] h e v =
    let same : list ≡ out = cc in subst (IsValidList IsSchemaName) same v
parse_schemas-IsValidList list out (tok ∷ toks) (f, h) e v =
    elim (Option-cases (schema_token tok)) [
      | inl bad ↦ cc (rw (bad, parse_schemas) at e)
      | inr ((schema, cmds), good) ↦
          let (ok, pos) = schema_token-IsSchemaName tok schema cmds good f in
          parse_schemas-IsValidList (add_entry list schema cmds) out toks h
            (rw (good, parse_schemas) at e)
            (add_entry-IsValidList IsSchemaName list schema cmds ok.0 ok pos v)
    ]

parse_tables-IsValidList :
    (wild tables : List FilterEntry) (toks : List Bytes) (wild' tables' : List FilterEntry)
    → All AllFolded toks
    → parse_tables wild tables toks ≡ parsed (wild', tables')
    → IsValidList IsSchemaName wild
    → IsValidList IsTableName tables
    → IsValidList IsSchemaName wild' × IsValidList IsTableName tables'
unfolding parse_tables
parse_tables-IsValidList wild tables [] wild' tables' h e v w =
    let same_wild : wild ≡ wild' = cc in
    let same_tables : tables ≡ tables' = cc in
    (subst (IsValidList IsSchemaName) same_wild v, subst (IsValidList IsTableName) same_tables w)
parse_tables-IsValidList wild tables (tok ∷ toks) wild' tables' (f, h) e v w =
    elim (Option-cases (table_token tok)) [
      | inl bad ↦ cc (rw (bad, parse_tables) at e)
      | inr (wildcard schema cmds, good) ↦
          let (ok, pos) = table_token-IsValidTarget tok (wildcard schema cmds) good f in
          parse_tables-IsValidList (add_entry wild schema cmds) tables toks wild' tables' h
            (rw (good, parse_tables) at e)
            (add_entry-IsValidList IsSchemaName wild schema cmds ok.0 ok pos v) w
      | inr (exact name cmds, good) ↦
          let (ok, pos) = table_token-IsValidTarget tok (exact name cmds) good f in
          parse_tables-IsValidList wild (add_entry tables name cmds) toks wild' tables' h
            (rw (good, parse_tables) at e) v
            (add_entry-IsValidList IsTableName tables name cmds ok.0 ok pos w)
    ]

nil-IsValidList : (P : Bytes → Type 0) → IsValidList P []
nil-IsValidList P = record { names_ok = tt; distinct = tt }

-- The rules of a successful parse are well formed: in each list the names are folded, distinct
-- and of the right shape (no dot in a schema, exactly one between the parts of a table, no part
-- empty) and no mask is empty. The connection list is the one that `*out` had.
pub parse_filter_lists-IsValid :
    (s t : Option Bytes) (out rules : FilterRules)
    → parse_filter_lists s t out ≡ parsed rules
    → IsValid rules × (rules.connections ≡ out.connections)
parse_filter_lists-IsValid s t out rules e =
    let (es, et, kept) = parse_filter_lists_inv s t out rules e in
    let (w, x) =
      parse_tables-IsValidList [] [] (split_csv t) rules.wildcard_schemas rules.tables
        (folded_tokens t) et (nil-IsValidList IsSchemaName) (nil-IsValidList IsTableName) in
    (
      record {
        schemas_ok =
            parse_schemas-IsValidList [] rules.schemas (split_csv s) (folded_tokens s) es
              (nil-IsValidList IsSchemaName);
        wildcards_ok = w;
        tables_ok = x;
      },
      kept,
    )
