-- ===== src/Engine/Parse.antt =====
-- `parse_filter_lists` of core/filter_engine.cc. Its two loops run over the tokens with the lists
-- of `rules` so far; the checks in each round are a function of the token alone.
pub mod Valid
pub mod Errors
pub mod Meaning
pub mod Matches
pub mod Grammar
pub mod Tests
use mysql_selective_trace_pl.Common.{
  is_nil, ℕ, zero, suc, ◌+◌, ◌-◌, ◌*◌, ◌/◌, ◌%◌, ◌^◌, ◌≤◌, ◌<◌, bit_and, bit_or, ◌≡◌, refl, sym, ap,
  ◌∙◌, ◌≢◌, ◌↔◌, ◌⊎◌, inl, inr, Bool, true, false, not, ◌&&◌, ◌||◌, Option, none, some, List, [],
  ◌∷◌, ◌++◌, map, append-nil, append_assoc, map-append, arith, ltb, leb, ◌==◌, if◌then◌else◌,
  ==_iff, ltb→lt, leb→le, Bool-cases, if_cases, Option-cases, ◌>>=◌, is_some, >>=-eq-some,
  is_some-eq-true, length, take, drop, length-append, All, All-append, All-append_inv, All-change,
  Any, Any-append, Any-change, Any-concat, Distinct, Distinct-concat, get_or, append_each,
  append_each-append, append_each-cons, append_each-All, Bytes, prepend, codes, equal, equal_iff,
  contains, cut_at, split_on, split_on-ne-nil, cut_at_sound, cut_at-none, add_front, split_on_sep,
  split_on_other, iff_trans, iff_sym, or_assoc, or_map_left, or_map_right, or_absurd_left,
}
use mysql_selective_trace_pl.Engine.Rules.{FilterEntry, FilterRules, add_entry}
use mysql_selective_trace_pl.Engine.Tokens.{strip_ticks, split_cmd_qualifier, split_csv}

-- The return value: true, or false with the token stored in `*error`.
pub data Parsed {ℓ} (A : Type ℓ) : Type ℓ where
  parsed : A → Parsed A
  refused : Bytes → Parsed A

-- One token of the schema list: its name and mask, or `none` where the round returns false.
unfoldable pub schema_token : Bytes → Option (Bytes × ℕ)
schema_token tok = elim (split_cmd_qualifier tok) [
  | none ↦ none
  | some (name, cmds) ↦
      let schema = strip_ticks name in
      if is_nil schema || contains b'.' schema then none else some (schema, cmds)
]

-- Where a token of the table list goes.
pub data Target : Type 0 where
  wildcard : Bytes → ℕ → Target
  exact : Bytes → ℕ → Target

-- the two parts of a table token, backticks stripped, and its mask
pub add_target : Bytes → Bytes → ℕ → Option Target
add_target schema table cmds =
    if is_nil schema || is_nil table
    then none
    else if equal table (codes "*")
    then some (wildcard schema cmds)
    else some (exact (schema ++ (b'.' ∷ table)) cmds)

-- One token of the table list. The cut at the first dot fails where there is none.
unfoldable pub table_token : Bytes → Option Target
unfolding add_target
table_token token = do
  (tok, cmds) ← split_cmd_qualifier token
  (schema, table) ← cut_at b'.' tok
  if is_nil schema || is_nil table || contains b'.' table
      then none
      else add_target (strip_ticks schema) (strip_ticks table) cmds

-- the first loop, over `rules.schemas`
pub parse_schemas : List FilterEntry → List Bytes → Parsed (List FilterEntry)
parse_schemas list [] = parsed list
parse_schemas list (tok ∷ toks) = elim (schema_token tok) [
  | none ↦ refused tok
  | some (schema, cmds) ↦ parse_schemas (add_entry list schema cmds) toks
]

-- the second loop, over `rules.wildcard_schemas` and `rules.tables`
pub parse_tables :
    List FilterEntry → List FilterEntry → List Bytes → Parsed (List FilterEntry × List FilterEntry)
parse_tables wild tables [] = parsed (wild, tables)
parse_tables wild tables (tok ∷ toks) = elim (table_token tok) [
  | none ↦ refused tok
  | some (wildcard schema cmds) ↦ parse_tables (add_entry wild schema cmds) tables toks
  | some (exact name cmds) ↦ parse_tables wild (add_entry tables name cmds) toks
]

-- `*out` is left alone on failure; on success its connection list is kept.
unfoldable pub parse_filter_lists : Option Bytes → Option Bytes → FilterRules → Parsed FilterRules
unfolding parse_schemas parse_tables schema_token table_token
parse_filter_lists schemas_csv tables_csv out = elim (parse_schemas [] (split_csv schemas_csv)) [
  | refused tok ↦ refused tok
  | parsed schemas ↦ elim (parse_tables [] [] (split_csv tables_csv)) [
    | refused tok ↦ refused tok
    | parsed (wild, tables) ↦
        parsed (record out { schemas = schemas; wildcard_schemas = wild; tables = tables })
  ]
]
