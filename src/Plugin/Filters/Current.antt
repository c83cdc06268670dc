-- ===== src/Plugin/Filters/Current.antt =====
-- The rules in force are those of the texts that the variables show.
use mysql_selective_trace_pl.Common.{
  ℕ, ◌≡◌, refl, sym, inl, inr, Bool, true, Option, none, some, List, [], All, Bytes,
}
use mathlib.Core.Path.{subst}
use mysql_selective_trace_pl.Engine.Rules.{FilterRules, no_rules}
use mysql_selective_trace_pl.Engine.Tokens.{split_csv, clean_token, trim_back, trim_front}
use mysql_selective_trace_pl.Engine.Parse.{parsed, schema_token, table_token, parse_filter_lists}
use mysql_selective_trace_pl.Engine.Parse.Errors.{IsGood, parse_filter_lists_total}
use mysql_selective_trace_pl.Engine.Parse.Matches.{Parsed-cases}
use mysql_selective_trace_pl.Engine.Connections.{parse_connection_list, parse_ids, sort, unique}
use mysql_selective_trace_pl.Engine.Connections.Ids.{parse_connection_list_inv}
use mysql_selective_trace_pl.Plugin.Filters.{
  FilterKind, schemas, tables, connections, Filters, check_filter_list, check_connections, check,
  parse_rules, rebuild_rules_locked, assign, or_empty, update_filter_list,
}

split_csv-or_empty : (value : Option Bytes) → split_csv (some (or_empty value)) ≡ split_csv value
unfolding split_csv clean_token trim_back trim_front
split_csv-or_empty none = refl
split_csv-or_empty (some s) = refl

-- Every token of a list of connections is read as an id.
abbrev pub GoodIds : Bytes → Type 0
GoodIds csv = (ids : List ℕ) × (parse_ids [] (split_csv (some csv)) ≡ parsed ids)

-- All three texts are well formed.
pub record IsGoodText (s t c : Bytes) : Type 0 where
  pub schema_tokens : All (IsGood schema_token) (split_csv (some s))
  pub table_tokens : All (IsGood table_token) (split_csv (some t))
  pub ids : GoodIds c

pub parse_connection_list_good :
    (csv : Bytes) (out : FilterRules)
    → GoodIds csv
    → (rules : FilterRules) × (parse_connection_list (some csv) out ≡ parsed rules)
unfolding parse_connection_list
parse_connection_list_good csv out (ids, e) =
    (record out { connections = unique (sort ids) }, rw (e, parse_connection_list) refl)

-- Well formed texts have rules.
pub parse_rules_good :
    (s t c : Bytes)
    → IsGoodText s t c
    → (rules : FilterRules) × (parse_rules (some s) (some t) (some c) ≡ parsed rules)
unfolding parse_rules
parse_rules_good s t c g =
    let (fresh, e) =
      (parse_filter_lists_total (some s) (some t) no_rules).0 (g.schema_tokens, g.table_tokens) in
    let (rules, e') = parse_connection_list_good c fresh g.ids in (rules, rw (e, parse_rules) e')

pub parse_rules_inv :
    (s t c : Bytes) (rules : FilterRules)
    → parse_rules (some s) (some t) (some c) ≡ parsed rules
    → (fresh : FilterRules) × (parse_filter_lists (some s) (some t) no_rules ≡ parsed fresh)
      × (parse_connection_list (some c) fresh ≡ parsed rules)
unfolding parse_rules
parse_rules_inv s t c rules e =
    elim (Parsed-cases (parse_filter_lists (some s) (some t) no_rules)) [
      | inl (tok, bad) ↦ cc (rw (bad, parse_rules) at e)
      | inr (fresh, good) ↦ (fresh, good, rw (good, parse_rules) at e)
    ]

pub parse_rules-IsGoodText :
    (s t c : Bytes) (rules : FilterRules)
    → parse_rules (some s) (some t) (some c) ≡ parsed rules
    → IsGoodText s t c
parse_rules-IsGoodText s t c rules e =
    let (fresh, lists, conns) = parse_rules_inv s t c rules e in
    let (hs, ht) = (parse_filter_lists_total (some s) (some t) no_rules).1 (fresh, lists) in
    let (ids, looped, _) = parse_connection_list_inv (some c) fresh rules conns in
    record { schema_tokens = hs; table_tokens = ht; ids = (ids, looped) }

-- A value that is well formed for its variable.
abbrev pub GoodValue : FilterKind → Option Bytes → Type 0
GoodValue schemas value = All (IsGood schema_token) (split_csv value)
GoodValue tables value = All (IsGood table_token) (split_csv value)
GoodValue connections value = GoodIds (or_empty value)

no_ids : GoodIds []
unfolding split_csv clean_token trim_back trim_front parse_ids
no_ids = ([], refl)

pub check_good :
    (kind : FilterKind) (value save : Option Bytes)
    → check kind value ≡ parsed save
    → (value ≡ save) × GoodValue kind value
unfolding check check_filter_list check_connections split_csv
check_good schemas none save e = (cc, tt)
check_good tables none save e = (cc, tt)
check_good connections none save e = (cc, no_ids)
check_good schemas (some str) save e =
    elim (Parsed-cases (parse_filter_lists (some str) none no_rules)) [
      | inl (tok, bad) ↦ cc (rw bad at e)
      | inr (rules, good) ↦ (
        cc (rw good at e),
        ((parse_filter_lists_total (some str) none no_rules).1 (rules, good)).0,
      )
    ]
check_good tables (some str) save e =
    elim (Parsed-cases (parse_filter_lists none (some str) no_rules)) [
      | inl (tok, bad) ↦ cc (rw bad at e)
      | inr (rules, good) ↦ (
        cc (rw good at e),
        ((parse_filter_lists_total none (some str) no_rules).1 (rules, good)).1,
      )
    ]
check_good connections (some str) save e =
    elim (Parsed-cases (parse_connection_list (some str) no_rules)) [
      | inl (tok, bad) ↦ cc (rw bad at e)
      | inr (rules, good) ↦
          let (ids, looped, _) = parse_connection_list_inv (some str) no_rules rules good in
          (cc (rw good at e), (ids, looped))
    ]

abbrev pub AllGood : Filters → Type 0
AllGood f = IsGoodText f.schemas_storage f.tables_storage f.connections_storage

pub assign-AllGood :
    (kind : FilterKind) (value : Option Bytes) (f : Filters)
    → GoodValue kind value
    → AllGood f
    → AllGood (assign kind (or_empty value) f)
unfolding assign
assign-AllGood schemas value f v g = record {
  schema_tokens = subst (All (IsGood schema_token)) (sym (split_csv-or_empty value)) v;
  table_tokens = g.table_tokens;
  ids = g.ids;
}
assign-AllGood tables value f v g = record {
  schema_tokens = g.schema_tokens;
  table_tokens = subst (All (IsGood table_token)) (sym (split_csv-or_empty value)) v;
  ids = g.ids;
}
assign-AllGood connections value f v g = record {
  schema_tokens = g.schema_tokens;
  table_tokens = g.table_tokens;
  ids = v;
}

-- The rules in force are those of the three texts.
pub record IsCurrent (f : Filters) : Type 0 where
  pub rules : FilterRules
  pub active : f.active_rules ≡ some rules
  pub made :
      parse_rules (some f.schemas_storage) (some f.tables_storage) (some f.connections_storage)
      ≡ parsed rules

-- The rules that are built if there is memory for them are those of the texts.
pub update-IsCurrent :
    (save : Option Bytes) (kind : FilterKind) (f : Filters)
    → AllGood (assign kind (or_empty save) f)
    → IsCurrent (update_filter_list true save kind f)
unfolding update_filter_list rebuild_rules_locked
update-IsCurrent save kind f g =
    let (rules, e) = parse_rules_good _ _ _ g in
    record { rules = rules; active = rw (e, rebuild_rules_locked) refl; made = e }

-- Without memory the text is stored all the same.
pub update-AllGood :
    (has_memory : Bool) (save : Option Bytes) (kind : FilterKind) (f : Filters)
    → AllGood (assign kind (or_empty save) f)
    → AllGood (update_filter_list has_memory save kind f)
unfolding update_filter_list
update-AllGood has_memory save schemas f g = g
update-AllGood has_memory save tables f g = g
update-AllGood has_memory save connections f g = g
