-- ===== src/Plugin/Filters.antt =====
-- The filter variables of src/selective_trace_mysql.cc: `check_filter_list`, `check_connections`,
-- `rebuild_rules_locked` and `update_filter_list`. Whether `new (std::nothrow)` gives memory is an
-- argument. The lock makes an update one step.
pub mod Current
pub mod Changes
pub mod Meaning
pub mod Shown
pub mod Tests
use mysql_selective_trace_pl.Common.{
  ℕ, zero, suc, ◌+◌, ◌-◌, ◌*◌, ◌/◌, ◌%◌, ◌^◌, ◌≤◌, ◌<◌, bit_and, bit_or, ◌≡◌, refl, sym, ap, ◌∙◌,
  ◌≢◌, ◌↔◌, ◌⊎◌, inl, inr, Bool, true, false, not, ◌&&◌, ◌||◌, Option, none, some, List, [], ◌∷◌,
  ◌++◌, map, append-nil, append_assoc, map-append, arith, ltb, leb, ◌==◌, if◌then◌else◌, ==_iff,
  ltb→lt, leb→le, Bool-cases, if_cases, if_split, Option-cases, ◌>>=◌, is_some, >>=-eq-some,
  is_some-eq-true, length, is_nil, take, drop, length-append, All, All-append, All-append_inv,
  All-change, All-mono, Any, Any-append, Any-change, Any-concat, Distinct, Distinct-concat, get_or,
  append_each, append_each-append, append_each-cons, append_each-All, Bytes, prepend, codes, equal,
  equal_iff, contains, cut_at, split_on, split_on-ne-nil, cut_at_sound, cut_at-none, contains-All,
  add_front, split_on_sep, split_on_other, iff_trans, iff_sym, or_assoc, or_map_left, or_map_right,
  or_absurd_left, or_absurd_right, iff_refl, and_map_right,
}
use mysql_selective_trace_pl.Engine.Rules.{FilterRules, no_rules}
use mysql_selective_trace_pl.Engine.Parse.{Parsed, parsed, refused, parse_filter_lists}
use mysql_selective_trace_pl.Engine.Connections.{parse_connection_list}

-- `enum filter_kind`
pub data FilterKind : Type 0 where
  schemas tables connections : FilterKind

-- the texts that the three variables show, and the rules in force
pub record Filters : Type 0 where
  pub schemas_storage : Bytes
  pub tables_storage : Bytes
  pub connections_storage : Bytes
  pub active_rules : Option FilterRules

-- a verdict on the parsed lists, with the value that `*save` gets
abbrev verdict : Option Bytes → Parsed FilterRules → Parsed (Option Bytes)
verdict str (parsed _) = parsed str
verdict str (refused bad_token) = refused bad_token

-- 0 with `*save`, or 1 with the token that the error message names
unfoldable pub check_filter_list : Bool → Option Bytes → Parsed (Option Bytes)
check_filter_list is_table_list none = parsed none
check_filter_list is_table_list (some str) = verdict (some str) (
    if is_table_list
    then parse_filter_lists none (some str) no_rules
    else parse_filter_lists (some str) none no_rules)

unfoldable pub check_connections : Option Bytes → Parsed (Option Bytes)
check_connections none = parsed none
check_connections (some str) = verdict (some str) (parse_connection_list (some str) no_rules)

-- `check_schemas`, `check_tables` and `check_connections`
unfoldable pub check : FilterKind → Option Bytes → Parsed (Option Bytes)
unfolding check_filter_list check_connections
check schemas str = check_filter_list false str
check tables str = check_filter_list true str
check connections str = check_connections str

-- The rules of the three texts: both parsers on one fresh set of rules.
unfoldable pub parse_rules : Option Bytes → Option Bytes → Option Bytes → Parsed FilterRules
parse_rules schemas_csv tables_csv conns_csv =
    elim (parse_filter_lists schemas_csv tables_csv no_rules) [
      | refused tok ↦ refused tok
      | parsed fresh ↦ parse_connection_list conns_csv fresh
    ]

-- The returned number, as whether it is 1, and `active_rules`.
unfoldable pub rebuild_rules_locked :
    Bool → Bytes → Bytes → Bytes → Option FilterRules → Bool × Option FilterRules
rebuild_rules_locked allocated schemas_csv tables_csv conns_csv active =
    if allocated
    then elim (parse_rules (some schemas_csv) (some tables_csv) (some conns_csv)) [
      | refused _ ↦ (true, active)
      | parsed fresh ↦ (false, some fresh)
    ]
    else (true, active)

-- `storage->assign(new_val)`
unfoldable pub assign : FilterKind → Bytes → Filters → Filters
assign schemas new_val f = record f { schemas_storage = new_val }
assign tables new_val f = record f { tables_storage = new_val }
assign connections new_val f = record f { connections_storage = new_val }

-- a NULL is the empty text
abbrev pub or_empty : Option Bytes → Bytes
or_empty none = []
or_empty (some new_val) = new_val

unfoldable pub update_filter_list : Bool → Option Bytes → FilterKind → Filters → Filters
unfolding assign rebuild_rules_locked
update_filter_list allocated save kind f =
    let stored = assign kind (or_empty save) f in
    let (_, rules) =
      rebuild_rules_locked allocated stored.schemas_storage stored.tables_storage
        stored.connections_storage stored.active_rules in
    record stored { active_rules = rules }

-- What the server does with a SET of such a variable: the update follows a check that returned 0,
-- with the value that it saved.
unfoldable pub set_filter : Bool → FilterKind → Option Bytes → Filters → Filters
unfolding check update_filter_list
set_filter allocated kind value f = elim (check kind value) [
  | refused _ ↦ f
  | parsed save ↦ update_filter_list allocated save kind f
]
