-- ===== src/Plugin/Filters/Shown.antt =====
-- What a SET of a filter variable does to the texts that the variables show.
use mysql_selective_trace_pl.Common.{
  ◌≡◌, refl, sym, ◌⊎◌, inl, inr, Bool, true, false, Option, none, some, if◌then◌else◌, Bytes,
}
use mathlib.Core.Path.{subst}
use mysql_selective_trace_pl.Engine.Rules.{no_rules}
use mysql_selective_trace_pl.Engine.Tokens.{split_csv}
use mysql_selective_trace_pl.Engine.Parse.{refused}
use mysql_selective_trace_pl.Engine.Parse.Errors.{parse_filter_lists_total}
use mysql_selective_trace_pl.Engine.Parse.Matches.{Parsed-cases}
use mysql_selective_trace_pl.Plugin.Filters.{
  FilterKind, schemas, tables, connections, Filters, check_filter_list, check_connections, check,
  assign, or_empty, update_filter_list, set_filter,
}
use mysql_selective_trace_pl.Plugin.Filters.Current.{
  GoodValue, check_good, parse_connection_list_good,
}

-- the text that a variable shows
abbrev pub text_of : FilterKind → Filters → Bytes
text_of schemas f = f.schemas_storage
text_of tables f = f.tables_storage
text_of connections f = f.connections_storage

not_good :
    (kind : FilterKind) (value : Option Bytes) (tok : Bytes)
    → check kind value ≡ refused tok
    → ¬ GoodValue kind value
unfolding check check_filter_list check_connections split_csv
not_good schemas none tok e g = cc e
not_good tables none tok e g = cc e
not_good connections none tok e g = cc e
not_good schemas (some str) tok e g =
    let (rules, good) = (parse_filter_lists_total (some str) none no_rules).0 (g, tt) in
    cc (rw good at e)
not_good tables (some str) tok e g =
    let (rules, good) = (parse_filter_lists_total none (some str) no_rules).0 (tt, g) in
    cc (rw good at e)
not_good connections (some str) tok e g =
    let (rules, good) = parse_connection_list_good str no_rules g in cc (rw good at e)

abbrev pub is_same : FilterKind → FilterKind → Bool
is_same schemas schemas = true
is_same schemas tables = false
is_same schemas connections = false
is_same tables schemas = false
is_same tables tables = true
is_same tables connections = false
is_same connections schemas = false
is_same connections tables = false
is_same connections connections = true

-- This variable shows the value, and the two others what they showed.
abbrev pub Shows : FilterKind → Option Bytes → Filters → Filters → Type 0
Shows kind value f g =
    (any : FilterKind)
    → text_of any g ≡ (if is_same kind any then or_empty value else text_of any f)

update-Shows :
    (allocated : Bool) (kind : FilterKind) (value : Option Bytes) (f : Filters)
    → Shows kind value f (update_filter_list allocated value kind f)
unfolding update_filter_list assign
update-Shows allocated schemas value f schemas = refl
update-Shows allocated schemas value f tables = refl
update-Shows allocated schemas value f connections = refl
update-Shows allocated tables value f schemas = refl
update-Shows allocated tables value f tables = refl
update-Shows allocated tables value f connections = refl
update-Shows allocated connections value f schemas = refl
update-Shows allocated connections value f tables = refl
update-Shows allocated connections value f connections = refl

-- A SET of a filter variable either has a value that is well formed, and then the variable shows it
-- (a NULL as the empty text) and the two others what they showed; or its value is not well formed,
-- and then nothing changes. A value is well formed if every one of its tokens is accepted.
pub set_filter_cases :
    (allocated : Bool) (kind : FilterKind) (value : Option Bytes) (f : Filters)
    → (GoodValue kind value × Shows kind value f (set_filter allocated kind value f))
      ⊎ ((¬ GoodValue kind value) × (set_filter allocated kind value f ≡ f))
unfolding set_filter
set_filter_cases allocated kind value f = elim (Parsed-cases (check kind value)) [
  | inl (tok, bad) ↦ inr (not_good kind value tok bad, rw (bad, set_filter) refl)
  | inr (save, good) ↦
      let (same, well) = check_good kind value save good in
      inl (
        well,
        subst (λ g. Shows kind value f g) (sym (rw (good, set_filter) refl))
            (subst (λ v. Shows kind v f (update_filter_list allocated save kind f)) (sym same)
              (update-Shows allocated kind save f)),
      )
]
