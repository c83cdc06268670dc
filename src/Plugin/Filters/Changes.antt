-- ===== src/Plugin/Filters/Changes.antt =====
-- SETs of the filter variables that follow each other, each with or without memory for new rules.
use mysql_selective_trace_pl.Common.{
  ◌≡◌, sym, inl, inr, Bool, true, false, Option, List, [], ◌∷◌, if◌then◌else◌, Bytes,
}
use mathlib.Core.Path.{subst}
use mysql_selective_trace_pl.Engine.Parse.{parsed, refused}
use mysql_selective_trace_pl.Engine.Parse.Matches.{Parsed-cases}
use mysql_selective_trace_pl.Plugin.Filters.{
  FilterKind, Filters, check, update_filter_list, set_filter,
}
use mysql_selective_trace_pl.Plugin.Filters.Current.{
  GoodValue, check_good, AllGood, assign-AllGood, IsCurrent, update-IsCurrent, update-AllGood,
  parse_rules-IsGoodText,
}

-- A SET of a variable: whether there is memory for new rules, the variable and the value.
abbrev pub Change : Type 0
Change = Bool × FilterKind × Option Bytes

-- SETs that follow each other
unfoldable pub set_filters : List Change → Filters → Filters
set_filters [] f = f
set_filters ((has_memory, kind, value) ∷ changes) f =
    set_filters changes (set_filter has_memory kind value f)

-- whether the variable takes the value
abbrev pub accepts : FilterKind → Option Bytes → Bool
accepts kind value = elim (check kind value) [ refused tok ↦ false | parsed save ↦ true ]

-- Whether the last SET that was accepted found memory for its rules; `settled` if there was none.
abbrev pub is_settled : Bool → List Change → Bool
is_settled settled [] = settled
is_settled settled ((has_memory, kind, value) ∷ changes) =
    is_settled (if accepts kind value then has_memory else settled) changes

-- The texts are well formed, and if the SETs are settled, the rules in force are those of the texts.
record Stands (settled : Bool) (f : Filters) : Type 0 where
  texts : AllGood f
  current : settled ≡ true → IsCurrent f

set_filter-Stands :
    (settled has_memory : Bool) (kind : FilterKind) (value : Option Bytes) (f : Filters)
    → Stands settled f
    → Stands
        (if accepts kind value then has_memory else settled)
        (set_filter has_memory kind value f)
unfolding set_filter
set_filter-Stands settled has_memory kind value f v = elim (Parsed-cases (check kind value)) [
  | inl (tok, bad) ↦ rw (bad, accepts, set_filter) v
  | inr (save, good) ↦
      let (same, well) = check_good kind value save good in
      let after = assign-AllGood kind save f (subst (GoodValue kind) same well) v.texts in
      rw (good, accepts, set_filter)
        (record {
          texts = update-AllGood has_memory save kind f after;
          current = λ e.
              subst (λ m. IsCurrent (update_filter_list m save kind f)) (sym e)
                (update-IsCurrent save kind f after);
        })
]

set_filters-Stands :
    (changes : List Change) (settled : Bool) (f : Filters)
    → Stands settled f
    → Stands (is_settled settled changes) (set_filters changes f)
unfolding set_filters
set_filters-Stands [] settled f v = v
set_filters-Stands ((has_memory, kind, value) ∷ changes) settled f v =
    set_filters-Stands changes (if accepts kind value then has_memory else settled)
      (set_filter has_memory kind value f) (set_filter-Stands settled has_memory kind value f v)

pub set_filters-IsCurrent :
    (changes : List Change) (f : Filters)
    → IsCurrent f
    → is_settled true changes ≡ true
    → IsCurrent (set_filters changes f)
set_filters-IsCurrent changes f v e =
    let texts = parse_rules-IsGoodText _ _ _ v.rules v.made in
    (set_filters-Stands changes true f (record { texts = texts; current = λ _. v })).current e
