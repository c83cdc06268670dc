-- ===== src/Plugin/Status/Selected.antt =====
-- What the texts of the filter variables say of a statement, and what the rules made of them say.
use mysql_selective_trace_pl.Common.{
  ℕ, ◌≡◌, ◌≢◌, ◌↔◌, ◌⊎◌, false, some, List, [], ◌∷◌, Any, Bytes, iff_trans, or_map_left,
  or_map_right, iff_refl,
}
use mysql_selective_trace_pl.Engine.Rules.{FilterRules}
use mysql_selective_trace_pl.Engine.Match.{match_table}
use mysql_selective_trace_pl.Plugin.Statement.{is_internal_stats_table}
use mysql_selective_trace_pl.Plugin.Filters.{Filters}
use mysql_selective_trace_pl.Plugin.Filters.Meaning.{
  SelectsSchema, SelectsTable, SelectsConnection, Answers,
}
use mysql_selective_trace_pl.Plugin.Status.Bits.{some-HasBit, not_HasBit_zero}
use mysql_selective_trace_pl.Plugin.Status.Allowed.{FallsBack}
use mysql_selective_trace_pl.Plugin.Status.Accesses.{Grants}

-- The texts of the variables select bit `k` of a table access; the server's statistics tables are
-- selected by their schema only if an entry names them.
abbrev pub SelectsAccess : Filters → ℕ → Bytes × Bytes → Type 0
SelectsAccess f k (db, tbl) =
    SelectsTable f k db tbl
    ⊎ (SelectsSchema f k db
        × ((is_internal_stats_table db tbl ≡ false) ⊎ ((j : ℕ) × SelectsTable f j db tbl)))

-- They select a statement with these accesses, on this connection and in this schema.
abbrev pub Selects : Filters → ℕ → List (Bytes × Bytes) → ℕ → Bytes → Type 0
Selects f k accs id db =
    Any (SelectsAccess f k) accs ⊎ (SelectsConnection f id ⊎ SelectsSchema f k db)

pub or_iff : {A A' B B' : Type 0} → A ↔ A' → B ↔ B' → (A ⊎ B) ↔ (A' ⊎ B')
or_iff f g = iff_trans (or_map_left f) (or_map_right g)

and_iff : {A A' B B' : Type 0} → A ↔ A' → B ↔ B' → (A × B) ↔ (A' × B')
and_iff f g = ((λ h. (f.0 h.0, g.0 h.1)), (λ h. (f.1 h.0, g.1 h.1)))

pub Any-iff :
    {A : Type 0} {P Q : A → Type 0} (xs : List A) → ((x : A) → P x ↔ Q x) → Any P xs ↔ Any Q xs
Any-iff [] f = iff_refl
Any-iff (x ∷ xs) f = or_iff (f x) (Any-iff xs f)

explicit_iff :
    (f : Filters) (rules : FilterRules) (db tbl : Bytes)
    → Answers f rules
    → (match_table rules (some db) (some tbl) ≢ 0) ↔ ((j : ℕ) × SelectsTable f j db tbl)
explicit_iff f rules db tbl a =
    let mask = match_table rules (some db) (some tbl) in
    (
      λ h. let (j, found) = some-HasBit mask h in (j, (a.table j db tbl).0 found),
      λ h. not_HasBit_zero h.0 mask ((a.table h.0 db tbl).1 h.1),
    )

pub Grants-iff :
    (f : Filters) (rules : FilterRules) (k : ℕ)
    → Answers f rules
    → (acc : Bytes × Bytes) → Grants rules k acc ↔ SelectsAccess f k acc
Grants-iff f rules k a (db, tbl) =
    or_iff (a.table k db tbl)
      (and_iff (a.schema k db) (or_map_right (explicit_iff f rules db tbl a)))

pub FallsBack-iff :
    (f : Filters) (rules : FilterRules) (k id : ℕ) (db : Bytes)
    → Answers f rules
    → FallsBack rules id db k ↔ (SelectsConnection f id ⊎ SelectsSchema f k db)
FallsBack-iff f rules k id db a = or_iff (a.connection id) (a.schema k db)
