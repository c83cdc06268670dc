-- ===== src/Engine/Match.antt =====
-- `match_schema` and `match_table` of core/filter_engine.cc, and what a mask that they return
-- says about the rules. A NULL pointer is `none`.
pub mod Tests
use mysql_selective_trace_pl.Common.{
  ℕ, zero, suc, ◌+◌, ◌-◌, ◌*◌, ◌/◌, ◌%◌, ◌^◌, ◌≤◌, ◌<◌, bit_and, bit_or, ◌≡◌, refl, sym, ap, ◌∙◌,
  ◌≢◌, ◌↔◌, ◌⊎◌, inl, inr, Bool, true, false, not, ◌&&◌, ◌||◌, Option, none, some, List, [], ◌∷◌,
  ◌++◌, map, append-nil, append_assoc, map-append, arith, ltb, leb, ◌==◌, if◌then◌else◌, ==_iff,
  ltb→lt, leb→le, Bool-cases, Option-cases, ◌>>=◌, is_some, >>=-eq-some, is_some-eq-true, length,
  take, drop, length-append, All, All-append, All-change, Any, Any-append, Any-change, Any-concat,
  Distinct, Distinct-concat, get_or, append_each, append_each-append, append_each-cons,
  append_each-All, Bytes, prepend, codes, equal, equal_iff, iff_trans, iff_sym, or_assoc,
  or_map_left, or_map_right, or_absurd_left,
}
use mathlib.Core.List.{cons-ne-nil}
use mysql_selective_trace_pl.Common.Bits.{HasBit, HasBit-bit_or, not_HasBit-zero}
use mysql_selective_trace_pl.Engine.Rules.{
  FilterEntry, FilterRules, Grants, lower, qualified, ci_eq, ci_eq_iff, ci_eq_qualified,
  ci_eq_qualified_iff,
}

-- `for (…) if (test(list[i].name)) cmds |= list[i].cmds`
join_matching : (Bytes → Bool) → ℕ → List FilterEntry → ℕ
join_matching test cmds [] = cmds
join_matching test cmds (e ∷ list) =
    join_matching test (if test e.name then bit_or cmds e.cmds else cmds) list

unfoldable pub match_schema : FilterRules → Option Bytes → ℕ
unfolding join_matching
match_schema rules none = 0
match_schema rules (some []) = 0
match_schema rules (some (c ∷ cs)) =
    let db = c ∷ cs in
    let cmds = join_matching (λ name. ci_eq name db) 0 rules.schemas in
    join_matching (λ name. ci_eq name db) cmds rules.wildcard_schemas

unfoldable pub match_table : FilterRules → Option Bytes → Option Bytes → ℕ
unfolding join_matching
match_table rules none table = 0
match_table rules (some db) none = 0
match_table rules (some []) (some table) = 0
match_table rules (some (c ∷ cs)) (some []) = 0
match_table rules (some (c ∷ cs)) (some (t ∷ ts)) =
    let db = c ∷ cs in
    let cmds = join_matching (λ name. ci_eq name db) 0 rules.wildcard_schemas in
    join_matching (λ name. ci_eq_qualified name db (t ∷ ts)) cmds rules.tables

module _ (test : Bytes → Bool) (name : Bytes) (decides : (n : Bytes) → (test n ≡ true) ↔ (n ≡ name))
    (k : ℕ) where
  join_one_iff :
      (cmds : ℕ) (e : FilterEntry)
      → HasBit k (if test e.name then bit_or cmds e.cmds else cmds)
        ↔ (HasBit k cmds ⊎ Grants name k e)
  join_one_iff cmds e = elim (Bool-cases (test e.name)) [
    | inl hit ↦
        let same : e.name ≡ name = (decides e.name).0 hit in
        rw hit
          (iff_trans (HasBit-bit_or k cmds e.cmds) (or_map_right ((λ b. (same, b)), (λ g. g.1))))
    | inr miss ↦
        rw miss
          ((λ b. inl b), (λ g. elim g [ inl b ↦ b | inr g ↦ cc ((decides e.name).1 g.0, miss) ]))
  ]

  -- A bit of the joined mask comes from the mask at the start or from an entry of that name.
  join_matching_iff :
      (cmds : ℕ) (list : List FilterEntry)
      → HasBit k (join_matching test cmds list) ↔ (HasBit k cmds ⊎ Any (Grants name k) list)
  unfolding join_matching
  join_matching_iff cmds [] = ((λ b. inl b), (λ g. elim g [ inl b ↦ b | inr r ↦ absurd r ]))
  join_matching_iff cmds (e ∷ list) =
      iff_trans (join_matching_iff (if test e.name then bit_or cmds e.cmds else cmds) list)
        (iff_trans (or_map_left (join_one_iff cmds e)) or_assoc)

-- Two loops, from the empty mask.
join_twice_iff :
    (f g : Bytes → Bool) (m n : Bytes)
    → ((x : Bytes) → (f x ≡ true) ↔ (x ≡ m))
    → ((x : Bytes) → (g x ≡ true) ↔ (x ≡ n))
    → (k : ℕ) (xs ys : List FilterEntry)
    → HasBit k (join_matching g (join_matching f 0 xs) ys)
      ↔ (Any (Grants m k) xs ⊎ Any (Grants n k) ys)
join_twice_iff f g m n hf hg k xs ys =
    iff_trans (join_matching_iff g n hg k _ ys) (
      or_map_left
        (iff_trans (join_matching_iff f m hf k 0 xs) (or_absurd_left (not_HasBit-zero k))))

-- `match_schema` returns a mask with bit `k` exactly if a schema is given, not empty, and an entry
-- of the schema list or of the wildcard list has the folded name and that bit.
pub match_schema_iff :
    (rules : FilterRules) (db : Bytes) (k : ℕ)
    → (HasBit k (match_schema rules (some db)) ↔ (
        (db ≢ [])
        × (Any (Grants (lower db) k) rules.schemas
            ⊎ Any (Grants (lower db) k) rules.wildcard_schemas)))
      × (match_schema rules none ≡ 0)
unfolding match_schema
match_schema_iff rules [] k =
    (((λ b. absurd (not_HasBit-zero k b)), (λ h. absurd (h.0 refl))), refl)
match_schema_iff rules (c ∷ cs) k =
    let db = c ∷ cs in
    let loops =
      join_twice_iff (λ n. ci_eq n db) (λ n. ci_eq n db) (lower db) (lower db) (λ n. ci_eq_iff n db)
        (λ n. ci_eq_iff n db) k rules.schemas rules.wildcard_schemas in
    (((λ b. (cons-ne-nil c cs, loops.0 b)), (λ h. loops.1 h.1)), refl)

-- `match_table` returns a mask with bit `k` exactly if both names are given, neither is empty, and
-- a wildcard entry has the folded schema's name, or a table entry the folded qualified name, and
-- that bit.
pub match_table_iff :
    (rules : FilterRules) (db table : Bytes) (k : ℕ)
    → (HasBit k (match_table rules (some db) (some table)) ↔ (
        (db ≢ [])
        × (table ≢ [])
        × (Any (Grants (lower db) k) rules.wildcard_schemas
            ⊎ Any (Grants (qualified db table) k) rules.tables)))
      × (match_table rules none (some table) ≡ 0)
      × (match_table rules (some db) none ≡ 0)
unfolding match_table
match_table_iff rules [] table k =
    (((λ b. absurd (not_HasBit-zero k b)), (λ h. absurd (h.0 refl))), refl, refl)
match_table_iff rules (c ∷ cs) [] k =
    (((λ b. absurd (not_HasBit-zero k b)), (λ h. absurd (h.1 refl))), refl, refl)
match_table_iff rules (c ∷ cs) (t ∷ ts) k =
    let db = c ∷ cs in
    let table = t ∷ ts in
    let loops =
      join_twice_iff (λ n. ci_eq n db) (λ n. ci_eq_qualified n db table) (lower db)
        (qualified db table) (λ n. ci_eq_iff n db) (λ n. ci_eq_qualified_iff n db table) k
        rules.wildcard_schemas rules.tables in
    (((λ b. (cons-ne-nil c cs, cons-ne-nil t ts, loops.0 b)), (λ h. loops.1 h.2)), refl, refl)
