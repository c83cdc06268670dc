-- ===== src/Engine/Connections/Ids.antt =====
-- The list of ids after sorting, and what the search in it finds.
use mysql_selective_trace_pl.Common.{
  ℕ, ◌≤◌, ◌<◌, ◌≡◌, refl, ap, ◌∙◌, ◌↔◌, ◌⊎◌, inl, inr, true, false, not, Option, some, List, [],
  ◌∷◌, ◌++◌, arith, ltb, ltb→lt, Bool-cases, Option-cases, All, All-mono, Any, Any-concat, Bytes,
  iff_trans, iff_sym, or_assoc, or_map_left, or_absurd_left, or_absurd_right,
}
use mysql_selective_trace_pl.Engine.Rules.{FilterRules}
use mysql_selective_trace_pl.Engine.Tokens.{split_csv}
use mysql_selective_trace_pl.Engine.Tokens.Csv.{IsToken, split_csv-IsToken}
use mysql_selective_trace_pl.Engine.Parse.{parsed}
use mysql_selective_trace_pl.Engine.Parse.Matches.{Parsed-cases}
use mysql_selective_trace_pl.Engine.Connections.{
  connection_id, parse_ids, sort, unique, parse_connection_list, binary_search, match_connection,
}
use mysql_selective_trace_pl.Engine.Connections.Sort.{
  Holds, IsAscending, sort_iff, unique_iff, sort-IsSorted, unique-IsAscending,
}

not_Holds_below : (v : ℕ) (xs : List ℕ) → All (λ y. v < y) xs → ¬ Holds v xs
not_Holds_below v [] h m = m
not_Holds_below v (x ∷ xs) (lt, h) (inl e) = absurd (omega arith)
not_Holds_below v (x ∷ xs) (lt, h) (inr m) = not_Holds_below v xs h m

binary_search_iff :
    (xs : List ℕ) (v : ℕ) → IsAscending xs → (binary_search xs v ≡ true) ↔ Holds v xs
unfolding binary_search
binary_search_iff [] v h = ((λ e. cc), (λ m. absurd m))
binary_search_iff (x ∷ xs) v (least, h) = elim (Bool-cases (ltb x v)) [
  | inl below ↦
      let lt = ltb→lt x v below in
      rw below (
        iff_trans (binary_search_iff xs v h)
          (iff_sym (or_absurd_left (λ (e : x ≡ v). absurd (omega arith)))))
  | inr not_below ↦ rw not_below (found not_below, from not_below)
]
  where
    found : ltb x v ≡ false → not (ltb v x) ≡ true → Holds v (x ∷ xs)
    found k e = inl (ground arith)

    from : ltb x v ≡ false → Holds v (x ∷ xs) → not (ltb v x) ≡ true
    from k (inl e) = ground arith
    from k (inr m) =
        let le : v ≤ x = ground arith in
        absurd (not_Holds_below v xs (All-mono (λ y q. omega arith) xs least) m)

parse_ids_iff :
    (v : ℕ) (ids : List ℕ) (raw : List Bytes) (out : List ℕ)
    → All IsToken raw
    → parse_ids ids raw ≡ parsed out
    → Holds v out ↔ (Holds v ids ⊎ Any (λ tok. connection_id tok ≡ some v) raw)
unfolding parse_ids
parse_ids_iff v ids [] out h e = let same : ids ≡ out = cc in rw (← same) (or_absurd_right (λ r. r))
parse_ids_iff v ids ([] ∷ raw) out (t, h) e = absurd (t.0 refl)
parse_ids_iff v ids ((c ∷ tok) ∷ raw) out (t, h) e = elim (Option-cases (connection_id (c ∷ tok))) [
  | inl bad ↦ cc (rw (bad, parse_ids) at e)
  | inr (id, good) ↦
      iff_trans (parse_ids_iff v (ids ++ id ∷ []) raw out h (rw (good, parse_ids) at e))
        (iff_trans (or_map_left (Any-concat (λ x. x ≡ v) _ ids id (same_id id good))) or_assoc)
]
  where
    same_id :
        (id : ℕ) → connection_id (c ∷ tok) ≡ some id → (id ≡ v) ↔ (connection_id (c ∷ tok) ≡ some v)
    same_id id good = ((λ q. good ∙ ap some q), (λ q. cc (good, q)))

pub parse_connection_list_inv :
    (csv : Option Bytes) (out rules : FilterRules)
    → parse_connection_list csv out ≡ parsed rules
    → (ids : List ℕ) × (parse_ids [] (split_csv csv) ≡ parsed ids)
      × (rules ≡ record out { connections = unique (sort ids) })
unfolding parse_connection_list
parse_connection_list_inv csv out rules e = elim (Parsed-cases (parse_ids [] (split_csv csv))) [
  | inl (tok, bad) ↦ cc (rw (bad, parse_connection_list) at e)
  | inr (ids, good) ↦ (ids, good, cc (rw (good, parse_connection_list) at e))
]

-- With the rules of a successful parse, `match_connection` finds a connection id exactly if some
-- token of the list reads as that id. The ids are stored in ascending order with no repetition,
-- and the other three lists are those of `*out`.
pub match_connection-parse_connection_list :
    (csv : Option Bytes) (out rules : FilterRules) (id : ℕ)
    → parse_connection_list csv out ≡ parsed rules
    → ((match_connection rules id ≡ true)
        ↔ Any (λ tok. connection_id tok ≡ some id) (split_csv csv))
      × IsAscending rules.connections
      × (rules.schemas ≡ out.schemas)
      × (rules.wildcard_schemas ≡ out.wildcard_schemas)
      × (rules.tables ≡ out.tables)
unfolding match_connection
match_connection-parse_connection_list csv out rules id e =
    let (ids, looped, built) = parse_connection_list_inv csv out rules e in
    let ascending = unique-IsAscending (sort ids) (sort-IsSorted ids) in
    rw built (
      iff_trans (binary_search_iff (unique (sort ids)) id ascending) (
          iff_trans (unique_iff id (sort ids)) (
            iff_trans (sort_iff id ids) (
              iff_trans (parse_ids_iff id [] (split_csv csv) ids (split_csv-IsToken csv) looped)
                (or_absurd_left (λ r. r))))),
      ascending,
      refl,
      refl,
      refl,
    )
