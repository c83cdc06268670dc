-- ===== src/Engine/Connections.antt =====
-- `parse_connection_list` and `match_connection` of core/filter_engine.cc. Of the C++ library,
-- `std::sort` is insertion, `std::unique` drops repeated neighbours, and `std::binary_search`
-- tests the first element that is not below the value, as they are documented.
pub mod Decimal
pub mod Sort
pub mod Ids
pub mod Tests
use mysql_selective_trace_pl.Common.{
  ℕ, zero, suc, ◌+◌, ◌-◌, ◌*◌, ◌/◌, ◌%◌, ◌^◌, ◌≤◌, ◌<◌, bit_and, bit_or, ◌≡◌, refl, sym, ap, ◌∙◌,
  ◌≢◌, ◌↔◌, ◌⊎◌, inl, inr, Bool, true, false, not, ◌&&◌, ◌||◌, Option, none, some, List, [], ◌∷◌,
  ◌++◌, map, append-nil, append_assoc, map-append, arith, ltb, leb, ◌==◌, if◌then◌else◌, ==_iff,
  ltb→lt, leb→le, Bool-cases, if_cases, Option-cases, ◌>>=◌, is_some, >>=-eq-some, is_some-eq-true,
  length, take, drop, length-append, All, All-append, All-append_inv, All-change, All-mono, Any,
  Any-append, Any-change, Any-concat, Distinct, Distinct-concat, get_or, append_each,
  append_each-append, append_each-cons, append_each-All, Bytes, prepend, codes, equal, equal_iff,
  contains, cut_at, split_on, split_on-ne-nil, cut_at_sound, cut_at-none, contains-All, add_front,
  split_on_sep, split_on_other, iff_trans, iff_sym, or_assoc, or_map_left, or_map_right,
  or_absurd_left, or_absurd_right, iff_refl, and_map_right,
}
use mysql_selective_trace_pl.Engine.Rules.{FilterRules}
use mysql_selective_trace_pl.Engine.Tokens.{split_csv}
use mysql_selective_trace_pl.Engine.Parse.{Parsed, parsed, refused}

-- The inner loop over the characters, in 64-bit unsigned arithmetic; `none` is `ok == false`.
digits_value : ℕ → Bytes → Option ℕ
digits_value v [] = some v
digits_value v (c ∷ tok) =
    let rest = digits_value ((v * 10 + (c - b'0')) % 2 ^ 64) tok in
    if ltb c b'0' || ltb b'9' c then none else rest

unfoldable pub connection_id : Bytes → Option ℕ
unfolding digits_value
connection_id tok = digits_value 0 tok

-- the outer loop, with `ids` so far; an empty token is passed over
unfoldable pub parse_ids : List ℕ → List Bytes → Parsed (List ℕ)
parse_ids ids [] = parsed ids
parse_ids ids ([] ∷ raw) = parse_ids ids raw
parse_ids ids ((c ∷ tok) ∷ raw) = elim (connection_id (c ∷ tok)) [
  | none ↦ refused (c ∷ tok)
  | some v ↦ parse_ids (ids ++ v ∷ []) raw
]

insert_sorted : ℕ → List ℕ → List ℕ
insert_sorted a [] = a ∷ []
insert_sorted a (x ∷ xs) = if ltb x a then x ∷ insert_sorted a xs else a ∷ x ∷ xs

-- `std::sort`
pub sort : List ℕ → List ℕ
unfolding insert_sorted
sort [] = []
sort (x ∷ xs) = insert_sorted x (sort xs)

keep_new : ℕ → List ℕ → List ℕ
keep_new a [] = a ∷ []
keep_new a (x ∷ xs) = if a == x then x ∷ xs else a ∷ x ∷ xs

-- `ids.erase(std::unique(…), ids.end())`
pub unique : List ℕ → List ℕ
unfolding keep_new
unique [] = []
unique (x ∷ xs) = keep_new x (unique xs)

-- `*out` is left alone on failure; on success its other lists are kept.
unfoldable pub parse_connection_list : Option Bytes → FilterRules → Parsed FilterRules
unfolding parse_ids connection_id sort unique
parse_connection_list conns_csv out = elim (parse_ids [] (split_csv conns_csv)) [
  | refused tok ↦ refused tok
  | parsed ids ↦ parsed (record out { connections = unique (sort ids) })
]

-- `std::binary_search`
binary_search : List ℕ → ℕ → Bool
binary_search [] v = false
binary_search (x ∷ xs) v = if ltb x v then binary_search xs v else not (ltb v x)

unfoldable pub match_connection : FilterRules → ℕ → Bool
unfolding binary_search
match_connection rules conn_id = binary_search rules.connections conn_id
