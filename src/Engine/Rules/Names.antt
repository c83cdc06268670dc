-- ===== src/Engine/Rules/Names.antt =====
-- Names: the case-insensitive comparisons of core/filter_engine.cc.
use mysql_selective_trace_pl.Common.{
  suc, ◌+◌, ◌≡◌, refl, ap, ◌∙◌, ◌↔◌, Bool, true, false, not, Option, none, some, [], ◌∷◌, ◌++◌, map,
  append-nil, arith, ◌==◌, if◌then◌else◌, ◌>>=◌, is_some, >>=-eq-some, is_some-eq-true, length,
  length-append, Bytes,
}
use mysql_selective_trace_pl.Engine.Chars.{ascii_lower}

abbrev pub lower : Bytes → Bytes
lower = map ascii_lower

-- `for (i = 0; i < len; i++)`, over two texts of one length
ci_eq_loop : Bytes → Bytes → Bool
ci_eq_loop [] s = true
ci_eq_loop (x ∷ entry) [] = true
ci_eq_loop (x ∷ entry) (c ∷ s) = if not (x == ascii_lower c) then false else ci_eq_loop entry s

unfoldable pub ci_eq : Bytes → Bytes → Bool
unfolding ci_eq_loop
ci_eq entry s = if not (length entry == length s) then false else ci_eq_loop entry s

-- The loop over `db` or `table` from `entry[i]` on: what is left of the entry, or `none` at the
-- first difference. The caller has checked the length, so the entry does not end within the loop.
skip_folded : Bytes → Bytes → Option Bytes
skip_folded entry [] = some entry
skip_folded [] (c ∷ s) = none
skip_folded (x ∷ entry) (c ∷ s) = if not (x == ascii_lower c) then none else skip_folded entry s

skip_dot : Bytes → Option Bytes
skip_dot [] = none
skip_dot (x ∷ entry) = if not (x == b'.') then none else some entry

-- the three steps behind the length test
qualified_rest : Bytes → Bytes → Bytes → Option Bytes
unfolding skip_folded skip_dot
qualified_rest entry db table = do
  at_dot ← skip_folded entry db
  at_table ← skip_dot at_dot
  skip_folded at_table table

unfoldable pub ci_eq_qualified : Bytes → Bytes → Bytes → Bool
unfolding qualified_rest
ci_eq_qualified entry db table =
    if not (length entry == length db + 1 + length table)
    then false
    else is_some (qualified_rest entry db table)

ci_eq_loop_iff :
    (entry s : Bytes) → length entry ≡ length s → (ci_eq_loop entry s ≡ true) ↔ (entry ≡ lower s)
unfolding ci_eq_loop
ci_eq_loop_iff [] [] h = ground arith
ci_eq_loop_iff [] (c ∷ s) h = absurd (omega arith)
ci_eq_loop_iff (x ∷ entry) [] h = absurd (omega arith)
ci_eq_loop_iff (x ∷ entry) (c ∷ s) h = ground (arith, ci_eq_loop_iff entry s)

length-lower : (s : Bytes) → length (lower s) ≡ length s
length-lower [] = refl
length-lower (c ∷ s) = ap suc (length-lower s)

length_of_lower : (entry s : Bytes) → entry ≡ lower s → length entry ≡ length s
length_of_lower entry s e = ap length e ∙ length-lower s

-- `ci_eq` decides whether the entry is the text folded to lower case.
pub ci_eq_iff : (entry s : Bytes) → (ci_eq entry s ≡ true) ↔ (entry ≡ lower s)
unfolding ci_eq
ci_eq_iff entry s = ground (arith, ci_eq_loop_iff entry s, length_of_lower entry s)

skip_folded_sound :
    (entry s rest : Bytes) → skip_folded entry s ≡ some rest → entry ≡ lower s ++ rest
unfolding skip_folded
skip_folded_sound entry [] rest h = ground arith
skip_folded_sound [] (c ∷ s) rest h = ground arith
skip_folded_sound (x ∷ entry) (c ∷ s) rest h = ground (arith, skip_folded_sound entry s rest)

skip_folded-append : (s rest : Bytes) → skip_folded (lower s ++ rest) s ≡ some rest
unfolding skip_folded
skip_folded-append [] rest = refl
skip_folded-append (c ∷ s) rest = ground (arith, skip_folded-append s rest)

abbrev pub qualified : Bytes → Bytes → Bytes
qualified db table = lower db ++ (b'.' ∷ lower table)

length-qualified :
    (db table rest : Bytes)
    → length (lower db ++ (b'.' ∷ (lower table ++ rest)))
      ≡ length db + 1 + length table + length rest
length-qualified db table rest = omega (
  arith,
  length-append (lower db) (b'.' ∷ (lower table ++ rest)),
  length-append (lower table) rest,
  length-lower db,
  length-lower table,
)

skip_dot_sound : (entry rest : Bytes) → skip_dot entry ≡ some rest → entry ≡ b'.' ∷ rest
unfolding skip_dot
skip_dot_sound [] rest h = cc
skip_dot_sound (x ∷ entry) rest h = ground arith

qualified_rest_sound :
    (entry db table rest : Bytes)
    → qualified_rest entry db table ≡ some rest
    → entry ≡ lower db ++ (b'.' ∷ (lower table ++ rest))
unfolding qualified_rest
qualified_rest_sound entry db table rest h =
    let (at_dot, first, h') = >>=-eq-some (skip_folded entry db) _ h in
    let (at_table, second, third) = >>=-eq-some (skip_dot at_dot) _ h' in
    cc (
      skip_folded_sound entry db at_dot first,
      skip_dot_sound at_dot at_table second,
      skip_folded_sound at_table table rest third,
    )

qualified_rest_complete :
    (db table : Bytes) → qualified_rest (qualified db table) db table ≡ some []
unfolding qualified_rest
qualified_rest_complete db table =
    rw (skip_folded-append db (b'.' ∷ lower table))
      (unfold skip_dot in rw (← append-nil (lower table)) (skip_folded-append table []))

nil_of_length : (rest : Bytes) → length rest ≡ 0 → rest ≡ []
nil_of_length [] h = refl
nil_of_length (x ∷ rest) h = absurd (omega arith)

ci_eq_qualified_sound :
    (entry db table : Bytes) → ci_eq_qualified entry db table ≡ true → entry ≡ qualified db table
unfolding ci_eq_qualified
ci_eq_qualified_sound entry db table h =
    let sizes : length entry ≡ length db + 1 + length table = ground arith in
    let found : is_some (qualified_rest entry db table) ≡ true = ground arith in
    let (rest, e) = is_some-eq-true (qualified_rest entry db table) found in
    let whole = qualified_rest_sound entry db table rest e in
    let ended =
      nil_of_length rest (omega (arith, ap length whole, length-qualified db table rest)) in
    cc (whole, ended, append-nil (lower table))

ci_eq_qualified_complete : (db table : Bytes) → ci_eq_qualified (qualified db table) db table ≡ true
unfolding ci_eq_qualified
ci_eq_qualified_complete db table =
    let ended = ap (λ t. length (lower db ++ (b'.' ∷ t))) (append-nil (lower table)) in
    let sizes : length (qualified db table) ≡ length db + 1 + length table =
      omega (arith, length-qualified db table [], ended) in
    ground (arith, qualified_rest_complete db table)

-- `ci_eq_qualified` decides whether the entry is the folded schema, a dot and the folded table.
pub ci_eq_qualified_iff :
    (entry db table : Bytes)
    → (ci_eq_qualified entry db table ≡ true) ↔ (entry ≡ qualified db table)
ci_eq_qualified_iff entry db table =
    (ci_eq_qualified_sound entry db table, λ e. rw e (ci_eq_qualified_complete db table))
