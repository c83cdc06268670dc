-- ===== src/Engine/Tokens.antt =====
-- The token helpers of core/filter_engine.cc: `clean_token`, `strip_ticks`, `split_csv`,
-- `parse_cmd_qualifier` and `split_cmd_qualifier`.
pub mod Clean
pub mod Csv
pub mod Qualifier
pub mod Tests
use mysql_selective_trace_pl.Common.{
  ℕ, zero, suc, ◌+◌, ◌-◌, ◌*◌, ◌/◌, ◌%◌, ◌^◌, ◌≤◌, ◌<◌, bit_and, bit_or, ◌≡◌, refl, sym, ap, ◌∙◌,
  ◌≢◌, ◌↔◌, ◌⊎◌, inl, inr, Bool, true, false, not, ◌&&◌, ◌||◌, Option, none, some, List, [], ◌∷◌,
  ◌++◌, map, append-nil, append_assoc, map-append, arith, ltb, leb, ◌==◌, if◌then◌else◌, ==_iff,
  ltb→lt, leb→le, Bool-cases, Option-cases, ◌>>=◌, is_some, >>=-eq-some, is_some-eq-true, length,
  take, drop, length-append, All, All-append, All-change, Any, Any-append, Any-change, Any-concat,
  Distinct, Distinct-concat, get_or, append_each, append_each-append, append_each-cons,
  append_each-All, Bytes, prepend, codes, equal, equal_iff, contains, cut_at, split_on, iff_trans,
  iff_sym, or_assoc, or_map_left, or_map_right, or_absurd_left,
}
use mysql_selective_trace_pl.Engine.Chars.{ascii_lower, is_space}
use mysql_selective_trace_pl.Engine.Cmd

-- `while (b < e && is_space(raw[b])) b++`
unfoldable pub trim_front : Bytes → Bytes
trim_front [] = []
trim_front (c ∷ s) = let rest = trim_front s in if is_space c then rest else c ∷ s

-- a byte in front of text whose trailing space is gone
keep_unless_space : ℕ → Bytes → Bytes
keep_unless_space c [] = if is_space c then [] else c ∷ []
keep_unless_space c (d ∷ s) = c ∷ d ∷ s

-- `while (e > b && is_space(raw[e - 1])) e--`
unfoldable pub trim_back : Bytes → Bytes
unfolding keep_unless_space
trim_back [] = []
trim_back (c ∷ s) = keep_unless_space c (trim_back s)

unfoldable pub clean_token : Bytes → Bytes
clean_token raw = map ascii_lower (trim_back (trim_front raw))

-- a text without its last byte, and that byte
unsnoc : Bytes → Option (Bytes × ℕ)
unsnoc [] = none
unsnoc (c ∷ s) = elim (unsnoc s) [
  | none ↦ some ([], c)
  | some (front, last) ↦ some (c ∷ front, last)
]

unfoldable pub strip_ticks : Bytes → Bytes
unfolding unsnoc
strip_ticks [] = []
strip_ticks (c ∷ s) = elim (unsnoc s) [
  | none ↦ c ∷ s
  | some (middle, last) ↦ if c == b'`' && last == b'`' then middle else c ∷ s
]

unfoldable pub flush : List Bytes → Bytes → List Bytes
flush tokens [] = tokens
flush tokens (c ∷ t) = tokens ++ (c ∷ t) ∷ []

-- The loop over `p`, which ends at the NUL; a list ends there too.
split_csv_loop : Bytes → Bytes → List Bytes → List Bytes
unfolding flush
split_csv_loop [] cur tokens = flush tokens (clean_token cur)
split_csv_loop (c ∷ p) cur tokens =
    let next_token = split_csv_loop p [] (flush tokens (clean_token cur)) in
    let next_byte = split_csv_loop p (cur ++ c ∷ []) tokens in
    if c == 0 then flush tokens (clean_token cur) else if c == b',' then next_token else next_byte

unfoldable pub split_csv : Option Bytes → List Bytes
unfolding split_csv_loop
split_csv none = []
split_csv (some csv) = split_csv_loop csv [] []

-- `cmd_tokens[]`
abbrev cmd_tokens : List (Bytes × ℕ)
cmd_tokens =
    (codes "select", Cmd.select)
    ∷ (codes "insert", Cmd.insert)
    ∷ (codes "update", Cmd.update)
    ∷ (codes "delete", Cmd.delete)
    ∷ (codes "replace", Cmd.replace)
    ∷ (codes "load", Cmd.load)
    ∷ (codes "call", Cmd.call)
    ∷ (codes "create", Cmd.create)
    ∷ (codes "alter", Cmd.alter)
    ∷ (codes "drop", Cmd.drop)
    ∷ (codes "truncate", Cmd.truncate)
    ∷ (codes "rename", Cmd.rename)
    ∷ (codes "other", Cmd.other)
    ∷ (codes "commit", Cmd.commit)
    ∷ (codes "rollback", Cmd.rollback)
    ∷ (codes "begin", Cmd.begin)
    ∷ (codes "savepoint", Cmd.savepoint)
    ∷ (codes "dml", Cmd.dml)
    ∷ (codes "ddl", Cmd.ddl)
    ∷ (codes "tcl", Cmd.tcl)
    ∷ (codes "all", Cmd.all)
    ∷ []

-- `for (…) if (tok == table[i].tok) { …; break; }`
find_mask : List (Bytes × ℕ) → Bytes → Option ℕ
find_mask [] tok = none
find_mask ((name, mask) ∷ table) tok = if equal tok name then some mask else find_mask table tok

-- The mask of one token of a qualifier, spaces round it dropped.
pub token_mask : Bytes → Option ℕ
unfolding find_mask
token_mask tok = find_mask cmd_tokens (trim_back (trim_front tok))

-- The `while` loop over the tokens between bars, with `*cmds` so far.
join_masks : ℕ → List Bytes → Option ℕ
unfolding token_mask
join_masks cmds [] = some cmds
join_masks cmds (tok ∷ toks) = do mask ← token_mask tok; join_masks (bit_or cmds mask) toks

-- `none` is a return of `false`, after which no caller reads `*cmds`.
unfoldable pub parse_cmd_qualifier : Bytes → Option ℕ
unfolding join_masks
parse_cmd_qualifier quals = do
  cmds ← join_masks 0 (split_on b'|' quals)
  if cmds == 0 then none else some cmds

-- the name and the mask
unfoldable pub split_cmd_qualifier : Bytes → Option (Bytes × ℕ)
unfolding parse_cmd_qualifier
split_cmd_qualifier token = elim (cut_at b':' token) [
  | none ↦ some (token, Cmd.all)
  | some (name, quals) ↦ do cmds ← parse_cmd_qualifier quals; some (trim_back name, cmds)
]
