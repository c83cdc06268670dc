-- ===== src/Engine/Command/Tests.antt =====
-- Commands of concrete statements, and the theorems at concrete inputs.
use mysql_selective_trace_pl.Common.{
  suc, ◌≤◌, ◌<◌, ◌≡◌, refl, ap, ◌⊎◌, none, some, List, [], ◌∷◌, ◌++◌, arith, length, All, get_or,
  Bytes, codes, equal, contains,
}
use mysql_selective_trace_pl.Engine.Chars.{is_space, is_ident_char, up}
use mysql_selective_trace_pl.Engine.Cmd
use mysql_selective_trace_pl.Engine.Command.{ends_dashes, command_bit, extract_command}
use mysql_selective_trace_pl.Engine.Command.Layout.{
  Piece, space, paren, comment, version, dashes, layout, IsLayout,
}
use mysql_selective_trace_pl.Engine.Command.Word.{extract_command-layout, extract_command-start}
use mysql_selective_trace_pl.Engine.Command.Shape.{IsCommandByte, extract_command_total}

extract_comments :
    extract_command (codes " /* x */ -- y\n# z\n(/*!40101 sElect 1*/") 32 ≡ some (codes "SELECT")
unfolding extract_command equal is_space
extract_comments = refl

extract_start : extract_command (codes "start  transaction read only") 32 ≡ some (codes "BEGIN")
unfolding extract_command equal is_space
extract_start = refl

extract_replica : extract_command (codes "START REPLICA") 32 ≡ some (codes "START")
unfolding extract_command equal is_space
extract_replica = refl

extract_nothing : extract_command (codes "/* open") 4 ≡ some (codes "OTH")
unfolding extract_command equal is_space
extract_nothing = refl

with_bit : command_bit (codes "WITH") ≡ Cmd.select
unfolding command_bit equal
with_bit = refl

abbrev pieces : List Piece
pieces =
    space b' '
    ∷ comment (codes "a * b")
    ∷ dashes (codes " c")
    ∷ paren
    ∷ version (codes "80011")
    ∷ space b'\n'
    ∷ []

abbrev update_tail : Bytes
update_tail = codes " t set a = 1"

pieces-IsLayout : (rest : Bytes) → IsLayout pieces rest
unfolding is_space contains ends_dashes
pieces-IsLayout rest = (
  refl,
  (
    (refl, refl),
    ((refl, refl), (tt, (((refl, (refl, (refl, (refl, (refl, tt))))), refl), (refl, tt)))),
  ),
)

extract_command-layout_example :
    extract_command (layout pieces (codes "Update" ++ update_tail)) 32 ≡ some (codes "UPDATE")
unfolding is_ident_char up
extract_command-layout_example =
    extract_command-layout pieces b'U' (codes "pdate") update_tail 32
      (pieces-IsLayout (codes "Update" ++ update_tail))
      (refl, (refl, (refl, (refl, (refl, (refl, tt)))))) refl (omega arith) (omega arith)
      (λ e. absurd (omega (arith, ap (λ s. get_or s 0 0) e)))

extract_command-start_example :
    extract_command
      (layout pieces (codes "Start" ++ (codes " " ++ (codes "transaction" ++ codes ";"))))
      6
    ≡ some (codes "BEGIN")
unfolding up is_space
extract_command-start_example =
    extract_command-start pieces b'S' (codes "tart") b' ' [] b't' (codes "ransaction") (codes ";") 6
      (pieces-IsLayout (codes "Start" ++ (codes " " ++ (codes "transaction" ++ codes ";")))) refl
      (refl, tt) refl (omega arith)

extract_command_total_example :
    ((suc 3 ≡ 0) × (extract_command (codes "select 1") 4 ≡ none))
    ⊎ ((cmd : Bytes) × (extract_command (codes "select 1") 4 ≡ some cmd)
        × (length cmd < 4)
        × (length cmd ≤ 16)
        × All IsCommandByte cmd)
extract_command_total_example = extract_command_total (codes "select 1") 4
