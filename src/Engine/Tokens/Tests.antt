-- ===== src/Engine/Tokens/Tests.antt =====
-- Runs of the token helpers, and their theorems at concrete inputs.
use mysql_selective_trace_pl.Common.{
  ◌≡◌, refl, ◌↔◌, none, some, [], ◌∷◌, Any, Bytes, codes, equal, cut_at, split_on,
}
use mysql_selective_trace_pl.Common.Bits.{HasBit}
use mysql_selective_trace_pl.Engine.Chars.{ascii_lower, is_space}
use mysql_selective_trace_pl.Engine.Cmd
use mysql_selective_trace_pl.Engine.Tokens.{
  clean_token, strip_ticks, split_csv, parse_cmd_qualifier, split_cmd_qualifier, trim_front,
  trim_back,
}
use mysql_selective_trace_pl.Engine.Tokens.Qualifier.{Adds, parse_cmd_qualifier_iff}

clean_run : clean_token (codes " \tSales ") ≡ codes "sales"
unfolding clean_token trim_front trim_back ascii_lower is_space
clean_run = refl

ticks_run : (strip_ticks (codes "`a`") ≡ codes "a") × (strip_ticks (codes "`") ≡ codes "`")
unfolding strip_ticks
ticks_run = (refl, refl)

csv_run : split_csv (some (codes "a,, B ,")) ≡ codes "a" ∷ codes "b" ∷ []
unfolding split_csv clean_token trim_front trim_back ascii_lower is_space
csv_run = refl

abbrev quals : Bytes
quals = codes "insert | dml"

quals_run : parse_cmd_qualifier quals ≡ some Cmd.dml
unfolding parse_cmd_qualifier split_on equal trim_front trim_back is_space
quals_run = refl

bad_quals_run : parse_cmd_qualifier (codes "insert|") ≡ none
unfolding parse_cmd_qualifier split_on equal trim_front trim_back is_space
bad_quals_run = refl

bare_run : split_cmd_qualifier (codes "sales") ≡ some (codes "sales", Cmd.all)
unfolding split_cmd_qualifier cut_at
bare_run = refl

parse_cmd_qualifier_iff_example : HasBit 1 Cmd.dml ↔ Any (Adds 1) (split_on b'|' quals)
parse_cmd_qualifier_iff_example = parse_cmd_qualifier_iff quals Cmd.dml 1 quals_run
