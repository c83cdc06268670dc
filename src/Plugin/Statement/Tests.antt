-- ===== src/Plugin/Statement/Tests.antt =====
-- Events of a connection, and the theorems at concrete inputs.
use mysql_selective_trace_pl.Common.{
  ◌≡◌, refl, inl, inr, none, List, [], ◌∷◌, arith, Bytes, codes, equal, contains, cut_at,
}
use mysql_selective_trace_pl.Engine.Chars.{is_space, ascii_lower}
use mysql_selective_trace_pl.Engine.Command.{extract_command}
use mysql_selective_trace_pl.Plugin.Statement.{
  fresh_state, GeneralEvent, track_current_db, state_add_table, handle_table_access_event,
}
use mysql_selective_trace_pl.Plugin.Statement.Fits.{
  IsListing, Lists, add_tables, add_tables-IsListing, add_tables-Lists,
}
use mysql_selective_trace_pl.Plugin.Statement.Schema.{Tracks, track_current_db-Tracks}

abbrev query_event : Bytes → GeneralEvent
query_event query = record { general_command = codes "Query"; general_query = query }

use_backticks :
    (track_current_db fresh_state (query_event (codes " use  `my db`;"))).current_db ≡ codes "my db"
unfolding track_current_db extract_command equal is_space
use_backticks = refl

-- The comment above the second scan says that a comment in front leaves the schema unchanged; a word
-- of the comment may be taken for it.
use_behind_comment :
    (track_current_db fresh_state (query_event (codes "/* v2 */ USE shop"))).current_db ≡ codes "v2"
unfolding track_current_db extract_command equal is_space
use_behind_comment = refl

abbrev accesses : List (Bytes × Bytes)
accesses = (codes "a", codes "t") ∷ (codes "b", codes "t") ∷ (codes "a", codes "t") ∷ []

three_accesses : (add_tables fresh_state accesses).tables ≡ codes "a.t,b.t"
unfolding state_add_table cut_at equal
three_accesses = refl

stats_skipped :
    (handle_table_access_event none 5 fresh_state
      (codes "MySQL")
      (codes "innodb_table_stats")).tables
    ≡ []
unfolding handle_table_access_event equal ascii_lower
stats_skipped = refl

fresh-IsListing : IsListing fresh_state
fresh-IsListing = record { fits = omega arith; distinct = tt }

track_current_db-Tracks_example :
    Tracks fresh_state (track_current_db fresh_state (query_event (codes "USE shop")))
track_current_db-Tracks_example =
    track_current_db-Tracks fresh_state (query_event (codes "USE shop")) (omega arith)

add_tables-IsListing_example : IsListing (add_tables fresh_state accesses)
unfolding contains
add_tables-IsListing_example =
    add_tables-IsListing accesses fresh_state (refl, (refl, (refl, tt))) fresh-IsListing

add_tables-Lists_example : Lists (add_tables fresh_state accesses) (codes "b.t")
unfolding contains state_add_table cut_at equal
add_tables-Lists_example =
    add_tables-Lists accesses fresh_state (codes "b.t") (refl, (refl, (refl, tt))) refl
      (inr (inr (inl refl)))
