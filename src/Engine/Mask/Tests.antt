-- ===== src/Engine/Mask/Tests.antt =====
-- Masked queries, secrets in forms that the code does not handle, and the theorems at concrete
-- inputs.
use mysql_selective_trace_pl.Common.{
  ℕ, ◌≤◌, ◌≡◌, refl, inl, inr, true, false, none, some, [], ◌++◌, Bytes, codes, arith,
}
use Prim.Native.String.{String}
use mysql_selective_trace_pl.Engine.Chars.{is_space, is_ident_char, up}
use mysql_selective_trace_pl.Engine.Mask.{
  kw_at, behind, is_separator, starts_hex, mask_loop, mask_secrets,
}
use mysql_selective_trace_pl.Engine.Mask.Hide.{Quiet}
use mysql_selective_trace_pl.Engine.Mask.Copy.{mask_secrets-copies, Ends, mask_loop-Ends}
use mysql_selective_trace_pl.Engine.Mask.Secrets.{quoted, mask_secrets-password}
use mysql_selective_trace_pl.Engine.Mask.Identified.{Unconnected, mask_secrets-identified}

abbrev MaskedTo : String → String → Type 0
MaskedTo query out = mask_secrets (codes query) ≡ (codes out, true)

identified_by : MaskedTo "create user u identified by 'a\\'b'" "create user u identified by '***'"
unfolding mask_secrets is_ident_char up is_space
identified_by = refl

identified_password :
    MaskedTo "GRANT ALL ON *.* TO u IDENTIFIED WITH p AS PASSWORD 'x' q"
      "GRANT ALL ON *.* TO u IDENTIFIED WITH p AS PASSWORD '***' q"
unfolding mask_secrets is_ident_char up is_space
identified_password = refl

hash_value : MaskedTo "SET PASSWORD = 0xAbC1" "SET PASSWORD = 0x***"
unfolding mask_secrets is_ident_char up is_space
hash_value = refl

nothing_masked :
    mask_secrets (codes "select 'x', mypassword") ≡ (codes "select 'x', mypassword", false)
unfolding mask_secrets is_ident_char up is_space
nothing_masked = refl

-- a user between PASSWORD and the literal: the header of mask_secrets lists SET PASSWORD ... = '...'
password_for_kept :
    mask_secrets (codes "SET PASSWORD FOR u = 'x'") ≡ (codes "SET PASSWORD FOR u = 'x'", false)
unfolding mask_secrets is_ident_char up is_space
password_for_kept = refl

-- the name of the plugin in quotes: its name is masked in place of the secret
plugin_quoted :
    MaskedTo "ALTER USER u IDENTIFIED WITH 'p' BY 'x'" "ALTER USER u IDENTIFIED WITH '***' BY 'x'"
unfolding mask_secrets is_ident_char up is_space
plugin_quoted = refl

-- a quote that is doubled inside of the literal ends the masking
doubled_quote : MaskedTo "SET PASSWORD = 'a''b'" "SET PASSWORD = '***''b'"
unfolding mask_secrets is_ident_char up is_space
doubled_quote = refl

-- the other form of a hash that the comment above mask_following_quote names
hex_literal_kept :
    mask_secrets (codes "SET PASSWORD = X'1F'") ≡ (codes "SET PASSWORD = X'1F'", false)
unfolding mask_secrets is_ident_char up is_space
hex_literal_kept = refl

mask_secrets-copies_example : (mask_secrets (codes "select 'x'")).0 ≡ codes "select 'x'"
unfolding mask_secrets is_ident_char up is_space
mask_secrets-copies_example = mask_secrets-copies (codes "select 'x'") refl

abbrev set_text : Bytes
set_text = codes "SET "

abbrev set_follow : Bytes
set_follow = codes "Password" ++ (codes "=('" ++ codes "s3\\'cret');")

set_text-Quiet : Quiet none set_text set_follow
unfolding kw_at behind is_ident_char up
set_text-Quiet =
    ((refl, refl, refl), ((refl, refl, refl), ((refl, refl, refl), ((refl, refl, refl), tt))))

mask_secrets-password_example : mask_secrets (codes "SET Password=('s3\\'cret');") ≡ (
  codes "SET " ++ ((codes "Password" ++ codes "=(") ++ quoted b'\'' (codes "***") (codes ");")),
  true,
)
unfolding mask_secrets is_ident_char up is_space is_separator
mask_secrets-password_example =
    mask_secrets-password set_text b'P' (codes "assword") (codes "=(") b'\'' (codes "s3\\'cret")
      (codes ");") set_text-Quiet refl (inl refl) (refl, (refl, tt)) (inl refl) refl

abbrev by_follow : Bytes
by_follow = codes "by" ++ (codes " " ++ quoted b'"' (codes "x'y") (codes " x"))

mid-Unconnected : Unconnected (some b'd') (codes " ") by_follow
unfolding kw_at behind is_ident_char up starts_hex
mid-Unconnected = (refl, refl, refl, refl, refl, tt)

mask_secrets-identified_example : mask_secrets (codes "identified by \"x'y\" x") ≡ (
  []
      ++ ((codes "identified" ++ (codes " " ++ codes "by"))
          ++ (codes " " ++ quoted b'"' (codes "***") (codes " x"))),
  true,
)
unfolding mask_secrets is_ident_char up is_space is_separator
mask_secrets-identified_example =
    mask_secrets-identified [] b'i' (codes "dentified") (codes " ") b'b' (codes "y") (codes " ")
      b'"' (codes "x'y") (codes " x") tt refl refl refl mid-Unconnected refl (inl refl) (refl, tt)
      (inr refl) refl

mask_loop-Ends_example :
    (n : ℕ) × (n ≤ 18)
    × Ends n (none, codes "set password = 'x'") (mask_loop 30 (none, codes "set password = 'x'"))
mask_loop-Ends_example = mask_loop-Ends 30 (none, codes "set password = 'x'") (omega arith)
