-- ===== src/Engine/Escape/Tests.antt =====
-- Runs of the two escaping functions, and their theorems at concrete inputs.
use mysql_selective_trace_pl.Common.{
  ℕ, ◌≡◌, refl, ◌≢◌, Option, none, some, [], ◌∷◌, ◌++◌, arith, ◌==◌, if◌then◌else◌, Bytes, prepend,
  codes,
}
use mysql_selective_trace_pl.Engine.Escape.{json_escape_append, sql_escape_append}
use mysql_selective_trace_pl.Engine.Escape.Json.{read_json, read_json-json_escape_append}
use mysql_selective_trace_pl.Engine.Escape.Sql.{SqlReader, unescaped, read-sql_escape_append}

json_run : json_escape_append (codes "q:") (codes "a\"b\n" ++ 1 ∷ []) ≡ codes "q:a\\\"b\\n\\u0001"
unfolding json_escape_append
json_run = refl

sql_run : sql_escape_append [] (codes "a'b\\") ≡ codes "a\\'b\\\\"
unfolding sql_escape_append
sql_run = refl

-- A reader with the documented behaviour, `''` included.
pub data Mode : Type 0 where
  text slash quote : Mode

pub sql_read : Mode → Bytes → Option (Bytes × Bytes)
sql_read quote [] = some ([], [])
sql_read m [] = none
sql_read text (c ∷ s) =
    let close = sql_read quote s in
    let escape = sql_read slash s in
    let more = prepend c (sql_read text s) in
    if c == b'\'' then close else if c == b'\\' then escape else more
sql_read slash (c ∷ s) = prepend (unescaped c) (sql_read text s)
sql_read quote (c ∷ s) =
    let more = prepend c (sql_read text s) in if c == b'\'' then more else some ([], c ∷ s)

pub sql_read_closes :
    (c : ℕ) (rest : Bytes) → c ≢ b'\'' → sql_read text (b'\'' ∷ c ∷ rest) ≡ some ([], c ∷ rest)
unfolding sql_read
sql_read_closes c rest h = ground arith

pub sql_read_plain :
    (c : ℕ) (rest : Bytes)
    → c ≢ b'\''
    → c ≢ b'\\'
    → sql_read text (c ∷ rest) ≡ prepend c (sql_read text rest)
unfolding sql_read
sql_read_plain c rest h k = ground arith

abbrev pub reader : SqlReader
unfolding sql_read
reader = record {
  read = sql_read text;
  closes = sql_read_closes;
  escapes = λ c rest h. refl;
  plain = sql_read_plain;
}

read_json-json_escape_append_example :
    (body : Bytes) × (json_escape_append (codes "\"") (codes "it\"s\n") ≡ codes "\"" ++ body)
    × (read_json (body ++ (b'"' ∷ codes ",")) ≡ some (codes "it\"s\n", codes ","))
read_json-json_escape_append_example =
    read_json-json_escape_append (codes "\"") (codes "it\"s\n") (codes ",")

read-sql_escape_append_example :
    (body : Bytes) × (sql_escape_append (codes "('") (codes "x'); DROP TABLE t; --")
      ≡ codes "('" ++ body)
    × (reader.read (body ++ (b'\'' ∷ b')' ∷ [])) ≡ some (codes "x'); DROP TABLE t; --", b')' ∷ []))
read-sql_escape_append_example =
    read-sql_escape_append reader (codes "('") (codes "x'); DROP TABLE t; --") b')' [] (omega arith)
