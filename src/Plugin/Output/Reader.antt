-- ===== src/Plugin/Output/Reader.antt =====
-- How the server is documented to read the values of an INSERT.
use mysql_selective_trace_pl.Common.{
  ℕ, ◌≢◌, ◌||◌, Option, none, some, List, [], ◌∷◌, ◌==◌, if◌then◌else◌, is_nil, Bytes,
}
use mysql_selective_trace_pl.Engine.Escape.Sql.{SqlReader}

-- a value of the list: a '...' literal, or the bytes up to the next `,` or `)`
pub data Kind : Type 0 where
  text number : Kind

abbrev pub read_number : Bytes → Bytes × Bytes
read_number [] = ([], [])
read_number (c ∷ s) =
    let more = read_number s in if c == b',' || c == b')' then ([], c ∷ s) else (c ∷ more.0, more.1)

abbrev pub read_value : SqlReader → Kind → Bytes → Option (Bytes × Bytes)
read_value server text [] = none
read_value server text (c ∷ s) = if c == b'\'' then server.read s else none
read_value server number s = some (read_number s)

abbrev pub add_value : Bytes → Option (List Bytes) → Option (List Bytes)
add_value v none = none
add_value v (some vs) = some (v ∷ vs)

-- Values of the given kinds with `,` between them and `)` behind the last, and nothing more.
abbrev pub read_values : SqlReader → List Kind → Bytes → Option (List Bytes)
read_values server [] s = if is_nil s then some [] else none
read_values server (k ∷ kinds) s = elim (read_value server k s) [
  | none ↦ none
  | some (v, []) ↦ none
  | some (v, c ∷ rest) ↦
      (let more = add_value v (read_values server kinds rest) in
        if c == (if is_nil kinds then b')' else b',') then more else none)
]

-- the columns of the table, in the order of the statement
abbrev pub columns : List Kind
columns = text ∷ number ∷ number ∷ text ∷ text ∷ text ∷ text ∷ number ∷ number ∷ text ∷ []

-- neither a quote nor a backslash
abbrev pub IsPlain : ℕ → Type 0
IsPlain c = (c ≢ b'\'') × (c ≢ b'\\')

-- neither of the bytes that end a number
abbrev pub IsInner : ℕ → Type 0
IsInner c = (c ≢ b',') × (c ≢ b')')
