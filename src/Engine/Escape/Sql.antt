-- ===== src/Engine/Escape/Sql.antt =====
-- What `sql_escape_append` writes is read back by MySQL as its source, and cannot end the literal.
use mysql_selective_trace_pl.Common.{
  ℕ, ◌≡◌, refl, ◌≢◌, ◌⊎◌, inl, inr, Option, some, [], ◌∷◌, ◌++◌, append_assoc, arith, ◌==◌,
  if◌then◌else◌, append_each, append_each-append, append_each-cons, Bytes, prepend,
}
use mysql_selective_trace_pl.Engine.Escape.{sql_escape_byte, sql_escape_append}

-- The part of MySQL's documentation of string literals that the escaping relies on: the byte that
-- a backslash and the next byte stand for.
abbrev pub unescaped : ℕ → ℕ
unescaped c =
    if c == b'0'
    then 0
    else if c == b'n'
    then b'\n'
    else if c == b'r'
    then b'\r'
    else if c == b'Z'
    then 26
    else c

-- What the server is documented to do with the bytes behind the opening quote of a '...' literal,
-- on a session whose sql_mode lacks NO_BACKSLASH_ESCAPES: the text read, and what follows it.
pub record SqlReader : Type 0 where
  pub read : Bytes → Option (Bytes × Bytes)
  pub closes : (c : ℕ) (rest : Bytes) → c ≢ b'\'' → read (b'\'' ∷ c ∷ rest) ≡ some ([], c ∷ rest)
  pub escapes :
      (c : ℕ) (rest : Bytes)
      → (c ≡ b'\'') ⊎ (c ≡ b'\\') ⊎ (c ≡ b'0') ⊎ (c ≡ b'n') ⊎ (c ≡ b'r') ⊎ (c ≡ b'Z')
      → read (b'\\' ∷ c ∷ rest) ≡ prepend (unescaped c) (read rest)
  pub plain :
      (c : ℕ) (rest : Bytes) → c ≢ b'\'' → c ≢ b'\\' → read (c ∷ rest) ≡ prepend c (read rest)

-- a reader's result, longer at the front by a text
abbrev pub prepend_all : Bytes → Option (Bytes × Bytes) → Option (Bytes × Bytes)
prepend_all [] r = r
prepend_all (c ∷ s) r = prepend c (prepend_all s r)

module _ (server : SqlReader) where
  read_byte : (c : ℕ) (t : Bytes) → server.read (sql_escape_byte c ++ t) ≡ prepend c (server.read t)
  unfolding sql_escape_byte
  read_byte c t = ground (
    arith,
    server.escapes b'\'' t (inl refl),
    server.escapes b'\\' t (inr (inl refl)),
    server.escapes b'0' t (inr (inr (inl refl))),
    server.escapes b'n' t (inr (inr (inr (inl refl)))),
    server.escapes b'r' t (inr (inr (inr (inr (inl refl))))),
    server.escapes b'Z' t (inr (inr (inr (inr (inr refl))))),
    server.plain c t,
  )

  -- The same for a whole text, whatever follows.
  pub read-escaped :
      (src t : Bytes)
      → server.read (sql_escape_append [] src ++ t) ≡ prepend_all src (server.read t)
  unfolding sql_escape_append
  read-escaped [] t = refl
  read-escaped (b ∷ src) t =
      rw (append_each-cons sql_escape_byte b src, append_assoc, read_byte, read-escaped src t)

  read-append_each :
      (src : Bytes) (c : ℕ) (rest : Bytes)
      → c ≢ b'\''
      → server.read (append_each sql_escape_byte [] src ++ (b'\'' ∷ c ∷ rest))
        ≡ some (src, c ∷ rest)
  read-append_each [] c rest h = server.closes c rest h
  read-append_each (b ∷ src) c rest h = rw (
    append_each-cons sql_escape_byte b src,
    append_assoc,
    read_byte,
    read-append_each src c rest h,
  )

  -- Whatever bytes the source holds, the server reads the text that `sql_escape_append` appends to
  -- `out`, up to the quote that the caller puts behind it, as exactly the source, if no second
  -- quote follows that one; `out` is kept. So a traced query cannot end the literal it stands in.
  pub read-sql_escape_append :
      (out src : Bytes) (c : ℕ) (rest : Bytes)
      → c ≢ b'\''
      → (body : Bytes) × (sql_escape_append out src ≡ out ++ body)
        × (server.read (body ++ (b'\'' ∷ c ∷ rest)) ≡ some (src, c ∷ rest))
  unfolding sql_escape_append
  read-sql_escape_append out src c rest h = (
    append_each sql_escape_byte [] src,
    append_each-append _ out src,
    read-append_each src c rest h,
  )
