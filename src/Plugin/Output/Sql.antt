-- ===== src/Plugin/Output/Sql.antt =====
-- The VALUES list of the INSERT, read back value by value, the way MySQL is documented to read it.
use mysql_selective_trace_pl.Common.{
  ℕ, ◌≤◌, ◌≡◌, refl, ap, ◌∙◌, ◌≢◌, ◌⊎◌, inl, Bool, true, false, Option, some, List, [], ◌∷◌, ◌++◌,
  append-nil, append_assoc, arith, if◌then◌else◌, length, length-append, All, All-mono, Bytes,
  prepend, codes,
}
use mysql_selective_trace_pl.Engine.Escape.Sql.{SqlReader, prepend_all, read-escaped}
use mysql_selective_trace_pl.Engine.Connections.Decimal.{IsDigit}
use mysql_selective_trace_pl.Engine.Escape.{sql_escape_append}
use mysql_selective_trace_pl.Plugin.Output.{
  ℤ, print_unsigned, print_int, Double, Entry, sql_duration, sql_tables, sql_values,
}
use mysql_selective_trace_pl.Plugin.Output.Numbers.{
  length-print_unsigned, print_unsigned-IsDigit, length-print_int, print_int-IsIntByte, IsIntByte,
  numbuf_fits,
}
use mysql_selective_trace_pl.Plugin.Output.Reader.{
  Kind, text, number, read_number, read_value, add_value, read_values, columns, IsPlain, IsInner,
}

prepend_all-some : (v t : Bytes) → prepend_all v (some ([], t)) ≡ some (v, t)
prepend_all-some [] t = refl
prepend_all-some (c ∷ v) t = ap (prepend c) (prepend_all-some v t)

prepend_all-append :
    (u v : Bytes) (r : Option (Bytes × Bytes))
    → prepend_all (u ++ v) r ≡ prepend_all u (prepend_all v r)
prepend_all-append [] v r = refl
prepend_all-append (c ∷ u) v r = ap (prepend c) (prepend_all-append u v r)

read_number-append :
    (s : Bytes) (c : ℕ) (t : Bytes)
    → All IsInner s
    → (c ≡ b',') ⊎ (c ≡ b')')
    → read_number (s ++ c ∷ t) ≡ (s, c ∷ t)
read_number-append [] c t h e = ground arith
read_number-append (d ∷ s) c t h e =
    let rest = read_number-append s c t h.1 e in let first = h.0 in ground (arith, rest, first)

-- the text of the tables as the reader of the table sees it
abbrev pub shown_tables : Bytes → Bool → Bytes
shown_tables [] truncated = []
shown_tables (c ∷ tables) truncated = (c ∷ tables) ++ (if truncated then codes ",..." else [])

dots-IsPlain : All IsPlain (codes ",...")
dots-IsPlain = ground arith

digits-IsInner : (n : ℕ) → All IsInner (print_unsigned n)
digits-IsInner n =
    All-mono {P = IsDigit} {Q = IsInner} (λ c d. ground arith) (print_unsigned n)
      (print_unsigned-IsDigit n)

int-IsInner : (z : ℤ) → All IsInner (print_int z)
int-IsInner z =
    All-mono {P = IsIntByte} {Q = IsInner} (λ c d. ground arith) (print_int z)
      (print_int-IsIntByte z)

ids_fit :
    (n m : ℕ)
    → length (codes "'," ++ (print_unsigned n ++ (codes "," ++ (print_unsigned m ++ codes ",'"))))
      ≤ 63
ids_fit n m = omega (
  arith,
  length-print_unsigned n,
  length-print_unsigned m,
  length-append (print_unsigned n) (codes "," ++ (print_unsigned m ++ codes ",'")),
  length-append (print_unsigned m) (codes ",'"),
)

code_fits : (z : ℤ) → length (codes "," ++ (print_int z ++ codes ",'")) ≤ 63
code_fits z = omega (arith, length-print_int z, length-append (print_int z) (codes ",'"))

-- the list without the buffer: the numbers fit in `numbuf`
flat :
    {W : Type 0} (double : Double W) (e : Entry W)
    → sql_values double e ≡ (
        b'\''
        ∷ (e.ts
            ++ b'\''
              ∷ b','
              ∷ (print_unsigned e.thread_id
                  ++ b','
                    ∷ (print_unsigned e.local_seq
                        ++ b','
                          ∷ b'\''
                          ∷ (sql_escape_append [] e.user_host
                              ++ b'\''
                                ∷ b','
                                ∷ b'\''
                                ∷ (sql_escape_append [] e.db
                                    ++ b'\''
                                      ∷ b','
                                      ∷ b'\''
                                      ∷ (sql_tables e.tables e.tables_truncated
                                          ++ b'\''
                                            ∷ b','
                                            ∷ b'\''
                                            ∷ (e.command
                                                ++ b'\''
                                                  ∷ b','
                                                  ∷ (sql_duration double e.duration_ms
                                                      ++ b','
                                                        ∷ (print_int e.error_code
                                                            ++ b','
                                                            ∷ b'\''
                                                            ∷ (sql_escape_append [] e.query
                                                            ++ b'\'' ∷ b')' ∷ [])))))))))))
unfolding sql_values
flat double e = rw (
  numbuf_fits _ (ids_fit e.thread_id e.local_seq),
  numbuf_fits _ (code_fits e.error_code),
  append_assoc (print_unsigned e.thread_id),
  append_assoc (print_unsigned e.local_seq),
  append_assoc (print_int e.error_code),
)

module _ (server : SqlReader) where
  read-plain : (s t : Bytes) → All IsPlain s → server.read (s ++ t) ≡ prepend_all s (server.read t)
  read-plain [] t h = refl
  read-plain (c ∷ s) t h = server.plain c (s ++ t) h.0.0 h.0.1 ∙ ap (prepend c) (read-plain s t h.1)

  -- a body that is read as `v`, with the quote and the separator behind it
  closed :
      (body v : Bytes) (c : ℕ) (rest : Bytes)
      → ((t : Bytes) → server.read (body ++ t) ≡ prepend_all v (server.read t))
      → c ≢ b'\''
      → server.read (body ++ b'\'' ∷ c ∷ rest) ≡ some (v, c ∷ rest)
  closed body v c rest h n = rw (h, server.closes c rest n, prepend_all-some)

  value_step :
      (kind k : Kind) (kinds : List Kind) (s v rest : Bytes)
      → read_value server kind s ≡ some (v, b',' ∷ rest)
      → read_values server (kind ∷ k ∷ kinds) s ≡ add_value v (read_values server (k ∷ kinds) rest)
  value_step kind k kinds s v rest h = rw (read_values, h)

  text_step :
      (body v : Bytes) (k : Kind) (kinds : List Kind) (rest : Bytes)
      → ((t : Bytes) → server.read (body ++ t) ≡ prepend_all v (server.read t))
      → read_values server (text ∷ k ∷ kinds) (b'\'' ∷ (body ++ b'\'' ∷ b',' ∷ rest))
        ≡ add_value v (read_values server (k ∷ kinds) rest)
  text_step body v k kinds rest h =
      value_step text k kinds (b'\'' ∷ (body ++ b'\'' ∷ b',' ∷ rest)) v rest
        (closed body v b',' rest h (λ e. absurd (omega arith)))

  last_step :
      (body v : Bytes)
      → ((t : Bytes) → server.read (body ++ t) ≡ prepend_all v (server.read t))
      → read_values server (text ∷ []) (b'\'' ∷ (body ++ b'\'' ∷ b')' ∷ [])) ≡ some (v ∷ [])
  last_step body v h = rw (closed body v b')' [] h (λ e. absurd (omega arith)))

  number_step :
      (s : Bytes) (k : Kind) (kinds : List Kind) (rest : Bytes)
      → All IsInner s
      → read_values server (number ∷ k ∷ kinds) (s ++ b',' ∷ rest)
        ≡ add_value s (read_values server (k ∷ kinds) rest)
  number_step s k kinds rest h =
      value_step number k kinds (s ++ b',' ∷ rest) s rest
        (ap some (read_number-append s b',' rest h (inl refl)))

  read-tables :
      (tables : Bytes) (truncated : Bool) (t : Bytes)
      → server.read (sql_tables tables truncated ++ t)
        ≡ prepend_all (shown_tables tables truncated) (server.read t)
  unfolding sql_tables
  read-tables [] truncated t = refl
  read-tables (c ∷ tables) true t = rw (
    append_assoc,
    read-escaped server (c ∷ tables) (codes ",..." ++ t),
    prepend_all-append (c ∷ tables) (codes ",...") (server.read t),
    read-plain (codes ",...") t dots-IsPlain,
  )
  read-tables (c ∷ tables) false t = rw (
    append-nil (sql_escape_append [] (c ∷ tables)),
    append-nil tables,
    read-escaped server (c ∷ tables) t,
  )

  -- For every event: if the time stamp and the command hold no quote and no backslash, and the
  -- printed duration no comma and no parenthesis, the server reads the VALUES list as exactly ten
  -- values and nothing more, and these are the time stamp, the two numbers, the user with its host,
  -- the schema, the tables, the command, the duration, the error code and the query as traced: no
  -- byte of a traced text can end its literal or add a value.
  pub sql_values_lem :
      {W : Type 0} (double : Double W) (e : Entry W)
      → All IsPlain e.ts
      → All IsPlain e.command
      → All IsInner (sql_duration double e.duration_ms)
      → read_values server columns (sql_values double e)
        ≡ some (
            e.ts
            ∷ print_unsigned e.thread_id
            ∷ print_unsigned e.local_seq
            ∷ e.user_host
            ∷ e.db
            ∷ shown_tables e.tables e.tables_truncated
            ∷ e.command
            ∷ sql_duration double e.duration_ms
            ∷ print_int e.error_code
            ∷ e.query
            ∷ [])
  sql_values_lem double e plain_ts plain_command inner = rw (
    flat double e,
    text_step e.ts e.ts number _ _ (λ t. read-plain e.ts t plain_ts),
    number_step (print_unsigned e.thread_id) number _ _ (digits-IsInner e.thread_id),
    number_step (print_unsigned e.local_seq) text _ _ (digits-IsInner e.local_seq),
    text_step (sql_escape_append [] e.user_host) e.user_host text _ _
        (read-escaped server e.user_host),
    text_step (sql_escape_append [] e.db) e.db text _ _ (read-escaped server e.db),
    text_step (sql_tables e.tables e.tables_truncated) (shown_tables e.tables e.tables_truncated)
        text _ _ (read-tables e.tables e.tables_truncated),
    text_step e.command e.command number _ _ (λ t. read-plain e.command t plain_command),
    number_step (sql_duration double e.duration_ms) number _ _ inner,
    number_step (print_int e.error_code) text _ _ (int-IsInner e.error_code),
    last_step (sql_escape_append [] e.query) e.query (read-escaped server e.query),
  )
