-- ===== src/Plugin/Output/Line.antt =====
-- The JSON line stays one line of the log file.
use mysql_selective_trace_pl.Common.{
  ℕ, zero, suc, ◌≤◌, ◌≡◌, refl, ◌⊎◌, inl, inr, Bool, true, false, not, ◌&&◌, Option, none, some, [],
  ◌∷◌, ◌++◌, arith, leb, if◌then◌else◌, if_cases, Option-cases, length, is_nil, take, All,
  All-append, All-mono, Bytes, codes, cut_at,
}
use mysql_selective_trace_pl.Engine.Escape.{json_escape_append}
use mysql_selective_trace_pl.Engine.Escape.Json.{json_escape_append_printable}
use mysql_selective_trace_pl.Engine.Connections.Decimal.{IsDigit}
use mysql_selective_trace_pl.Plugin.Output.{
  ℤ, print_unsigned, print_int, numbuf, Double, Entry, json_name, json_names, json_tables,
  json_duration, json_line,
}
use mysql_selective_trace_pl.Plugin.Output.Numbers.{
  print_unsigned-IsDigit, print_int-IsIntByte, IsIntByte,
}

-- not a control character
abbrev pub IsPrintable : ℕ → Type 0
IsPrintable c = 0x20 ≤ c

-- bytes that are not control characters, then one newline at the end
abbrev pub IsLine : Bytes → Type 0
IsLine [] = ⊥
IsLine (c ∷ s) = (c ≡ b'\n') × (s ≡ []) ⊎ IsPrintable c × IsLine s

IsLine-append : (s t : Bytes) → All IsPrintable s → IsLine t → IsLine (s ++ t)
IsLine-append [] t h l = l
IsLine-append (c ∷ s) t h l = inr (h.0, IsLine-append s t h.1 l)

-- whether a text holds no control character, for the literals of the source
printable : Bytes → Bool
printable [] = true
printable (c ∷ s) = leb 0x20 c && printable s

printable-IsPrintable : (s : Bytes) → printable s ≡ true → All IsPrintable s
unfolding printable
printable-IsPrintable [] e = tt
printable-IsPrintable (c ∷ s) e = (ground arith, printable-IsPrintable s (ground arith))

-- a literal of the source in front
IsLine-codes : (s t : Bytes) → printable s ≡ true → IsLine t → IsLine (s ++ t)
IsLine-codes s t e l = IsLine-append s t (printable-IsPrintable s e) l

All-take : (n : ℕ) (s : Bytes) → All IsPrintable s → All IsPrintable (take n s)
All-take zero s h = tt
All-take (suc n) [] h = tt
All-take (suc n) (c ∷ s) h = (h.0, All-take n s h.1)

numbuf-IsPrintable : (s : Bytes) → All IsPrintable s → All IsPrintable (numbuf s)
unfolding numbuf
numbuf-IsPrintable s h = All-take 63 s h

escaped-IsPrintable : (s : Bytes) → All IsPrintable (json_escape_append [] s)
escaped-IsPrintable s = json_escape_append_printable [] s tt

unsigned-IsPrintable : (n : ℕ) → All IsPrintable (print_unsigned n)
unsigned-IsPrintable n =
    All-mono {P = IsDigit} {Q = IsPrintable} (λ c d. ground arith) (print_unsigned n)
      (print_unsigned-IsDigit n)

int-IsPrintable : (z : ℤ) → All IsPrintable (print_int z)
int-IsPrintable z =
    All-mono {P = IsIntByte} {Q = IsPrintable} (λ c d. ground arith) (print_int z)
      (print_int-IsIntByte z)

append-IsPrintable :
    (s t : Bytes) → All IsPrintable s → All IsPrintable t → All IsPrintable (s ++ t)
append-IsPrintable s t p q = All-append IsPrintable s t p q

json_name-IsPrintable : (first : Bool) (name : Bytes) → All IsPrintable (json_name first name)
unfolding json_name
json_name-IsPrintable first name =
    append-IsPrintable (if first then [] else b',' ∷ []) _
      (if_cases (All IsPrintable) first tt (ground arith))
      (omega arith, append-IsPrintable _ _ (escaped-IsPrintable name) (omega arith, tt))

json_names-IsPrintable :
    (fuel : ℕ) (first : Bool) (p : Bytes) → All IsPrintable (json_names fuel first p)
unfolding json_names
json_names-IsPrintable zero first p = tt
json_names-IsPrintable (suc fuel) first [] = tt
json_names-IsPrintable (suc fuel) first (c ∷ p) = elim (Option-cases (cut_at b',' (c ∷ p))) [
  | inl e ↦ rw (All, e) (json_name-IsPrintable first (c ∷ p))
  | inr ((entry, rest), e) ↦
      rw (All, e)
        (append-IsPrintable _ _ (json_name-IsPrintable first entry)
          (json_names-IsPrintable fuel false rest))
]

-- with a known duration, its print is what the code's format gives
json_duration-IsPrintable :
    {W : Type 0} (double : Double W) (d : Option W)
    → ((w : W) → All IsPrintable (double.print w))
    → All IsPrintable (json_duration double d)
unfolding json_duration printable
json_duration-IsPrintable double none h =
    numbuf-IsPrintable _ (printable-IsPrintable (codes "\",\"duration_ms\":null") refl)
json_duration-IsPrintable double (some d) h = numbuf-IsPrintable _ (
    append-IsPrintable (codes "\",\"duration_ms\":") (double.print d)
      (printable-IsPrintable (codes "\",\"duration_ms\":") refl) (h d))

-- For every event: if the time stamp and the command hold no control character, and no printed
-- `double` does, the JSON line is bytes that are not control characters with one newline at its
-- end, whatever bytes the user, the schema, the tables and the query hold.
pub json_line-IsLine :
    {W : Type 0} (double : Double W) (e : Entry W)
    → All IsPrintable e.ts
    → All IsPrintable e.command
    → ((w : W) → All IsPrintable (double.print w))
    → IsLine (json_line double e)
unfolding json_line json_tables printable
json_line-IsLine double e ts command duration =
    let ids =
      append-IsPrintable (codes "\",\"conn_id\":")
        (print_unsigned e.thread_id ++ (codes ",\"query_seq\":" ++ print_unsigned e.local_seq))
        (printable-IsPrintable (codes "\",\"conn_id\":") refl)
        (append-IsPrintable (print_unsigned e.thread_id)
          (codes ",\"query_seq\":" ++ print_unsigned e.local_seq) (unsigned-IsPrintable e.thread_id)
          (append-IsPrintable (codes ",\"query_seq\":") (print_unsigned e.local_seq)
            (printable-IsPrintable (codes ",\"query_seq\":") refl)
            (unsigned-IsPrintable e.local_seq))) in
    let code =
      append-IsPrintable (codes ",\"error_code\":")
        (print_int e.error_code ++ codes ",\"query\":\"")
        (printable-IsPrintable (codes ",\"error_code\":") refl)
        (append-IsPrintable (print_int e.error_code) (codes ",\"query\":\"")
          (int-IsPrintable e.error_code) (printable-IsPrintable (codes ",\"query\":\"") refl)) in
    IsLine-codes (codes "{\"ts\":\"") _ refl (
      IsLine-append e.ts _ ts (
        IsLine-append _ _ (numbuf-IsPrintable _ ids) (
          IsLine-codes (codes ",\"user\":\"") _ refl (
            IsLine-append _ _ (escaped-IsPrintable e.user_host) (
              IsLine-codes (codes "\",\"db\":\"") _ refl (
                IsLine-append _ _ (escaped-IsPrintable e.db) (
                  IsLine-codes (codes "\",\"tables\":[") _ refl (
                    IsLine-append _ _ (json_names-IsPrintable (length e.tables) true e.tables) (
                      IsLine-codes (b']' ∷ []) _ refl (
                        IsLine-append _ _
                          (if_cases (All IsPrintable) (not (is_nil e.tables) && e.tables_truncated)
                            (printable-IsPrintable (codes ",\"tables_truncated\":true") refl) tt)
                          (IsLine-codes (codes ",\"command\":\"") _ refl (
                            IsLine-append e.command _ command (
                              IsLine-append _ _
                                (json_duration-IsPrintable double e.duration_ms duration)
                                (IsLine-append _ _ (numbuf-IsPrintable _ code) (
                                  IsLine-append _ _ (escaped-IsPrintable e.query) (
                                    IsLine-codes (codes "\"}") (b'\n' ∷ []) refl
                                      (inl (refl, refl))))))))))))))))))
