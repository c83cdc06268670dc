-- ===== src/Plugin/Statement/Fits.antt =====
-- The list of tables stays within its buffer, without a name twice.
use mysql_selective_trace_pl.Common.{
  ◌+◌, ◌≤◌, ◌<◌, ◌≡◌, refl, sym, ap, ◌≢◌, ◌⊎◌, inl, inr, true, false, not, ◌&&◌, List, [], ◌∷◌,
  ◌++◌, arith, leb, if◌then◌else◌, leb→le, Bool-cases, length, is_nil, length-append, All, Any,
  Any-append, Distinct, Distinct-concat, Bytes, contains,
}
use mathlib.Core.Path.{subst}
use mysql_selective_trace_pl.Plugin.Statement.{
  StatementState, tables_buf, full_name, add_name, listed, state_add_table,
}
use mysql_selective_trace_pl.Plugin.Statement.Tables.{
  entries, listed_sound, listed_complete, entries-add_name,
}

-- what holds of a connection's list between two events
pub record IsListing (st : StatementState) : Type 0 where
  pub fits : length st.tables < tables_buf
  pub distinct : Distinct (entries st.tables)

-- the name occurs in the list
abbrev pub Lists : StatementState → Bytes → Type 0
Lists st name = Any (λ e. e ≡ name) (entries st.tables)

length-full_name : (db tbl : Bytes) → length (full_name db tbl) ≡ length db + 1 + length tbl
length-full_name db tbl = omega (arith, length-append db (b'.' ∷ tbl))

length-add_name :
    (tables name : Bytes)
    → length (add_name tables name) ≡ length tables + (if is_nil tables then 0 else 1) + length name
length-add_name [] name = omega arith
length-add_name (c ∷ tables) name = omega (arith, length-append tables (b',' ∷ name))

entries-add_full :
    (tables db tbl : Bytes)
    → contains b',' (full_name db tbl) ≡ false
    → entries (add_name tables (full_name db tbl)) ≡ entries tables ++ full_name db tbl ∷ []
entries-add_full tables [] tbl h = entries-add_name tables b'.' tbl h
entries-add_full tables (c ∷ db) tbl h = entries-add_name tables c (full_name db tbl) h

listed-Lists :
    (tables name : Bytes)
    → (not (is_nil tables) && listed (length tables) name tables) ≡ true
    → Any (λ e. e ≡ name) (entries tables)
listed-Lists [] name h = cc
listed-Lists (c ∷ tables) name h = listed_sound (length (c ∷ tables)) name (c ∷ tables) h

Lists-listed :
    (tables name : Bytes)
    → 0 < length name
    → Any (λ e. e ≡ name) (entries tables)
    → (not (is_nil tables) && listed (length tables) name tables) ≡ true
Lists-listed [] name pos h = absurd h
Lists-listed (c ∷ tables) name pos h =
    listed_complete (length (c ∷ tables)) name (c ∷ tables) (omega arith) pos h

-- What adding a table does: nothing to a list that has the name; one more name at the end of a list
-- that has room; and to a list without room only the mark that names are missing.
abbrev pub Added : StatementState → Bytes → StatementState → Type 0
Added st name st' =
    (Lists st name × (st' ≡ st))
    ⊎ ((¬ Lists st name)
        × (entries st'.tables ≡ entries st.tables ++ name ∷ [])
        × (st'.tables_truncated ≡ st.tables_truncated)
        × (length st'.tables < tables_buf))
    ⊎ ((st' ≡ record st { tables_truncated = true })
        × (tables_buf ≤ length st.tables + 1 + length name))

-- Adding a table whose name holds no comma to a list that may come from anywhere has one of three
-- outcomes: nothing, if the list has the name; one more name at the end, in a text that fits in the
-- buffer, if it does not; or only the mark that names are missing, if the name does not fit.
pub state_add_table-Added :
    (st : StatementState) (db tbl : Bytes)
    → contains b',' (full_name db tbl) ≡ false
    → Added st (full_name db tbl) (state_add_table st db tbl)
unfolding state_add_table
state_add_table-Added st db tbl plain =
    let name = full_name db tbl in
    let truncated = record st { tables_truncated = true } in
    let added = record st { tables = add_name st.tables name } in
    let again = not (is_nil st.tables) && listed (length st.tables) name st.tables in
    let need = length db + 1 + length tbl in
    let size = length st.tables + (if is_nil st.tables then 0 else 1) + need in
    let named = length-full_name db tbl in
    let keep : tables_buf ≤ length st.tables + 1 + length name → Added st name truncated =
      λ h. inr (inr (refl, h)) in
    elim (Bool-cases (leb tables_buf need)) [
      | inl long ↦ rw long (keep (omega (arith, named, leb→le tables_buf need long)))
      | inr short ↦ elim (Bool-cases again) [
        | inl e ↦ rw (short, e) (inl (listed-Lists st.tables name e, refl))
        | inr e ↦ elim (Bool-cases (leb tables_buf size)) [
          | inl full ↦
              let over = leb→le tables_buf size full in
              rw (short, e, full) (keep (ground (arith, named, over)))
          | inr room ↦
              let grown : Added st name added = inr (
                inl (
                  (λ k. cc (e, Lists-listed st.tables name (omega (arith, named)) k)),
                  entries-add_full st.tables db tbl plain,
                  refl,
                  ground (arith, length-add_name st.tables name, named, room),
                )) in
              rw (short, e, room) grown
        ]
      ]
    ]

-- the tables of a statement, added one after the other
abbrev pub add_tables : StatementState → List (Bytes × Bytes) → StatementState
add_tables st [] = st
add_tables st ((db, tbl) ∷ accesses) = add_tables (state_add_table st db tbl) accesses

Distinct-add :
    (xs : List Bytes) (a : Bytes) → ¬ Any (λ e. e ≡ a) xs → Distinct xs → Distinct (xs ++ a ∷ [])
Distinct-add xs a absent d = Distinct-concat xs a (others xs absent) d
  where
    others : (xs : List Bytes) → ¬ Any (λ e. e ≡ a) xs → All (λ y. y ≢ a) xs
    others [] h = tt
    others (x ∷ xs) h = ((λ e. h (inl e)), others xs (λ k. h (inr k)))

Added-IsListing :
    (st : StatementState) (name : Bytes) (st' : StatementState)
    → IsListing st
    → Added st name st'
    → IsListing st'
Added-IsListing st name st' v (inl (k, e)) = subst IsListing (sym e) v
Added-IsListing st name st' v (inr (inl (absent, e, same, fits))) = record {
  fits = fits;
  distinct = subst Distinct (sym e) (Distinct-add (entries st.tables) name absent v.distinct);
}
Added-IsListing st name st' v (inr (inr (e, full))) =
    subst IsListing (sym e) (record { fits = v.fits; distinct = v.distinct })

-- a list without the mark stays without it only if the name went in, and no name goes out
Added-Lists :
    (st : StatementState) (name : Bytes) (st' : StatementState)
    → Added st name st'
    → st'.tables_truncated ≡ false
    → Lists st' name × (st.tables_truncated ≡ false)
Added-Lists st name st' (inl (k, e)) t = (subst (λ s. Lists s name) (sym e) k, cc (e, t))
Added-Lists st name st' (inr (inl (absent, e, same, fits))) t = (
  subst (Any (λ x. x ≡ name)) (sym e)
      ((Any-append (λ x. x ≡ name) (entries st.tables) (name ∷ [])).1 (inr (inl refl))),
  cc (same, t),
)
Added-Lists st name st' (inr (inr (e, full))) t =
    absurd (cc (ap (λ (s : StatementState). s.tables_truncated) e, t))

Added-keeps :
    (st : StatementState) (name other : Bytes) (st' : StatementState)
    → Added st name st'
    → Lists st other
    → Lists st' other
Added-keeps st name other st' (inl (k, e)) h = subst (λ s. Lists s other) (sym e) h
Added-keeps st name other st' (inr (inl (absent, e, same, fits))) h =
    subst (Any (λ x. x ≡ other)) (sym e)
      ((Any-append (λ x. x ≡ other) (entries st.tables) (name ∷ [])).1 (inl h))
Added-keeps st name other st' (inr (inr (e, full))) h = subst (λ s. Lists s other) (sym e) h

abbrev pub IsPlain : Bytes × Bytes → Type 0
IsPlain (db, tbl) = contains b',' (full_name db tbl) ≡ false

add_tables-keeps :
    (accesses : List (Bytes × Bytes)) (st : StatementState) (other : Bytes)
    → All IsPlain accesses
    → Lists st other
    → Lists (add_tables st accesses) other
add_tables-keeps [] st other p h = h
add_tables-keeps ((db, tbl) ∷ accesses) st other (p, ps) h =
    add_tables-keeps accesses (state_add_table st db tbl) other ps (
      Added-keeps st (full_name db tbl) other (state_add_table st db tbl)
        (state_add_table-Added st db tbl p) h)

-- Whatever tables a statement touches, in whatever order, if no name holds a comma: the list stays
-- below the size of its buffer and names no table twice.
pub add_tables-IsListing :
    (accesses : List (Bytes × Bytes)) (st : StatementState)
    → All IsPlain accesses
    → IsListing st
    → IsListing (add_tables st accesses)
add_tables-IsListing [] st p v = v
add_tables-IsListing ((db, tbl) ∷ accesses) st (p, ps) v =
    let st' = state_add_table st db tbl in
    add_tables-IsListing accesses st' ps
      (Added-IsListing st (full_name db tbl) st' v (state_add_table-Added st db tbl p))

add_tables-truncated :
    (accesses : List (Bytes × Bytes)) (st : StatementState)
    → All IsPlain accesses
    → (add_tables st accesses).tables_truncated ≡ false
    → st.tables_truncated ≡ false
add_tables-truncated [] st p t = t
add_tables-truncated ((db, tbl) ∷ accesses) st (p, ps) t =
    let st' = state_add_table st db tbl in
    (Added-Lists st (full_name db tbl) st' (state_add_table-Added st db tbl p)
      (add_tables-truncated accesses st' ps t)).1

-- If no name of a table that a statement touches holds a comma, and the mark for missing names is
-- not set at the end, then every table touched is in the list, and so is every table that was in the
-- list before.
pub add_tables-Lists :
    (accesses : List (Bytes × Bytes)) (st : StatementState) (name : Bytes)
    → All IsPlain accesses
    → (add_tables st accesses).tables_truncated ≡ false
    → Lists st name ⊎ Any (λ (a : Bytes × Bytes). full_name a.0 a.1 ≡ name) accesses
    → Lists (add_tables st accesses) name
add_tables-Lists [] st name p t (inl h) = h
add_tables-Lists [] st name p t (inr h) = absurd h
add_tables-Lists ((db, tbl) ∷ accesses) st name (p, ps) t (inl h) =
    add_tables-keeps ((db, tbl) ∷ accesses) st name (p, ps) h
add_tables-Lists ((db, tbl) ∷ accesses) st name (p, ps) t (inr (inl e)) =
    let st' = state_add_table st db tbl in
    let unmarked = add_tables-truncated accesses st' ps t in
    let here =
      (Added-Lists st (full_name db tbl) st' (state_add_table-Added st db tbl p) unmarked).0 in
    add_tables-keeps accesses st' name ps (subst (Lists st') e here)
add_tables-Lists ((db, tbl) ∷ accesses) st name (p, ps) t (inr (inr h)) =
    add_tables-Lists accesses (state_add_table st db tbl) name ps t (inr h)
