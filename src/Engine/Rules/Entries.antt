-- ===== src/Engine/Rules/Entries.antt =====
-- `FilterEntry`, `FilterRules`, and the operations on a list of entries.
use mysql_selective_trace_pl.Common.{
  is_nil, ℕ, zero, suc, bit_or, ◌≡◌, refl, sym, ap, ◌∙◌, ◌≢◌, ◌↔◌, ◌⊎◌, inl, inr, Bool, ◌&&◌,
  Option, none, some, List, [], ◌∷◌, ◌++◌, map, map-append, if◌then◌else◌, Bool-cases, Option-cases,
  All, All-append, All-change, Any, Any-change, Any-concat, Distinct, Distinct-concat, Bytes,
}
use mathlib.Core.Option
use mathlib.Core.Path.{subst}
use mysql_selective_trace_pl.Common.Bits.{HasBit, HasBit-bit_or}
use mysql_selective_trace_pl.Engine.Rules.Names.{lower, ci_eq, ci_eq_iff}

pub record FilterEntry : Type 0 where
  pub name : Bytes
  pub cmds : ℕ

pub record FilterRules : Type 0 where
  pub schemas : List FilterEntry
  pub wildcard_schemas : List FilterEntry
  pub tables : List FilterEntry
  pub connections : List ℕ

-- `FilterRules::empty`
unfoldable pub empty : FilterRules → Bool
empty r = is_nil r.schemas && is_nil r.wildcard_schemas && is_nil r.tables && is_nil r.connections

abbrev pub no_rules : FilterRules
no_rules = record { schemas = []; wildcard_schemas = []; tables = []; connections = [] }

-- The pointer that `find_entry` returns is the index of the entry, and NULL is `none`.
pub find_entry : List FilterEntry → Bytes → Option ℕ
find_entry [] s = none
find_entry (e ∷ list) s = if ci_eq e.name s then some 0 else Option.map suc (find_entry list s)

-- `e->cmds |= cmds` through that pointer
merge_at : List FilterEntry → ℕ → ℕ → List FilterEntry
merge_at [] i cmds = []
merge_at (e ∷ list) zero cmds = record e { cmds = bit_or e.cmds cmds } ∷ list
merge_at (e ∷ list) (suc i) cmds = e ∷ merge_at list i cmds

unfoldable pub add_entry : List FilterEntry → Bytes → ℕ → List FilterEntry
unfolding find_entry merge_at
add_entry list name cmds = elim (find_entry list name) [
  | some i ↦ merge_at list i cmds
  | none ↦ list ++ record { name = name; cmds = cmds } ∷ []
]

-- The entry carries this name and the command bit `k`.
abbrev pub Grants : Bytes → ℕ → FilterEntry → Type 0
Grants name k e = (e.name ≡ name) × HasBit k e.cmds

-- Folding a name again does not change it.
abbrev pub IsFolded : Bytes → Type 0
IsFolded name = lower name ≡ name

-- `merge_at` at the index that `find_entry` returned changes the first entry of that name.
record Found (list : List FilterEntry) (name : Bytes) (i : ℕ) : Type 0 where
  before : List FilterEntry
  hit : FilterEntry
  behind : List FilterEntry
  splits : list ≡ before ++ (hit ∷ behind)
  named : hit.name ≡ name
  merged :
      (cmds : ℕ)
      → merge_at list i cmds ≡ before ++ (record hit { cmds = bit_or hit.cmds cmds } ∷ behind)

Found-cons :
    (e : FilterEntry) (list : List FilterEntry) (name : Bytes) (i : ℕ)
    → Found list name i
    → Found (e ∷ list) name (suc i)
unfolding merge_at
Found-cons e list name i f = record {
  before = e ∷ f.before;
  hit = f.hit;
  behind = f.behind;
  splits = ap (λ l. e ∷ l) f.splits;
  named = f.named;
  merged = λ cmds. ap (λ l. e ∷ l) (f.merged cmds);
}

Found-here :
    (e : FilterEntry) (list : List FilterEntry) (name : Bytes)
    → e.name ≡ name
    → Found (e ∷ list) name 0
unfolding merge_at
Found-here e list name h = record {
  before = [];
  hit = e;
  behind = list;
  splits = refl;
  named = h;
  merged = λ cmds. refl;
}

map-suc-eq-some :
    (o : Option ℕ) (i : ℕ) → Option.map suc o ≡ some i → (j : ℕ) × (o ≡ some j) × (suc j ≡ i)
map-suc-eq-some none i h = cc
map-suc-eq-some (some j) i h = (j, refl, cc)

map-suc-eq-none : (o : Option ℕ) → Option.map suc o ≡ none → o ≡ none
map-suc-eq-none none h = refl
map-suc-eq-none (some j) h = cc

find_entry-Found :
    (list : List FilterEntry) (name : Bytes) (i : ℕ)
    → IsFolded name
    → find_entry list name ≡ some i
    → Found list name i
unfolding find_entry
find_entry-Found [] name i folded h = cc
find_entry-Found (e ∷ list) name i folded h = elim (Bool-cases (ci_eq e.name name)) [
  | inl hit ↦
      let here : 0 ≡ i = cc (rw hit at h) in
      subst (Found (e ∷ list) name) here
        (Found-here e list name ((ci_eq_iff e.name name).0 hit ∙ folded))
  | inr miss ↦
      let (j, found, next) = map-suc-eq-some (find_entry list name) i (rw miss at h) in
      subst (Found (e ∷ list) name) next
        (Found-cons e list name j (find_entry-Found list name j folded found))
]

find_entry-none :
    (list : List FilterEntry) (name : Bytes)
    → IsFolded name
    → find_entry list name ≡ none
    → All (λ n. n ≢ name) (map (λ e. e.name) list)
unfolding find_entry
find_entry-none [] name folded h = tt
find_entry-none (e ∷ list) name folded h = elim (Bool-cases (ci_eq e.name name)) [
  | inl hit ↦ cc (rw hit at h)
  | inr miss ↦ (
    λ same. cc ((ci_eq_iff e.name name).1 (same ∙ sym folded), miss),
    find_entry-none list name folded (map-suc-eq-none (find_entry list name) (rw miss at h)),
  )
]

-- The two outcomes of `add_entry`: an entry of that name gains bits, or a new one is last.
add_entry-cases :
    (P : List FilterEntry → Type 0) (list : List FilterEntry) (name : Bytes) (cmds : ℕ)
    → IsFolded name
    → ((b : List FilterEntry) (e : FilterEntry) (c : List FilterEntry)
        → list ≡ b ++ (e ∷ c)
        → e.name ≡ name
        → P (b ++ (record e { cmds = bit_or e.cmds cmds } ∷ c)))
    → (All (λ n. n ≢ name) (map (λ e. e.name) list)
        → P (list ++ record { name = name; cmds = cmds } ∷ []))
    → P (add_entry list name cmds)
unfolding add_entry
add_entry-cases P list name cmds folded old fresh = elim (Option-cases (find_entry list name)) [
  | inl e ↦ rw (e, add_entry) (fresh (find_entry-none list name folded e))
  | inr (i, e) ↦
      let f = find_entry-Found list name i folded e in
      rw (e, add_entry) (rw (f.merged cmds) (old f.before f.hit f.behind f.splits f.named))
]

merged-Grants :
    (e : FilterEntry) (name : Bytes) (cmds : ℕ) (n : Bytes) (k : ℕ)
    → e.name ≡ name
    → Grants n k (record e { cmds = bit_or e.cmds cmds })
      ↔ (Grants n k e ⊎ ((name ≡ n) × HasBit k cmds))
merged-Grants e name cmds n k h = (to, from)
  where
    to :
        Grants n k (record e { cmds = bit_or e.cmds cmds })
        → Grants n k e ⊎ ((name ≡ n) × HasBit k cmds)
    to (same, b) = elim ((HasBit-bit_or k e.cmds cmds).0 b) [
      | inl old ↦ inl (same, old)
      | inr new ↦ inr (sym h ∙ same, new)
    ]

    from :
        Grants n k e ⊎ ((name ≡ n) × HasBit k cmds)
        → Grants n k (record e { cmds = bit_or e.cmds cmds })
    from (inl (same, old)) = (same, (HasBit-bit_or k e.cmds cmds).1 (inl old))
    from (inr (same, new)) = (h ∙ same, (HasBit-bit_or k e.cmds cmds).1 (inr new))

-- After `add_entry` of a folded name a bit is granted to a name exactly if it was granted before,
-- or the name is the added one and the bit is among the added commands: masks of one name merge.
pub add_entry-Grants :
    (list : List FilterEntry) (name : Bytes) (cmds : ℕ) (n : Bytes) (k : ℕ)
    → IsFolded name
    → Any (Grants n k) (add_entry list name cmds)
      ↔ (Any (Grants n k) list ⊎ ((name ≡ n) × HasBit k cmds))
add_entry-Grants list name cmds n k folded =
    add_entry-cases (λ l. Any (Grants n k) l ↔ (Any (Grants n k) list ⊎ Q)) list name cmds folded
      (λ b e c split same.
        rw split (Any-change (Grants n k) Q b e _ c (merged-Grants e name cmds n k same)))
      (λ _. Any-concat (Grants n k) Q list _ ((λ h. h), (λ h. h)))
  where
    Q : Type 0
    Q = (name ≡ n) × HasBit k cmds

abbrev pub names : List FilterEntry → List Bytes
names = map (λ e. e.name)

-- `add_entry` of a folded name keeps the names of a list distinct.
pub add_entry-Distinct :
    (list : List FilterEntry) (name : Bytes) (cmds : ℕ)
    → IsFolded name
    → Distinct (names list)
    → Distinct (names (add_entry list name cmds))
add_entry-Distinct list name cmds folded d =
    add_entry-cases (λ l. Distinct (names l)) list name cmds folded
      (λ b e c split same.
        subst Distinct (ap names split ∙ map-append _ b (e ∷ c) ∙ sym (map-append _ b _)) d)
      (λ fresh.
        subst Distinct (sym (map-append _ list _)) (Distinct-concat (names list) name fresh d))

-- What holds of the entries, and of the added one, and survives more bits, holds of the result.
pub add_entry-All :
    (P : Bytes → ℕ → Type 0) (list : List FilterEntry) (name : Bytes) (cmds : ℕ)
    → IsFolded name
    → P name cmds
    → ((n : Bytes) (a b : ℕ) → P n a → P n (bit_or a b))
    → All (λ e. P e.name e.cmds) list
    → All (λ e. P e.name e.cmds) (add_entry list name cmds)
add_entry-All P list name cmds folded new join h =
    add_entry-cases (All (λ e. P e.name e.cmds)) list name cmds folded
      (λ b e c split same.
        All-change (λ e. P e.name e.cmds) b e _ c (join e.name e.cmds cmds)
          (subst (All (λ e. P e.name e.cmds)) split h))
      (λ _. All-append (λ e. P e.name e.cmds) list _ h (new, tt))
