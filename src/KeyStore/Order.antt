-- ===== src/KeyStore/Order.antt =====
-- `ORDER BY created_at DESC` of internal/keysapi/keys.go: the rows sorted, and a filter of them.
use go_mcp_server.Base.{
  ℕ, suc, ◌≤◌, [], ◌∷◌, Bool, leb, if◌then◌else◌, keep, length, ◌≡◌, refl, ap, ◌∙◌, arith,
  Bool-cases, inl, inr, All,
}
use go_mcp_server.KeyStore.{Row, Table, insert_row, newest_first}

abbrev pub NotAfter : ℕ → Table → Type 0
NotAfter n rows = All (λ (r : Row). r.created_at ≤ n) rows

abbrev IsSorted : Table → Type 0
IsSorted [] = Unit
IsSorted (r ∷ rows) = NotAfter r.created_at rows × IsSorted rows

NotAfter-le : (m n : ℕ) (rows : Table) → m ≤ n → NotAfter m rows → NotAfter n rows
NotAfter-le m n [] h k = tt
NotAfter-le m n (r ∷ rows) h (le, k) = (omega (arith, h, le), NotAfter-le m n rows h k)

NotAfter-insert :
    (n : ℕ) (r : Row) (rows : Table)
    → r.created_at ≤ n
    → NotAfter n rows
    → NotAfter n (insert_row r rows)
NotAfter-insert n r [] h k = (h, tt)
NotAfter-insert n r (q ∷ rows) h (le, k) = elim (Bool-cases (leb q.created_at r.created_at)) [
  | inl older ↦ rw older (h, (le, k))
  | inr younger ↦ rw younger (le, NotAfter-insert n r rows h k)
]

IsSorted-insert : (r : Row) (rows : Table) → IsSorted rows → IsSorted (insert_row r rows)
IsSorted-insert r [] h = (tt, tt)
IsSorted-insert r (q ∷ rows) (below, h) = elim (Bool-cases (leb q.created_at r.created_at)) [
  | inl older ↦
      let le : q.created_at ≤ r.created_at = ground arith in
      rw older ((le, NotAfter-le q.created_at r.created_at rows le below), (below, h))
  | inr younger ↦
      let le : r.created_at ≤ q.created_at = ground arith in
      rw younger (NotAfter-insert q.created_at r rows le below, IsSorted-insert r rows h)
]

newest_first-IsSorted : (t : Table) → IsSorted (newest_first t)
unfolding newest_first
newest_first-IsSorted [] = tt
newest_first-IsSorted (r ∷ t) = IsSorted-insert r (newest_first t) (newest_first-IsSorted t)

pub newest_first-NotAfter : (n : ℕ) (t : Table) → NotAfter n t → NotAfter n (newest_first t)
unfolding newest_first
newest_first-NotAfter n [] h = tt
newest_first-NotAfter n (r ∷ t) (le, h) =
    NotAfter-insert n r (newest_first t) le (newest_first-NotAfter n t h)

-- The youngest row stands first.
pub insert_row-youngest :
    (r : Row) (rows : Table) → NotAfter r.created_at rows → insert_row r rows ≡ r ∷ rows
insert_row-youngest r [] h = refl
insert_row-youngest r (q ∷ rows) (le, h) = ground arith

keep-NotAfter : (n : ℕ) (p : Row → Bool) (rows : Table) → NotAfter n rows → NotAfter n (keep p rows)
keep-NotAfter n p [] h = tt
keep-NotAfter n p (r ∷ rows) (le, h) = elim (Bool-cases (p r)) [
  | inl kept ↦ rw kept (le, keep-NotAfter n p rows h)
  | inr gone ↦ rw gone (keep-NotAfter n p rows h)
]

keep-insert_row :
    (p : Row → Bool) (r : Row) (rows : Table)
    → IsSorted rows
    → keep p (insert_row r rows) ≡ (if p r then insert_row r (keep p rows) else keep p rows)
keep-insert_row p r [] h = ground arith
keep-insert_row p r (q ∷ rows) (below, h) = elim (Bool-cases (leb q.created_at r.created_at)) [
  | inl older ↦
      let le : q.created_at ≤ r.created_at = ground arith in
      let youngest = insert_row-youngest r (keep p (q ∷ rows)) (
        keep-NotAfter r.created_at p (q ∷ rows)
          (le, NotAfter-le q.created_at r.created_at rows le below)) in
      rw older (rw youngest refl)
  | inr younger ↦ let rest = keep-insert_row p r rows h in ground (arith, rest, younger)
]

pub keep-newest_first :
    (p : Row → Bool) (t : Table) → newest_first (keep p t) ≡ keep p (newest_first t)
unfolding newest_first
keep-newest_first p [] = refl
keep-newest_first p (r ∷ t) =
    let step = keep-insert_row p r (newest_first t) (newest_first-IsSorted t) in
    ground (arith, step, keep-newest_first p t)

length-insert_row : (r : Row) (rows : Table) → length (insert_row r rows) ≡ length (r ∷ rows)
length-insert_row r [] = refl
length-insert_row r (q ∷ rows) = ground (arith, length-insert_row r rows)

pub length-newest_first : (t : Table) → length (newest_first t) ≡ length t
unfolding newest_first
length-newest_first [] = refl
length-newest_first (r ∷ t) =
    length-insert_row r (newest_first t) ∙ ap (λ (n : ℕ). suc n) (length-newest_first t)
