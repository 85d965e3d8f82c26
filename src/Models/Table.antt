-- ===== src/Models/Table.antt =====
-- Rows by their identifier: `db.get`, and the write of a changed object by `flush`.
use aidflow.Prelude.{
  ℕ, ◌≡◌, refl, false, Option, none, some, List, [], ◌∷◌, ◌==◌, if◌then◌else◌, arith, Bool-cases,
  inl, inr,
}

module _ {R : Type 0} (id : R → ℕ) where
  -- `db.get(R, key)`
  unfoldable pub get : ℕ → List R → Option R
  get key [] = none
  get key (r ∷ rs) = let later = get key rs in if id r == key then some r else later

  -- Writes `row` over the rows with its identifier.
  unfoldable pub save : R → List R → List R
  save row [] = []
  save row (r ∷ rs) = let later = save row rs in (if id r == id row then row else r) ∷ later

  -- A change of the row with an identifier.
  unfoldable pub alter : ℕ → (R → R) → List R → List R
  alter key f [] = []
  alter key f (r ∷ rs) = let later = alter key f rs in (if id r == key then f r else r) ∷ later

  pub get-save :
      (row old : R) (rows : List R)
      → get (id row) rows ≡ some old
      → get (id row) (save row rows) ≡ some row
  unfolding get save
  get-save row old [] h = cc
  get-save row old (r ∷ rows) h = ground (arith, get-save row old rows)

  pub get-save_other :
      (key : ℕ) (row : R) (rows : List R)
      → (id row == key) ≡ false
      → get key (save row rows) ≡ get key rows
  unfolding get save
  get-save_other key row [] h = refl
  get-save_other key row (r ∷ rows) h = ground (arith, get-save_other key row rows h)

  pub get-id : (key : ℕ) (row : R) (rows : List R) → get key rows ≡ some row → id row ≡ key
  unfolding get
  get-id key row [] h = cc
  get-id key row (r ∷ rows) h = elim (Bool-cases (id r == key)) [
    | inl e ↦ ground (arith, e, h)
    | inr e ↦ get-id key row rows (ground (arith, e, h))
  ]

  pub get-save_key :
      (key : ℕ) (row old : R) (rows : List R)
      → id row ≡ key
      → get key rows ≡ some old
      → get key (save row rows) ≡ some row
  unfolding get save
  get-save_key key row old [] e h = cc
  get-save_key key row old (r ∷ rows) e h = ground (arith, e, h, get-save_key key row old rows e)
