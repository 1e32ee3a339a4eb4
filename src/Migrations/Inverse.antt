-- ===== src/Migrations/Inverse.antt =====
-- Tables and indexes that are dropped after they were created.
use crane_tracker.Base.{
  ◌≡◌, refl, String, Bool, true, false, not, Option, none, some, List, [], ◌∷◌, ◌++◌, ◌&&◌, any,
  all, delete, text_eq, Bool-cases, eq_iff, inl, inr, arith,
}
use crane_tracker.Migrations.Schema.{Table, Index, ForeignKey}
use crane_tracker.Migrations.Ddl.{Operation, Catalog, run, apply, has_table, refers_to}

-- Every index and every foreign key is of a table that is there, and so is what has a type of PostGIS.
abbrev pub is_sound : Catalog → Bool
is_sound c =
    all (λ i. has_table i.table c) c.indexes
    && all (λ t. all (λ k. has_table k.table c) t.foreign_keys) c.tables

pub delete_absent {ℓ} :
    {A : Type ℓ} (test : A → Bool) (rows : List A) → any test rows ≡ false → delete test rows ≡ rows
delete_absent test [] h = refl
delete_absent test (r ∷ rows) h = ground (arith, delete_absent test rows)

-- What every row passes and the name does not is no row's.
unmentioned {ℓ} :
    {A : Type ℓ} (f : A → String) (passes : String → Bool) (name : String) (rows : List A)
    → passes name ≡ false
    → all (λ r. passes (f r)) rows ≡ true
    → any (λ r. text_eq (f r) name) rows ≡ false
unmentioned f passes name [] no_pass h = refl
unmentioned f passes name (r ∷ rows) no_pass h = elim (Bool-cases (text_eq (f r) name)) [
  | inr other ↦ ground (arith, unmentioned f passes name rows)
  | inl same ↦
      let is_name = (eq_iff (f r) name).0 same in
      let failed : passes (f r) ≡ false = rw is_name no_pass in ground arith
]

no_index :
    (c : Catalog) (name : String)
    → is_sound c ≡ true
    → has_table name c ≡ false
    → any (λ i. text_eq i.table name) c.indexes ≡ false
no_index c name sound absent =
    unmentioned (λ i. i.table) (λ n. has_table n c) name c.indexes absent (ground (arith, sound))

unreferenced :
    (c : Catalog) (name : String) (rows : List Table)
    → has_table name c ≡ false
    → all (λ t. all (λ k. has_table k.table c) t.foreign_keys) rows ≡ true
    → any (λ t. refers_to name t && not (text_eq t.name name)) rows ≡ false
unreferenced c name [] absent h = refl
unreferenced c name (t ∷ rows) absent h =
    let rest = unreferenced c name rows absent (ground (arith, h)) in
    let none_here =
      unmentioned (λ (k : ForeignKey). k.table) (λ n. has_table n c) name t.foreign_keys absent
        (ground (arith, h)) in
    ground arith

-- the tables and the indexes
abbrev pub relations : Catalog → List Table × List Index
relations c = (c.tables, c.indexes)

abbrev pub restored : Option Catalog → Option (List Table × List Index)
restored none = none
restored (some c) = some (relations c)

pub delete-all {ℓ} :
    {A : Type ℓ} (test : A → Bool) (xs rows : List A)
    → all test xs ≡ true
    → any test rows ≡ false
    → delete test (xs ++ rows) ≡ rows
delete-all test [] rows h absent = delete_absent test rows absent
delete-all test (x ∷ xs) rows h absent = ground (arith, delete-all test xs rows)

module _ (installs : String → List Table) where
  -- Dropping a table that was created last, with its indexes.
  drop_new :
      (t : Table) (rows : List Table) (own others : List Index) (c : Catalog)
      → all (λ i. text_eq i.table t.name) own ≡ true
      → any (λ r. text_eq r.name t.name) rows ≡ false
      → any (λ r. refers_to t.name r && not (text_eq r.name t.name)) rows ≡ false
      → any (λ i. text_eq i.table t.name) others ≡ false
      → apply installs
          (Operation.drop_table t.name)
          (record c { tables = t ∷ rows; indexes = own ++ others })
        ≡ some (record c { tables = rows; indexes = others })
  unfolding apply
  drop_new t rows own others c is_own new unread unindexed =
      let same = (eq_iff t.name t.name).1 refl in
      let a = delete_absent (λ r. text_eq r.name t.name) rows new in
      let b = delete-all (λ i. text_eq i.table t.name) own others is_own unindexed in ground arith

  -- The same for a migration that creates one table with its indexes.
  pub drop_created :
      (t : Table) (own : List Index) (c : Catalog) (types : List String)
      → all (λ i. text_eq i.table t.name) own ≡ true
      → is_sound c ≡ true
      → has_table t.name c ≡ false
      → restored (
          run installs
            (Operation.drop_table t.name ∷ [])
            (record c { types = types; tables = t ∷ c.tables; indexes = own ++ c.indexes }))
        ≡ some (relations c)
  unfolding run
  drop_created t own c types is_own sound new =
      let dropped =
        drop_new t c.tables own c.indexes (record c { types = types }) is_own new
          (unreferenced c t.name c.tables new (ground (arith, sound)))
          (no_index c t.name sound new) in
      ground arith

  created :
      (t : Table) (c c' : Catalog)
      → apply installs (Operation.create_table t) c ≡ some c'
      → has_table t.name c ≡ false
  unfolding apply
  created t c c' h = ground arith

  -- Dropping the one index of a new table, and the table.
  pub drop_indexed :
      (t : Table) (own : Index) (c : Catalog) (types : List String)
      → is_sound c ≡ true
      → has_table t.name c ≡ false
      → any (λ i. text_eq i.name own.name) c.indexes ≡ false
      → restored (
          run installs
            (Operation.drop_index own.name ∷ Operation.drop_table t.name ∷ [])
            (record c { types = types; tables = t ∷ c.tables; indexes = own ∷ c.indexes }))
        ≡ some (relations c)
  unfolding run apply
  drop_indexed t own c types sound new new_index =
      let same = (eq_iff own.name own.name).1 refl in
      let kept = delete_absent (λ (i : Index). text_eq i.name own.name) c.indexes new_index in
      let dropped = drop_created t [] c types refl sound new in ground arith

  -- Dropping two tables that were created last, the second with a foreign key to the first.
  pub drop_two :
      (t u : Table) (own : List Index) (c : Catalog)
      → all (λ i. text_eq i.table u.name) own ≡ true
      → text_eq t.name u.name ≡ false
      → t.foreign_keys ≡ []
      → is_sound c ≡ true
      → has_table t.name c ≡ false
      → has_table u.name c ≡ false
      → restored (
          run installs
            (Operation.drop_table u.name ∷ Operation.drop_table t.name ∷ [])
            (record c { tables = u ∷ t ∷ c.tables; indexes = own ++ c.indexes }))
        ≡ some (relations c)
  unfolding run
  drop_two t u own c is_own distinct no_keys sound new_t new_u =
      let unread = unreferenced c u.name c.tables new_u (ground (arith, sound)) in
      let first =
        drop_new u (t ∷ c.tables) own c.indexes c is_own (ground (arith, distinct, new_u))
          (rw (distinct, no_keys) unread) (no_index c u.name sound new_u) in
      let second = drop_created t [] c c.types refl sound new_t in ground arith
