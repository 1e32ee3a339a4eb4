-- ===== src/Migrations/Extensions.antt =====
-- An extension that is dropped after it was created.
use crane_tracker.Base.{
  ◌≡◌, refl, subst, String, Bool, true, false, not, some, List, [], ◌∷◌, ◌++◌, any, all, delete,
  text_eq, Bool-cases, eq_iff, inl, inr, arith,
}
use crane_tracker.Migrations.Schema.{Table, Index, ForeignKey}
use crane_tracker.Migrations.Ddl.{
  Operation, Catalog, run, apply, has, has_table, has_relation, is_geometry, is_own, is_installable,
  with_extension,
}
use crane_tracker.Migrations.Inverse.{is_sound, relations, restored, delete_absent, delete-all}

-- Every table has the name of one that is there.
there_more :
    (r : Table) (ts rows : List Table)
    → all (λ t. any (λ u. text_eq u.name t.name) rows) ts ≡ true
    → all (λ t. any (λ u. text_eq u.name t.name) (r ∷ rows)) ts ≡ true
there_more r [] rows h = refl
there_more r (t ∷ ts) rows h = ground (arith, there_more r ts rows)

there_self : (ts : List Table) → all (λ t. any (λ u. text_eq u.name t.name) ts) ts ≡ true
there_self [] = refl
there_self (t ∷ ts) =
    let same = (eq_iff t.name t.name).1 refl in ground (arith, there_more t ts ts (there_self ts))

-- A new table has no name that is there.
apart :
    (table : String) (c : Catalog) (xs : List Table)
    → all (λ t. not (has_relation t.name c)) xs ≡ true
    → any (λ t. text_eq t.name table) xs ≡ true
    → has_table table c ≡ false
apart table c [] h k = cc
apart table c (x ∷ xs) h k = elim (Bool-cases (text_eq x.name table)) [
  | inr other ↦ apart table c xs (ground arith) (ground arith)
  | inl same ↦
      let absent : has_table x.name c ≡ false = ground arith in
      let is_name = (eq_iff x.name table).0 same in
      subst (λ n. has_table n c ≡ false) is_name absent
]

module _ (installs : String → List Table) (c : Catalog) (there : has "postgis" c.extensions ≡ false)
    (new : is_installable installs "postgis" c ≡ true) where
  abbrev own : String → Bool
  own = is_own installs "postgis"

  own_absent : (table : String) → own table ≡ true → has_table table c ≡ false
  own_absent table h = apart table c (installs "postgis") (ground (arith, there, new)) h

  -- What is of a table that was there is of none that the extension installs.
  unowned :
      {A : Type 0} (f : A → String) (rows : List A)
      → all (λ r. has_table (f r) c) rows ≡ true
      → any (λ r. own (f r)) rows ≡ false
  unowned f [] h = refl
  unowned f (r ∷ rows) h = elim (Bool-cases (own (f r))) [
    | inr other ↦ rw other (unowned f rows (ground arith))
    | inl mine ↦ let absent = own_absent (f r) mine in ground arith
  ]

  unreferenced :
      (rows : List Table)
      → all (λ t. all (λ k. has_table k.table c) t.foreign_keys) rows ≡ true
      → any (λ t. any (λ k. own k.table) t.foreign_keys) rows ≡ false
  unreferenced [] h = refl
  unreferenced (t ∷ rows) h =
      let here = unowned (λ (k : ForeignKey). k.table) t.foreign_keys (ground arith) in
      let rest = unreferenced rows (ground arith) in ground (arith, here, rest)

  pub drop_installed :
      is_sound c ≡ true
      → any (λ t. any is_geometry t.fields) c.tables ≡ false
      → restored (
          run installs
            (Operation.drop_extension "postgis" ∷ [])
            (with_extension installs "postgis" c))
        ≡ some (relations c)
  unfolding run apply
  drop_installed sound plain =
      let tables : delete (λ t. own t.name) (installs "postgis" ++ c.tables) ≡ c.tables =
        delete-all (λ t. own t.name) (installs "postgis") c.tables (there_self (installs "postgis"))
          (unowned (λ (t : Table). t.name) c.tables (there_self c.tables)) in
      let indexes : delete (λ i. own i.table) c.indexes ≡ c.indexes =
        delete_absent (λ (i : Index). own i.table) c.indexes
          (unowned (λ (i : Index). i.table) c.indexes (ground (arith, sound))) in
      let unread = unreferenced c.tables (ground (arith, sound)) in
      rw (there, tables, indexes, unread, plain) refl
