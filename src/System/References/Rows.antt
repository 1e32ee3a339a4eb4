-- ===== src/System/References/Rows.antt =====
-- Tests on every row and on some row, through an UPDATE and a DELETE.
use crane_tracker.Base.{
  ◌≡◌, refl, Bool, true, false, List, [], ◌∷◌, ◌&&◌, any, all, update, delete, arith,
}

module _ {A : Type 0} where
  -- what holds of the rows that one condition keeps
  pub all-implied :
      (p q : A → Bool) (rows : List A)
      → ((x : A) → p x ≡ true → q x ≡ true)
      → all p rows ≡ true
      → all q rows ≡ true
  all-implied p q [] imp h = refl
  all-implied p q (x ∷ rows) imp h = ground (arith, imp x, all-implied p q rows imp)

  -- of the rows that a DELETE leaves
  pub all-delete_implied :
      (p q test : A → Bool) (rows : List A)
      → ((x : A) → p x ≡ true → test x ≡ false → q x ≡ true)
      → all p rows ≡ true
      → all q (delete test rows) ≡ true
  all-delete_implied p q test [] imp h = refl
  all-delete_implied p q test (x ∷ rows) imp h =
      ground (arith, imp x, all-delete_implied p q test rows imp)

  -- an UPDATE that leaves a column alone
  pub all-update_same :
      (p test : A → Bool) (f : A → A) (rows : List A)
      → ((x : A) → p (f x) ≡ p x)
      → all p (update test f rows) ≡ all p rows
  all-update_same p test f [] same = refl
  all-update_same p test f (x ∷ rows) same =
      ground (arith, same x, all-update_same p test f rows same)

  pub any-update_same :
      (p test : A → Bool) (f : A → A) (rows : List A)
      → ((x : A) → p (f x) ≡ p x)
      → any p (update test f rows) ≡ any p rows
  any-update_same p test f [] same = refl
  any-update_same p test f (x ∷ rows) same =
      ground (arith, same x, any-update_same p test f rows same)

  -- a row that a DELETE does not meet
  pub any-delete_kept :
      (p test : A → Bool) (rows : List A)
      → ((x : A) → p x ≡ true → test x ≡ false)
      → any p rows ≡ true
      → any p (delete test rows) ≡ true
  any-delete_kept p test [] apart h = h
  any-delete_kept p test (x ∷ rows) apart h =
      ground (arith, apart x, any-delete_kept p test rows apart)

  pub any-delete_unmet :
      (p test : A → Bool) (rows : List A)
      → any (λ x. p x && test x) rows ≡ false
      → any p rows ≡ true
      → any p (delete test rows) ≡ true
  any-delete_unmet p test [] apart h = h
  any-delete_unmet p test (x ∷ rows) apart h = ground (arith, any-delete_unmet p test rows)
