-- ===== src/Pkg/Table/Unique.antt =====
-- A column of a table in which no two rows of different keys have one value.
use seelf.Prelude.{
  ◌≡◌, ◌≢◌, refl, sym, ◌∙◌, some, List, [], ◌∷◌, ◌++◌, if◌then◌else◌, Eq, All, All-append, subst,
  arith, true, false,
}
use seelf.Pkg.Table.{find, update, delete}

pub All-all {ℓ κ μ} :
    {A : Type ℓ} (P : A → Type κ) (Q : A → Type μ) (xs : List A)
    → ((a : A) → P a → Q a)
    → All P xs
    → All Q xs
All-all P Q [] f _ = tt
All-all P Q (a ∷ xs) f (p, ps) = (f a p, All-all P Q xs f ps)

All-both {ℓ κ μ} :
    {A : Type ℓ} (P : A → Type κ) (Q : A → Type μ) (xs : List A)
    → All P xs
    → All Q xs
    → All (λ a. P a × Q a) xs
All-both P Q [] _ _ = tt
All-both P Q (a ∷ xs) (p, ps) (q, qs) = ((p, q), All-both P Q xs ps qs)

-- Both outcomes of a test.
either_way :
    {A B : Type 0} (P : A → Type 0) (d : Dec B) (xs ys : List A)
    → (B → All P xs)
    → All P ys
    → All P (if (elim d [ yes _ ↦ true | no _ ↦ false ]) then xs else ys)
either_way P (yes b) xs ys f g = f b
either_way P (no b) xs ys f g = g

module _ {K C R : Type 0} ⦃e : Eq K⦄ (key : R → K) (column : R → C) where
  All-update :
      (P : R → Type 0) (k : K) (f : R → R) (rows : List R)
      → ((r : R) → key r ≡ k → P r → P (f r))
      → All P rows
      → All P (update key k f rows)
  unfolding update
  All-update P k f [] h _ = tt
  All-update P k f (r ∷ rows) h (p, ps) =
      let rest = All-update P k f rows h ps in
      either_way P (e.dec (key r) k) _ _ (λ same. (h r same p, rest)) (p, rest)

  All-delete : (P : R → Type 0) (k : K) (rows : List R) → All P rows → All P (delete key k rows)
  unfolding delete
  All-delete P k [] _ = tt
  All-delete P k (r ∷ rows) (p, ps) =
      let rest = All-delete P k rows ps in either_way P (e.dec (key r) k) _ _ (λ _. rest) (p, rest)

  pub All-find :
      (P : R → Type 0) (k : K) (rows : List R) (r : R) → find key k rows ≡ some r → All P rows → P r
  unfolding find
  All-find P k [] r h _ = absurd (ground (arith, h))
  All-find P k (s ∷ rows) r h (p, ps) = elim (e.dec (key s) k) [
    | yes same ↦ subst P (ground (arith, h, same)) p
    | no other ↦ All-find P k rows r (ground (arith, h, other)) ps
  ]

  -- Only rows of the key have the value.
  abbrev pub Only : C → K → List R → Type 0
  Only c k rows = All (λ s. column s ≡ c → key s ≡ k) rows

  -- Rows with one value have one key.
  pub record IsUnique (rows : List R) : Type 0 where
    pub only : All (λ r. Only (column r) (key r) rows) rows

  pub Only-find :
      (k : K) (rows : List R) (r : R)
      → IsUnique rows
      → find key k rows ≡ some r
      → Only (column r) (key r) rows
  Only-find k rows r v h = All-find (λ s. Only (column s) (key s) rows) k rows r h v.only

  pub append-IsUnique :
      (rows : List R) (r : R)
      → All (λ s. column s ≢ column r) rows
      → IsUnique rows
      → IsUnique (rows ++ (r ∷ []))
  append-IsUnique rows r free v = record {
    only =
        All-append _ rows (r ∷ [])
          (All-all _ _ rows
            (λ s both. All-append _ rows (r ∷ []) both.0 ((λ same. absurd (both.1 (sym same))), tt))
            (All-both _ _ rows v.only free))
          (
            All-append _ rows (r ∷ []) (All-all _ _ rows (λ s ne same. absurd (ne same)) free)
                ((λ _. refl), tt),
            tt,
          );
  }

  pub delete-IsUnique : (k : K) (rows : List R) → IsUnique rows → IsUnique (delete key k rows)
  delete-IsUnique k rows v = record {
    only = All-delete _ k rows (All-all _ _ rows (λ s only. All-delete _ k rows only) v.only);
  }

  pub delete-Only : (c : C) (j k : K) (rows : List R) → Only c j rows → Only c j (delete key k rows)
  delete-Only c j k rows only = All-delete _ k rows only

  module _ (k : K) (f : R → R) (same_key : (r : R) → key (f r) ≡ key r) where
    -- A change of other columns.
    pub update-Only :
        (c : C) (j : K) (rows : List R)
        → ((r : R) → column (f r) ≡ column r)
        → Only c j rows
        → Only c j (update key k f rows)
    update-Only c j rows same_column only =
        All-update _ k f rows (λ r _ h same. same_key r ∙ h (sym (same_column r) ∙ same)) only

    pub update-IsUnique :
        (rows : List R)
        → ((r : R) → column (f r) ≡ column r)
        → IsUnique rows
        → IsUnique (update key k f rows)
    update-IsUnique rows same_column v = record {
      only =
          All-update _ k f rows
            (λ r _ only.
              subst (λ c. Only c (key (f r)) (update key k f rows)) (sym (same_column r))
                (subst (λ j. Only (column r) j (update key k f rows)) (sym (same_key r)) only))
            (All-all _ _ rows (λ r only. update-Only (column r) (key r) rows same_column only)
              v.only);
    }

    -- The column of the key's rows becomes a value that only they had.
    pub set-Only : (c : C) (rows : List R) → Only c k rows → Only c k (update key k f rows)
    set-Only c rows only = All-update _ k f rows (λ r is_k _ _. same_key r ∙ is_k) only

    pub set-IsUnique :
        (c : C) (rows : List R)
        → ((r : R) → column (f r) ≡ c)
        → Only c k rows
        → IsUnique rows
        → IsUnique (update key k f rows)
    set-IsUnique c rows new only v = record {
      only =
          All-update _ k f rows
            (λ r is_k _.
              subst (λ d. Only d (key (f r)) (update key k f rows)) (sym (new r))
                (subst (λ j. Only c j (update key k f rows)) (sym (same_key r ∙ is_k))
                  (set-Only c rows only)))
            (All-all _ _ rows
              (λ r both.
                All-update _ k f rows
                  (λ s is_k _ same. same_key s ∙ (is_k ∙ sym (both.1 (sym same ∙ new s)))) both.0)
              (All-both _ _ rows v.only only));
    }
