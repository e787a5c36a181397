-- ===== src/Node/UserApi/Loader/Answers.antt =====
-- The map that a batch of da-node/src/user_api/data_loader.rs returns.
use da_concept.Base.{
  ℕ, ◌≡◌, refl, Option, none, some, List, [], ◌∷◌, ◌⊎◌, inl, inr, ◌==◌, ==_iff, if◌then◌else◌,
  arith, Bool-cases, Option-cases,
}
use da_concept.Node.Manager.{contains}
use da_concept.Node.UserApi.Loader.{
  LoadError, no_such, Entries, insert_entry, get_entry, insert_found, insert_missing, fill_missing,
  answers,
}

module _ {A : Type 0} where
  -- The first of two that is there.
  abbrev pub or_else : Option A → Option A → Option A
  or_else (some a) o = some a
  or_else none o = o

  pub or_else-none : (o : Option A) → or_else o none ≡ o
  or_else-none none = refl
  or_else-none (some a) = refl

module _ {A : Type 0} (id_of : A → ℕ) (id : ℕ) where
  -- The last value with the id.
  abbrev pub last_with : List A → Option A
  last_with [] = none
  last_with (x ∷ xs) = or_else (last_with xs) (if id_of x == id then some x else none)

  abbrev pub found_entry : Option A → Option (A ⊎ LoadError)
  found_entry none = none
  found_entry (some x) = some (inl x)

  get_entry-insert_entry :
      (j : ℕ) (r : A ⊎ LoadError) (entries : Entries A)
      → get_entry id (insert_entry j r entries) ≡ (if j == id then some r else get_entry id entries)
  get_entry-insert_entry j r [] = refl
  get_entry-insert_entry j r ((k, s) ∷ entries) = ground (arith, get_entry-insert_entry j r entries)

  get_entry-insert_found :
      (xs : List A) (entries : Entries A)
      → get_entry id (insert_found id_of xs entries)
        ≡ or_else (found_entry (last_with xs)) (get_entry id entries)
  unfolding insert_found
  get_entry-insert_found [] entries = refl
  get_entry-insert_found (x ∷ xs) entries =
      rw
        (
          get_entry-insert_found xs (insert_entry (id_of x) (inl x) entries),
          get_entry-insert_entry (id_of x) (inl x) entries,
        )
        (elim (Option-cases (last_with xs)) [
          | inl e ↦
              rw e (elim (Bool-cases (id_of x == id)) [ inl t ↦ rw t refl | inr f ↦ rw f refl ])
          | inr (y, e) ↦ rw e refl
        ])

  get_entry-fill_missing :
      (ids : List ℕ) (entries : Entries A)
      → get_entry id (fill_missing ids entries)
        ≡ or_else (get_entry id entries) (if contains id ids then some (inr (no_such id)) else none)
  unfolding fill_missing contains
  get_entry-fill_missing [] entries = elim (Option-cases (get_entry id entries)) [
    | inl e ↦ rw e refl
    | inr (r, e) ↦ rw e refl
  ]
  get_entry-fill_missing (j ∷ ids) entries =
      rw (get_entry-fill_missing ids (insert_missing j (get_entry j entries) entries))
        (elim (Option-cases (get_entry j entries)) [
          | inl e ↦
              rw (e, get_entry-insert_entry j (inr (no_such j)) entries)
                (elim (Bool-cases (j == id)) [
                  | inl t ↦
                      let same : j ≡ id = (==_iff j id).0 t in
                      let missing : get_entry id entries ≡ none = rw same at e in
                      rw (missing, same) (ground arith)
                  | inr f ↦ ground arith
                ])
          | inr (r, e) ↦ rw e (ground arith)
        ])

  -- An id has the last value that was found with it, or else an error if it was asked for.
  pub get_entry-answers :
      (ids : List ℕ) (found : List A)
      → get_entry id (answers id_of ids (inl found))
        ≡ or_else
            (found_entry (last_with found))
            (if contains id ids then some (inr (no_such id)) else none)
  unfolding answers
  get_entry-answers ids found =
      rw
        (
          get_entry-fill_missing ids (insert_found id_of found []),
          get_entry-insert_found found [],
          or_else-none (found_entry (last_with found)),
        )
        refl
