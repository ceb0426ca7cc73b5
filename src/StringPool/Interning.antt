-- ===== src/StringPool/Interning.antt =====
-- src/string_pool.rs: interning is stable, and an index and its string determine each other.
use kryhtajs.Prelude.{
  ℕ, zero, suc, ◌%◌, ◌^◌, ◌<◌, ◌≡◌, refl, ◌↔◌, inl, inr, none, some, [], ◌∷◌, ◌++◌, arith, Text,
  length, get_elem?, lookup, insert, text_key, Option-cases, Bool-cases, get_elem?-append_one,
  get_elem?-lt, lookup-insert, text_eq, text_eq_iff, ◌==◌,
}
use kryhtajs.StringPool.{StringPool, intern, new, get, IsConsistent}

new_inverse :
    (s : Text) (i : ℕ) → (lookup s new.intern_map ≡ some i) ↔ (get_elem? new.strings i ≡ some s)
unfolding new
new_inverse [] zero = (λ h. refl, λ h. refl)
new_inverse [] (suc i) = (λ h. ground arith, λ h. cc)
new_inverse (x ∷ s) zero = (λ h. cc, λ h. cc)
new_inverse (x ∷ s) (suc i) = (λ h. cc, λ h. cc)

-- A new pool is consistent.
pub new-IsConsistent : IsConsistent new
unfolding new
new-IsConsistent = record { inverse = λ s i. new_inverse s i }

module _ (s : Text) (p : StringPool) (c : IsConsistent p) (room : length p.strings < 2 ^ 32) where
  added :
      (t : Text) (i : ℕ)
      → lookup s p.intern_map ≡ none
      → (lookup t (insert s (length p.strings % 2 ^ 32) p.intern_map) ≡ some i)
        ↔ (get_elem? (p.strings ++ s ∷ []) i ≡ some t)
  added t i e = elim (Bool-cases (text_eq s t)) [
    | inl same ↦
        let eq = (text_eq_iff s t).0 same in
        (
          λ h. ground (
            arith,
            eq,
            lookup-insert s t (length p.strings % 2 ^ 32) p.intern_map,
            get_elem?-append_one p.strings i s,
          ),
          λ h. elim (Bool-cases (i == length p.strings)) [
            | inl at ↦ ground (arith, lookup-insert s t (length p.strings % 2 ^ 32) p.intern_map)
            | inr off ↦ ground (arith, eq, get_elem?-append_one p.strings i s, (c.inverse s i).1)
          ],
        )
    | inr other ↦ (
      λ h. ground (
        arith,
        lookup-insert s t (length p.strings % 2 ^ 32) p.intern_map,
        get_elem?-append_one p.strings i s,
        (c.inverse t i).0,
        get_elem?-lt p.strings i t,
      ),
      λ h. ground (
        arith,
        lookup-insert s t (length p.strings % 2 ^ 32) p.intern_map,
        get_elem?-append_one p.strings i s,
        (c.inverse t i).1,
        text_eq_iff s t,
      ),
    )
  ]

  -- With fewer than 2 ^ 32 strings, interning keeps the map of a consistent pool the inverse of its
  -- table.
  pub intern-IsConsistent : IsConsistent (intern s p).0
  unfolding intern
  intern-IsConsistent = elim (Option-cases (lookup s p.intern_map)) [
    | inr (id, e) ↦ rw e c
    | inl e ↦ rw e (record { inverse = λ t i. added t i e })
  ]

  -- In a consistent pool of fewer than 2 ^ 32 strings, the index that intern returns names the
  -- string.
  pub get-intern : get (intern s p).0 (intern s p).1 ≡ some s
  unfolding intern get
  get-intern = elim (Option-cases (lookup s p.intern_map)) [
    | inr (id, e) ↦ rw e ((c.inverse s id).0 e)
    | inl e ↦ rw e (ground (arith, get_elem?-append_one p.strings (length p.strings % 2 ^ 32) s))
  ]

  -- In a consistent pool of fewer than 2 ^ 32 strings, interning a string a second time gives the
  -- same index and changes nothing.
  pub intern_again : intern s (intern s p).0 ≡ intern s p
  unfolding intern
  intern_again = elim (Option-cases (lookup s p.intern_map)) [
    | inr (id, e) ↦ rw (e, e)
    | inl e ↦ rw e (rw (lookup-insert, (text_eq_iff s s).1 refl) refl)
  ]

  -- In a consistent pool of fewer than 2 ^ 32 strings, an index that named a string still names it
  -- after another is interned.
  pub get-intern_old : (i : ℕ) (t : Text) → get p i ≡ some t → get (intern s p).0 i ≡ some t
  unfolding intern get
  get-intern_old i t h = elim (Option-cases (lookup s p.intern_map)) [
    | inr (id, e) ↦ rw e h
    | inl e ↦
        rw e (ground (arith, get_elem?-append_one p.strings i s, get_elem?-lt p.strings i t h))
  ]
