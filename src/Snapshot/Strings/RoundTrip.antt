-- ===== src/Snapshot/Strings/RoundTrip.antt =====
-- src/snapshot.rs: the strings of a pool keep their indices across a checkpoint.
use kryhtajs.Prelude.{
  ℕ, zero, suc, ◌^◌, ◌<◌, ◌≡◌, ◌∙◌, refl, sym, ap, subst, append-nil, none, some, List, [], ◌∷◌,
  ◌++◌, append_assoc, arith, ok, length, get_elem?, get_elem?-lt, All, Text, lookup, text_key,
  Option-cases, inl, inr, length-append,
}
use kryhtajs.StringPool.{StringPool, intern, new, IsConsistent}
use kryhtajs.StringPool.Interning.{new-IsConsistent, intern-IsConsistent}
use kryhtajs.Snapshot.Bytes.{Bytes, str_, write_all}
use kryhtajs.Snapshot.Words.{u32_lem, IsText, str_lem}
use kryhtajs.Snapshot.Strings.{write_strings, read_interned, read_strings}

intern_all : List Text → StringPool → StringPool
intern_all [] pool = pool
intern_all (t ∷ ts) pool = intern_all ts (intern t pool).0

read_interned-write_all :
    (ts : List Text) (pool : StringPool) (rest : Bytes)
    → All IsText ts
    → read_interned (length ts) pool (write_all str_ ts ++ rest) ≡ ok (intern_all ts pool, rest)
unfolding read_interned write_all intern_all
read_interned-write_all [] pool rest h = refl
read_interned-write_all (t ∷ ts) pool rest h =
    simp (append_assoc, str_lem t h.0, read_interned-write_all ts (intern t pool).0 rest h.1)

get_elem?-prefix :
    (xs ys : List Text) (i : ℕ) (t : Text)
    → get_elem? xs i ≡ some t
    → get_elem? (xs ++ ys) i ≡ some t
get_elem?-prefix [] ys i t h = cc
get_elem?-prefix (x ∷ xs) ys zero t h = h
get_elem?-prefix (x ∷ xs) ys (suc i) t h = get_elem?-prefix xs ys i t h

get_elem?-middle : (xs ys : List Text) (t : Text) → get_elem? (xs ++ t ∷ ys) (length xs) ≡ some t
get_elem?-middle [] ys t = refl
get_elem?-middle (x ∷ xs) ys t = get_elem?-middle xs ys t

-- A string of a consistent pool stands nowhere before its place.
absent :
    (p q : StringPool) (t : Text) (ts : List Text)
    → IsConsistent p
    → IsConsistent q
    → p.strings ≡ q.strings ++ t ∷ ts
    → lookup t q.intern_map ≡ none
absent p q t ts cp cq e = elim (Option-cases (lookup t q.intern_map)) [
  | inl gone ↦ gone
  | inr (i, found) ↦
      let old = (cq.inverse t i).0 found in
      let first = (cp.inverse t i).1 (rw e (get_elem?-prefix q.strings (t ∷ ts) i t old)) in
      let second = (cp.inverse t (length q.strings)).1 (rw e (get_elem?-middle q.strings ts t)) in
      absurd (ground (arith, first, second, get_elem?-lt q.strings i t old))
]

intern-strings :
    (q : StringPool) (t : Text)
    → lookup t q.intern_map ≡ none
    → (intern t q).0.strings ≡ q.strings ++ t ∷ []
unfolding intern
intern-strings q t gone = rw gone refl

intern_all-strings :
    (p q : StringPool) (ts : List Text)
    → IsConsistent p
    → IsConsistent q
    → length p.strings < 2 ^ 32
    → p.strings ≡ q.strings ++ ts
    → ((intern_all ts q).strings ≡ p.strings) × IsConsistent (intern_all ts q)
unfolding intern_all
intern_all-strings p q [] cp cq room e = (sym (e ∙ append-nil q.strings), cq)
intern_all-strings p q (t ∷ ts) cp cq room e =
    let added = intern-strings q t (absent p q t ts cp cq e) in
    intern_all-strings p (intern t q).0 ts cp
      (intern-IsConsistent t q cq
        (omega (arith, room, ap length e, length-append q.strings (t ∷ ts))))
      room (rw (added, append_assoc) e)

new-strings : new.strings ≡ [] ∷ []
unfolding new
new-strings = refl

-- The empty string is there from the start.
intern_all-new : (ts : List Text) → intern_all ([] ∷ ts) new ≡ intern_all ts new
unfolding intern_all new intern
intern_all-new ts = refl

-- A consistent pool of fewer than 2 ^ 32 strings that starts with the empty string and holds valid
-- UTF-8 shorter than 2 ^ 32 bytes is read back as a consistent pool in which every string has the
-- same index, and the reader stops where the pool ends.
pub strings_lem :
    (p : StringPool) (ts : List Text) (rest : Bytes)
    → IsConsistent p
    → p.strings ≡ [] ∷ ts
    → length p.strings < 2 ^ 32
    → All IsText p.strings
    → (q : StringPool) × (read_strings (write_strings p ++ rest) ≡ ok (q, rest))
      × (q.strings ≡ p.strings)
      × IsConsistent q
unfolding read_strings write_strings
strings_lem p ts rest c e few texts =
    let all = intern_all-strings p new ts c new-IsConsistent few (rw new-strings e) in
    let same : intern_all p.strings new ≡ intern_all ts new =
      ap (λ xs. intern_all xs new) e ∙ intern_all-new ts in
    (
      intern_all p.strings new,
      simp (
        append_assoc,
        u32_lem (length p.strings) few,
        read_interned-write_all p.strings new rest texts,
      ),
      ap (λ (q : StringPool). q.strings) same ∙ all.0,
      subst IsConsistent (sym same) all.1,
    )
