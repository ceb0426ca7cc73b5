-- ===== src/StringPool.antt =====
-- src/string_pool.rs: strings interned once and named by index. `StrId` is its index; string 0 is
-- the empty string.
pub mod Interning
use kryhtajs.Prelude.{
  ℕ, ◌%◌, ◌^◌, ◌<◌, ◌≡◌, ◌↔◌, Bool, true, false, Option, none, some, List, [], ◌∷◌, ◌++◌, Text,
  length, get_elem?, set, lookup, insert, text_key,
}

pub record StringPool : Type 0 where
  pub strings : List Text
  pub intern_map : List (Text × ℕ)
  pub marks : List Bool

-- The tail of `intern`, for a string that the map does not have.
abbrev push_string : Text → StringPool → StringPool × ℕ
push_string s p =
    let id = length p.strings % 2 ^ 32 in
    (
      record {
        strings = p.strings ++ s ∷ [];
        intern_map = insert s id p.intern_map;
        marks = p.marks ++ false ∷ [];
      },
      id,
    )

abbrev intern_found : Option ℕ → Text → StringPool → StringPool × ℕ
intern_found (some id) s p = (p, id)
intern_found none s p = push_string s p

unfoldable pub intern : Text → StringPool → StringPool × ℕ
intern s p = intern_found (lookup s p.intern_map) s p

unfoldable pub new : StringPool
unfolding intern
new = (intern [] (record { strings = []; intern_map = []; marks = [] })).0

unfoldable pub get : StringPool → ℕ → Option Text
get p id = get_elem? p.strings id

cleared : List Bool → List Bool
cleared [] = []
cleared (m ∷ ms) = false ∷ cleared ms

-- Every mark but that of the empty string is cleared.
unfoldable clear_marks : StringPool → StringPool
unfolding cleared
clear_marks p = record p { marks = set (cleared p.marks) 0 true }

unfoldable pub mark : StringPool → ℕ → StringPool
mark p id = record p { marks = set p.marks id true }

unfoldable pub is_marked : StringPool → ℕ → Bool
is_marked p id = elim (get_elem? p.marks id) [ none ↦ false | some b ↦ b ]

-- The map is the inverse of the table: every index names one string, and every string has one index.
pub record IsConsistent (p : StringPool) : Type 0 where
  pub inverse :
      (s : Text) (i : ℕ) → (lookup s p.intern_map ≡ some i) ↔ (get_elem? p.strings i ≡ some s)
