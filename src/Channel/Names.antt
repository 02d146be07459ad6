-- ===== src/Channel/Names.antt =====
-- include/shmchan/channel.hpp and managed_channel.hpp: the names of the shared-memory objects. A
-- name is the list of its bytes.
use shmchan.Common.{
  ℕ, ◌≡◌, ◌≢◌, refl, Bool, false, ◌||◌, [], ◌∷◌, ◌++◌, Option, none, some, arith, ltb, ◌==◌,
  if◌then◌else◌, length, subst, Bool-cases, inl, inr, drop,
}
use shmchan.Status.{Bytes}

abbrev slash : ℕ
slash = 47

-- `name.find(character) != npos`
abbrev pub has : ℕ → Bytes → Bool
has character [] = false
has character (c ∷ rest) = (c == character) || has character rest

-- The test at the end of `normalize_name`; `none` stands for `std::invalid_argument`.
unfoldable pub one_slash : Bytes → Option Bytes
one_slash normalized =
    if (length normalized == 1) || has slash (drop 1 normalized) then none else some normalized

-- `normalize_name`
unfoldable pub normalize_name : Bytes → Option Bytes
unfolding one_slash
normalize_name [] = none
normalize_name (c ∷ rest) =
    if has 0 (c ∷ rest) then none else one_slash (if c == slash then c ∷ rest else slash ∷ c ∷ rest)

-- ".shmchan.managed"
abbrev managed_suffix : Bytes
managed_suffix =
    46 ∷ 115 ∷ 104 ∷ 109 ∷ 99 ∷ 104 ∷ 97 ∷ 110 ∷ 46 ∷ 109 ∷ 97 ∷ 110 ∷ 97 ∷ 103 ∷ 101 ∷ 100 ∷ []

-- `managed_object_name`
unfoldable pub managed_object_name : Bytes → Option Bytes
unfolding normalize_name
managed_object_name base_name = elim (normalize_name base_name) [
  | none ↦ none
  | some name ↦
      let result = name ++ managed_suffix in if ltb 250 (length result) then none else some result
]

-- A slash before at least one byte, with no other slash and no NUL, that is accepted as it is.
abbrev pub IsNormal : Bytes → Type 0
IsNormal normalized =
    (rest : Bytes) × (normalized ≡ slash ∷ rest)
    × (rest ≢ [])
    × (has slash rest ≡ false)
    × (has 0 rest ≡ false)
    × (normalize_name normalized ≡ some normalized)

normalize_name-slash :
    (rest : Bytes)
    → has 0 rest ≡ false
    → ((length (slash ∷ rest) == 1) || has slash rest) ≡ false
    → normalize_name (slash ∷ rest) ≡ some (slash ∷ rest)
unfolding normalize_name
normalize_name-slash rest clean fine = rw (clean, fine)

some-injective : {a b : Bytes} → some a ≡ some b → a ≡ b
some-injective e = cc

one_slash-IsNormal :
    (rest normalized : Bytes)
    → has 0 rest ≡ false
    → one_slash (slash ∷ rest) ≡ some normalized
    → IsNormal normalized
unfolding one_slash
one_slash-IsNormal rest normalized clean e =
    elim (Bool-cases ((length (slash ∷ rest) == 1) || has slash rest)) [
      | inl wrong ↦ let e' = rw wrong at e in cc
      | inr fine ↦ subst IsNormal (some-injective (rw fine at e)) (
        rest,
        refl,
        not_empty rest fine,
        ground arith,
        clean,
        normalize_name-slash rest clean fine,
      )
    ]
  where
    not_empty :
        (rest : Bytes) → ((length (slash ∷ rest) == 1) || has slash rest) ≡ false → rest ≢ []
    not_empty rest fine e = ground arith

-- A name that `normalize_name` accepts becomes a slash before at least one byte, with no other slash
-- and no NUL; normalising it again changes nothing.
pub normalize_name-IsNormal :
    (name normalized : Bytes) → normalize_name name ≡ some normalized → IsNormal normalized
unfolding normalize_name
normalize_name-IsNormal [] normalized e = cc
normalize_name-IsNormal (c ∷ rest) normalized e = elim (Bool-cases (has 0 (c ∷ rest))) [
  | inl nul ↦ let e' = rw nul at e in cc
  | inr clean ↦ elim (Bool-cases (c == slash)) [
    | inl first ↦
        let is_slash : c ≡ slash = ground arith in
        one_slash-IsNormal rest normalized (ground arith)
          (subst (λ d. one_slash (d ∷ rest) ≡ some normalized) is_slash (rw (clean, first) at e))
    | inr other ↦ one_slash-IsNormal (c ∷ rest) normalized clean (rw (clean, other) at e)
  ]
]
