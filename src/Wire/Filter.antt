-- ===== src/Wire/Filter.antt =====
-- `MatchFilters` of src/library/service/util.go. Go's regexp engine is the parameter
-- `match_string`: `none` is the error of a pattern that does not compile.
use wing_binlog_go.Prelude.{
  Bool, true, false, Option, none, some, List, [], ◌∷◌, Bytes, ◌≡◌, ◌↔◌, ◌⊎◌, inl, inr, arith, refl,
}

module _ (match_string : Bytes → Bytes → Option Bool) where
  -- One round of the loop: `match && err == nil`.
  matches : Bytes → Bytes → Bool
  matches f table = elim (match_string f table) [ none ↦ false | some b ↦ b ]

  any_matches : List Bytes → Bytes → Bool
  unfolding matches
  any_matches [] table = false
  any_matches (f ∷ filters) table = elim (matches f table) [
    | true ↦ true
    | false ↦ any_matches filters table
  ]

  unfoldable pub match_filters : List Bytes → Bytes → Bool
  unfolding any_matches
  match_filters [] table = true
  match_filters (f ∷ filters) table = any_matches (f ∷ filters) table

  -- A filter of the list accepts the table.
  abbrev pub Accepts : List Bytes → Bytes → Type 0
  Accepts [] table = ⊥
  Accepts (f ∷ filters) table = (match_string f table ≡ some true) ⊎ Accepts filters table

  any_matches→Accepts :
      (filters : List Bytes) (table : Bytes)
      → any_matches filters table ≡ true
      → Accepts filters table
  unfolding any_matches
  any_matches→Accepts [] table h = cc
  any_matches→Accepts (f ∷ filters) table h = ground (arith, any_matches→Accepts filters table)

  Accepts→any_matches :
      (filters : List Bytes) (table : Bytes)
      → Accepts filters table
      → any_matches filters table ≡ true
  unfolding any_matches
  Accepts→any_matches [] table h = absurd h
  Accepts→any_matches (f ∷ filters) table h = ground (arith, Accepts→any_matches filters table)

  -- A table passes exactly when there is no filter, or one of them compiles and accepts it.
  pub match_filters_iff :
      (filters : List Bytes) (table : Bytes)
      → (match_filters filters table ≡ true) ↔ ((filters ≡ []) ⊎ Accepts filters table)
  unfolding match_filters
  match_filters_iff [] table = (λ h. inl refl, λ h. refl)
  match_filters_iff (f ∷ filters) table = (
    λ h. inr (any_matches→Accepts (f ∷ filters) table h),
    λ h. elim h [ inl e ↦ cc | inr a ↦ Accepts→any_matches (f ∷ filters) table a ],
  )
