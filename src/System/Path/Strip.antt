-- ===== src/System/Path/Strip.antt =====
-- What `pathParse` of src/library/app/app.go makes of a directory.
use wing_binlog_go.Prelude.{
  ℕ, ◌≡◌, refl, ap, sym, ◌∙◌, Bool, true, false, [], ◌∷◌, ◌++◌, Outcome, ok, panic, spins, no_fuel,
  ◌>>=◌, Bytes, ◌⊎◌, inl, inr, ◌==◌, if◌then◌else◌, arith, Bool-cases,
}
use wing_binlog_go.System.Path.{slash, forward_slashes, drop_last, ends_with_slash, path_parse}

-- A path without its last slash, if it has one.
strip : Bytes → Outcome Bytes
strip x = ends_with_slash x >>= λ slashed. if slashed then drop_last x else ok x

strip-cons : (b c : ℕ) (s : Bytes) → strip (b ∷ c ∷ s) ≡ (strip (c ∷ s) >>= λ out. ok (b ∷ out))
unfolding strip ends_with_slash drop_last
strip-cons b c s = by_end (ends_with_slash (c ∷ s))
  where
    by_end :
        (o : Outcome Bool)
        → (o >>= λ slashed. if slashed then drop_last (b ∷ c ∷ s) else ok (b ∷ c ∷ s)) ≡ (
            (o >>= λ slashed. if slashed then drop_last (c ∷ s) else ok (c ∷ s)) >>= λ out.
            ok (b ∷ out))
    by_end (ok true) = refl
    by_end (ok false) = refl
    by_end panic = refl
    by_end spins = refl
    by_end no_fuel = refl

strip-branches :
    (b : ℕ) (s : Bytes)
    → (out : Bytes) × (strip (b ∷ s) ≡ ok out) × ((out ≡ b ∷ s) ⊎ (out ++ slash ∷ [] ≡ b ∷ s))
unfolding strip ends_with_slash drop_last
strip-branches b [] = elim (Bool-cases (b == slash)) [
  | inl e ↦ ([], rw e refl, inr (ground (arith, e)))
  | inr e ↦ (b ∷ [], rw e refl, inl refl)
]
strip-branches b (c ∷ s) =
    let (out, e, r) = strip-branches c s in
    (
      b ∷ out,
      strip-cons b c s ∙ ap (λ o. o >>= λ x. ok (b ∷ x)) e,
      elim r [ inl same ↦ inl (ap (◌∷◌ b) same) | inr slashed ↦ inr (ap (◌∷◌ b) slashed) ],
    )

forward-idempotent : (s : Bytes) → forward_slashes (forward_slashes s) ≡ forward_slashes s
unfolding forward_slashes
forward-idempotent [] = refl
forward-idempotent (b ∷ s) = ground (arith, forward-idempotent s)

forward-front :
    (s t : Bytes) (u : Bytes) → s ++ t ≡ u → forward_slashes u ≡ u → forward_slashes s ≡ s
unfolding forward_slashes
forward-front [] t u e f = refl
forward-front (b ∷ s) t [] e f = cc
forward-front (b ∷ s) t (c ∷ u) e f = ground (arith, e, f, forward-front s t u)

strip-forward :
    (b : ℕ) (s : Bytes)
    → (out : Bytes) × (strip (forward_slashes (b ∷ s)) ≡ ok out)
      × ((out ≡ forward_slashes (b ∷ s)) ⊎ (out ++ slash ∷ [] ≡ forward_slashes (b ∷ s)))
unfolding forward_slashes
strip-forward b s = strip-branches _ _

forward_out :
    (dir out : Bytes)
    → (out ≡ forward_slashes dir) ⊎ (out ++ slash ∷ [] ≡ forward_slashes dir)
    → forward_slashes out ≡ out
forward_out dir out (inl same) = ap forward_slashes same ∙ forward-idempotent dir ∙ sym same
forward_out dir out (inr slashed) =
    forward-front out (slash ∷ []) (forward_slashes dir) slashed (forward-idempotent dir)

-- `pathParse` never panics. It gives the default for an empty or missing directory, and else the
-- directory with forward slashes and without the slash at its end, if there is one.
pub path_parse-branches :
    (exists : Bytes → Bool) (dir default_value : Bytes)
    → (out : Bytes) × (path_parse exists dir default_value ≡ ok out)
      × (((out ≡ default_value) × ((dir ≡ []) ⊎ (exists (forward_slashes dir) ≡ false)))
          ⊎ ((exists (forward_slashes dir) ≡ true)
              × (forward_slashes out ≡ out)
              × ((out ≡ forward_slashes dir) ⊎ (out ++ slash ∷ [] ≡ forward_slashes dir))))
unfolding path_parse strip
path_parse-branches exists [] default_value = (default_value, refl, inl (refl, inl refl))
path_parse-branches exists (b ∷ s) default_value =
    elim (Bool-cases (exists (forward_slashes (b ∷ s)))) [
      | inr missing ↦ (default_value, rw missing refl, inl (refl, inr missing))
      | inl there ↦
          let (out, e, r) = strip-forward b s in
          (out, rw there e, inr (there, forward_out (b ∷ s) out r, r))
    ]
