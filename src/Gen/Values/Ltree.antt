-- ===== src/Gen/Values/Ltree.antt =====
-- The proofs on `GenLtree` (pkg/gen/gen.go).
use edg.Prelude.{
  ℕ, suc, List, [], ◌∷◌, true, length, All, ok, err, if◌then◌else◌, ◌≡◌, refl, sym, ap, Bool-cases,
  inl, inr, ◌⊎◌,
}
use mathlib.Core.Path.{subst}
use edg.Prelude.Text.{Bytes, join}
use edg.Convert.{Value}
use edg.Gen.Values.{no_parts, is_ltree, sanitize, segments, ltree_path, gen_ltree}

abbrev pub IsLtree : Bytes → Type 0
IsLtree s = All (λ c. is_ltree c ≡ true) s

cleaned : (c : ℕ) → is_ltree (if is_ltree c then c else b'_') ≡ true
cleaned c = elim (Bool-cases (is_ltree c)) [
  | inl fine ↦ subst (λ b. is_ltree (if b then c else b'_') ≡ true) (sym fine) fine
  | inr wrong ↦ subst (λ b. is_ltree (if b then c else b'_') ≡ true) (sym wrong) refl
]

sanitize-IsLtree : (s : Bytes) → IsLtree (sanitize s)
unfolding sanitize
sanitize-IsLtree [] = tt
sanitize-IsLtree (c ∷ s) = (cleaned c, sanitize-IsLtree s)

length-sanitize : (s : Bytes) → length (sanitize s) ≡ length s
unfolding sanitize
length-sanitize [] = refl
length-sanitize (c ∷ s) = ap suc (length-sanitize s)

module _ {F I O : Type 0} (sprint : Value F I O → Bytes) where
  ltree_path-IsLtree :
      (ss : List Bytes)
      → ((ss ≡ []) × (ltree_path ss ≡ err no_parts))
        ⊎ ((path : Bytes) × (ltree_path ss ≡ ok path)
            × IsLtree path
            × (length path ≡ length (join ss (b'.' ∷ []))))
  unfolding ltree_path
  ltree_path-IsLtree [] = inl (refl, refl)
  ltree_path-IsLtree (s ∷ ss) =
      let joined = join (s ∷ ss) (b'.' ∷ []) in
      inr (sanitize joined, refl, sanitize-IsLtree joined, length-sanitize joined)

  -- `GenLtree` fails exactly if no part is left once those that are nil or print as nothing are
  -- dropped. Otherwise it returns a path of letters, digits, underscores and dots, as long as the
  -- parts joined by dots.
  pub gen_ltree-IsLtree :
      (parts : List (Value F I O))
      → ((segments sprint parts ≡ []) × (gen_ltree sprint parts ≡ err no_parts))
        ⊎ ((path : Bytes) × (gen_ltree sprint parts ≡ ok path)
            × IsLtree path
            × (length path ≡ length (join (segments sprint parts) (b'.' ∷ []))))
  unfolding gen_ltree
  gen_ltree-IsLtree parts = ltree_path-IsLtree (segments sprint parts)
