-- ===== src/Env/Query/Section/Cache.antt =====
-- `getOrPrepare` and the cache of prepared statements.
use edg.Prelude.{
  ℕ, List, ◌∷◌, Option, none, some, Result, ok, err, ◌≡◌, refl, ap, ◌∙◌, arith, Option-cases, inl,
  inr, ==_iff,
}
use edg.Env.Query.Inline.{translate_placeholders}
use edg.Env.Query.Section.{
  Stmt, Backend, State, call, cached, store_stmt, prepare_with, get_or_prepare,
}

module _ {E P F I O W : Type 0} (b : Backend E P F I O W) where
  -- If there is a statement, it is the one in the cache.
  Keeps : ℕ → Result E P × State E P W → Type 0
  Keeps id (err e, s) = Unit
  Keeps id (ok p, s) = cached b id s.stmt_cache ≡ some p

  cached_first : (id : ℕ) (p : P) (m : List (ℕ × P)) → cached b id ((id, p) ∷ m) ≡ some p
  unfolding cached
  cached_first id p m = ground (arith, ==_iff id id)

  Keeps-store_stmt : (id : ℕ) (p : Result E P × State E P W) → Keeps id (store_stmt b id p)
  unfolding store_stmt Keeps
  Keeps-store_stmt id (err e, s) = tt
  Keeps-store_stmt id (ok p, s) = cached_first id p s.stmt_cache

  Keeps-prepare_with :
      (id : ℕ) (o : Option _) (sql : Option _) (s : State E P W)
      → Keeps id (prepare_with b id o sql s)
  unfolding prepare_with Keeps
  Keeps-prepare_with id none sql s = tt
  Keeps-prepare_with id (some prepare) none s = tt
  Keeps-prepare_with id (some prepare) (some sql) s = Keeps-store_stmt id (call b (prepare sql) s)

  Keeps-hit :
      (id : ℕ) (p : P) (s : State E P W) → cached b id s.stmt_cache ≡ some p → Keeps id (ok p, s)
  unfolding Keeps
  Keeps-hit id p s h = h

  Keeps-get_or_prepare : (q : Stmt) (s : State E P W) → Keeps q.id (get_or_prepare b q s)
  unfolding get_or_prepare
  Keeps-get_or_prepare q s = elim (Option-cases (cached b q.id s.stmt_cache)) [
    | inl e ↦
        rw (e, get_or_prepare)
          (Keeps-prepare_with q.id b.prepare (translate_placeholders q.sql b.driver) s)
    | inr (p, e) ↦ rw (e, get_or_prepare) (Keeps-hit q.id p s e)
  ]

  Keeps-ok :
      (id : ℕ) (r : Result E P × State E P W) (p : P)
      → Keeps id r
      → r.0 ≡ ok p
      → cached b id r.1.stmt_cache ≡ some p
  unfolding Keeps
  Keeps-ok id (err e, s) p h k = cc
  Keeps-ok id (ok q, s) p h k = h ∙ ap some (ground arith)

  -- Once `getOrPrepare` has given a statement for a query, it gives the same one for it in every
  -- state with that cache, and changes nothing there: the query is not prepared again.
  pub get_or_prepare-once :
      (q : Stmt) (s : State E P W) (p : P)
      → (get_or_prepare b q s).0 ≡ ok p
      → (s' : State E P W) → s'.stmt_cache ≡ (get_or_prepare b q s).1.stmt_cache
      → get_or_prepare b q s' ≡ (ok p, s')
  unfolding get_or_prepare
  get_or_prepare-once q s p h s' same =
      let hit =
        ap (cached b q.id) same
        ∙ Keeps-ok q.id (get_or_prepare b q s) p (Keeps-get_or_prepare q s) h in
      rw (hit, get_or_prepare) refl
