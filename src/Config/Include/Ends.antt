-- ===== src/Config/Include/Ends.antt =====
-- The files that are open while includes are resolved: a file is opened once at a time.
use edg.Prelude.{
  ℕ, zero, suc, ◌≤◌, ◌<◌, String, List, [], ◌∷◌, true, false, if◌then◌else◌, str_eq_iff, Result, ok,
  err, ◌>>=◌, ◌≡◌, ◌≢◌, refl, arith, length, if_rule, Bool-cases, inl, inr,
}
use edg.Config.Include.{
  document, mapping, sequence, scalar, Node, node, alias, Nodes, nil, cons, Files, IncludeError,
  circular, unreadable, out_of_fuel, value, is_include, spliced, replaced, item_nodes, resolve,
  resolve_children, resolve_values, resolve_items, is_visited, parsed, load_include, load_config,
}

-- The result is not that of a run out of fuel.
pub Ended : {E A : Type 0} → Result (IncludeError E) A → Type 0
Ended (ok a) = Unit
Ended (err (circular path)) = Unit
Ended (err (unreadable e)) = Unit
Ended (err out_of_fuel) = ⊥

Ended->>= :
    {E A B : Type 0} (m : Result (IncludeError E) A) (f : A → Result (IncludeError E) B)
    → Ended m
    → ((a : A) → Ended (f a))
    → Ended (m >>= f)
unfolding Ended
Ended->>= (ok a) f h k = k a
Ended->>= (err (circular path)) f h k = tt
Ended->>= (err (unreadable e)) f h k = tt
Ended->>= (err out_of_fuel) f h k = h

module _ {E : Type 0} (load : String → Result (IncludeError E) Node)
    (loads : (path : String) → Ended (load path)) where
  Ended-replaced :
      (n : Node) (inner : Result (IncludeError E) Node)
      → Ended inner
      → Ended (replaced load n inner)
  unfolding replaced
  Ended-replaced n inner h =
      if_rule (λ (r : Result (IncludeError E) Node). Ended r) (is_include n) {x = load (value n)}
        {y = inner} (loads (value n)) h

  Ended-item_nodes :
      (n : Node) (inner : Result (IncludeError E) Node)
      → Ended inner
      → Ended (item_nodes load n inner)
  unfolding item_nodes Ended
  Ended-item_nodes n inner h =
      if_rule (λ (r : Result (IncludeError E) Nodes). Ended r) (is_include n)
        {x = load (value n) >>= (λ m. ok (spliced m))} {y = inner >>= (λ m. ok (cons m nil))}
        (Ended->>= (load (value n)) _ (loads (value n)) (λ m. tt)) (Ended->>= inner _ h (λ m. tt))

  mutual
    unfolding resolve Ended

    Ended-resolve : (n : Node) → Ended (resolve load n)
    Ended-resolve (node document t v content) =
        Ended->>= (resolve_children load content) _ (Ended-resolve_children content) (λ ns. tt)
    Ended-resolve (node mapping t v content) =
        Ended->>= (resolve_values load content) _ (Ended-resolve_values content) (λ ns. tt)
    Ended-resolve (node sequence t v content) =
        Ended->>= (resolve_items load content) _ (Ended-resolve_items content) (λ ns. tt)
    Ended-resolve (node scalar t v content) = tt
    Ended-resolve (alias target) =
        Ended->>= (resolve load target) _ (Ended-resolve target) (λ n. tt)

    Ended-resolve_children : (ns : Nodes) → Ended (resolve_children load ns)
    Ended-resolve_children nil = tt
    Ended-resolve_children (cons n ns) =
        Ended->>= (resolve load n) _ (Ended-resolve n)
          (λ n'. Ended->>= (resolve_children load ns) _ (Ended-resolve_children ns) (λ ns'. tt))

    Ended-resolve_values : (ns : Nodes) → Ended (resolve_values load ns)
    Ended-resolve_values nil = tt
    Ended-resolve_values (cons key nil) = tt
    Ended-resolve_values (cons key (cons n ns)) =
        Ended->>= (replaced load n (resolve load n)) _
          (Ended-replaced n (resolve load n) (Ended-resolve n))
          (λ n'. Ended->>= (resolve_values load ns) _ (Ended-resolve_values ns) (λ ns'. tt))

    Ended-resolve_items : (ns : Nodes) → Ended (resolve_items load ns)
    Ended-resolve_items nil = tt
    Ended-resolve_items (cons n ns) =
        Ended->>= (item_nodes load n (resolve load n)) _
          (Ended-item_nodes n (resolve load n) (Ended-resolve n))
          (λ ms. Ended->>= (resolve_items load ns) _ (Ended-resolve_items ns) (λ ns'. tt))

-- How many of the known files are not open.
pub closed : List String → List String → ℕ
closed [] visited = 0
closed (f ∷ fs) visited =
    if is_visited f visited then closed fs visited else suc (closed fs visited)

closed_mono :
    (fs : List String) (visited : List String) (path : String)
    → closed fs (path ∷ visited) ≤ closed fs visited
unfolding closed is_visited
closed_mono [] visited path = omega arith
closed_mono (f ∷ fs) visited path = ground (arith, closed_mono fs visited path)

closed-visit :
    (fs : List String) (visited : List String) (path : String)
    → is_visited path fs ≡ true
    → is_visited path visited ≡ false
    → closed fs (path ∷ visited) < closed fs visited
unfolding closed is_visited
closed-visit [] visited path h k = cc
closed-visit (f ∷ fs) visited path h k = ground (
  arith,
  closed_mono fs visited path,
  closed-visit fs visited path,
  str_eq_iff path f,
  str_eq_iff f path,
)

closed-length : (fs : List String) (visited : List String) → closed fs visited ≤ length fs
unfolding closed
closed-length [] visited = omega arith
closed-length (f ∷ fs) visited = ground (arith, closed-length fs visited)

module _ {E : Type 0} (files : Files E) (known : List String)
    (all_known : (path : String) (n : Node)
      → files.parse path ≡ ok n
      → is_visited path known ≡ true) where
  -- What is opened goes on only if it is read and parsed.
  Ended-opened :
      {Known : Type 0} (r : Result E Node) (f : Node → Result (IncludeError E) Node)
      → ((n : Node) → r ≡ ok n → Known)
      → (Known → (n : Node) → Ended (f n))
      → Ended (parsed files r >>= f)
  unfolding parsed Ended
  Ended-opened (ok n) f h k = k (h n refl) n
  Ended-opened (err e) f h k = tt

  Ended-load_include :
      (fuel : ℕ) (base : String) (visited : List String) (path : String)
      → closed known visited < fuel
      → Ended (load_include files fuel base visited path)
  unfolding load_include Ended
  Ended-load_include zero base visited path h = absurd (omega arith)
  Ended-load_include (suc fuel) base visited path h =
      let abs = files.absolute base path in
      let nested = load_include files fuel (files.dir abs) (abs ∷ visited) in
      elim (Bool-cases (is_visited abs visited)) [
        | inl e ↦ rw (e, load_include) tt
        | inr e ↦
            rw (e, load_include)
              (Ended->>= (parsed files (files.parse abs) >>= resolve nested) _
                (Ended-opened (files.parse abs) (resolve nested) (all_known abs) (λ open_known.
                  Ended-resolve nested (λ p.
                    Ended-load_include fuel (files.dir abs) (abs ∷ visited) p
                      (omega (arith, closed-visit known visited abs open_known e)))))
                (λ n. tt))
      ]

  Ended-load_config :
      (fuel : ℕ) (abs : String) → length known ≤ fuel → Ended (load_config files fuel abs)
  unfolding load_config is_visited
  Ended-load_config fuel abs h =
      Ended-opened (files.parse abs) (resolve (load_include files fuel (files.dir abs) (abs ∷ [])))
        (all_known abs)
        (λ open_known. Ended-resolve (load_include files fuel (files.dir abs) (abs ∷ [])) (λ p.
          Ended-load_include fuel (files.dir abs) (abs ∷ []) p
            (omega (arith, closed-visit known [] abs open_known refl, closed-length known []))))

  Ended-not_out : (r : Result (IncludeError E) Node) → Ended r → r ≢ err out_of_fuel
  unfolding Ended
  Ended-not_out (ok n) h e = cc
  Ended-not_out (err (circular path)) h e = cc
  Ended-not_out (err (unreadable x)) h e = cc
  Ended-not_out (err out_of_fuel) h e = h

  -- Where every path that can be read and parsed is one of the `known`, and no document has an alias
  -- inside the node that it refers to: resolving the includes of a
  -- file ends, circular ones too, with no more files open at a time than there are known paths.
  pub load_config-ends :
      (fuel : ℕ) (abs : String) → length known ≤ fuel → load_config files fuel abs ≢ err out_of_fuel
  load_config-ends fuel abs h =
      Ended-not_out (load_config files fuel abs) (Ended-load_config fuel abs h)
