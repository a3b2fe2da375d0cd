-- ===== src/Config/Include/Resolved.antt =====
-- The nodes that are left when includes are resolved.
use edg.Prelude.{
  ℕ, zero, suc, String, List, [], ◌∷◌, false, Result, ok, err, ◌>>=◌, ok-carries, >>=-ok, ◌≡◌, refl,
  ◌∙◌, Bool-cases, inl, inr,
}
use edg.Config.Include.{
  document, mapping, sequence, scalar, Node, node, alias, Nodes, nil, cons, Files, tag, value,
  is_include, spliced, append_nodes, replaced, item_nodes, resolve, resolve_children,
  resolve_values, resolve_items, unwrap, is_visited, parsed, load_include, load_config,
}

-- No value of a mapping and no item of a sequence, at any depth, is itself tagged to be included; in
-- the node that an alias refers to the same holds, but that node itself may be tagged.
unfoldable mutual
  pub IsResolved : Node → Type 0
  IsResolved (node document t v content) = AreResolved content
  IsResolved (node mapping t v content) = ValuesResolved content
  IsResolved (node sequence t v content) = ItemsResolved content
  IsResolved (node scalar t v content) = Unit
  IsResolved (alias target) = IsResolved target

  pub AreResolved : Nodes → Type 0
  AreResolved nil = Unit
  AreResolved (cons n ns) = IsResolved n × AreResolved ns

  pub ValuesResolved : Nodes → Type 0
  ValuesResolved nil = Unit
  ValuesResolved (cons key nil) = Unit
  ValuesResolved (cons key (cons n ns)) = (is_include n ≡ false) × IsResolved n × ValuesResolved ns

  pub ItemsResolved : Nodes → Type 0
  ItemsResolved nil = Unit
  ItemsResolved (cons n ns) = (is_include n ≡ false) × IsResolved n × ItemsResolved ns

-- A node that may stand anywhere.
abbrev Settled : Node → Type 0
Settled n = (is_include n ≡ false) × IsResolved n

ItemsResolved-append_nodes :
    (ms ns : Nodes) → ItemsResolved ms → ItemsResolved ns → ItemsResolved (append_nodes ms ns)
unfolding append_nodes IsResolved
ItemsResolved-append_nodes nil ns h k = k
ItemsResolved-append_nodes (cons m ms) ns h k = (h.0, h.1, ItemsResolved-append_nodes ms ns h.2 k)

ItemsResolved-spliced : (n : Node) → Settled n → ItemsResolved (spliced n)
unfolding spliced IsResolved
ItemsResolved-spliced (node document t v content) h = (h.0, h.1, tt)
ItemsResolved-spliced (node mapping t v content) h = (h.0, h.1, tt)
ItemsResolved-spliced (node sequence t v content) h = h.1
ItemsResolved-spliced (node scalar t v content) h = (h.0, h.1, tt)
ItemsResolved-spliced (alias target) h = (h.0, h.1, tt)

module _ {E : Type 0} (load : String → Result E Node)
    (settles : (path : String) (n : Node) → load path ≡ ok n → Settled n) where
  -- What a node becomes keeps its tag.
  abbrev Becomes : Node → Node → Type 0
  Becomes n n' = (is_include n' ≡ is_include n) × IsResolved n'

  replaced-Settled :
      (n m : Node) (inner : Result E Node)
      → replaced load n inner ≡ ok m
      → ((n' : Node) → inner ≡ ok n' → Becomes n n')
      → Settled m
  unfolding replaced
  replaced-Settled n m inner h k = elim (Bool-cases (is_include n)) [
    | inl e ↦ settles (value n) m (rw (e, replaced) at h)
    | inr e ↦ let (same, resolved) = k m (rw (e, replaced) at h) in (same ∙ e, resolved)
  ]

  item_nodes-ItemsResolved :
      (n : Node) (ms : Nodes) (inner : Result E Node)
      → item_nodes load n inner ≡ ok ms
      → ((n' : Node) → inner ≡ ok n' → Becomes n n')
      → ItemsResolved ms
  unfolding item_nodes IsResolved
  item_nodes-ItemsResolved n ms inner h k = elim (Bool-cases (is_include n)) [
    | inl e ↦
        let (m, loaded, is_ms) = >>=-ok (load (value n)) _ ms (rw (e, item_nodes) at h) in
        ok-carries ItemsResolved is_ms (ItemsResolved-spliced m (settles (value n) m loaded))
    | inr e ↦
        let (m, resolved, is_ms) = >>=-ok inner _ ms (rw (e, item_nodes) at h) in
        let (same, is_resolved) = k m resolved in
        ok-carries ItemsResolved is_ms (same ∙ e, is_resolved, tt)
  ]

  mutual
    unfolding resolve IsResolved is_include tag

    resolve-Becomes : (n n' : Node) → resolve load n ≡ ok n' → Becomes n n'
    resolve-Becomes (node document t v content) n' h =
        let (ns, runs, made) = >>=-ok (resolve_children load content) _ n' h in
        ok-carries (Becomes (node document t v content)) made
          (refl, resolve_children-AreResolved content ns runs)
    resolve-Becomes (node mapping t v content) n' h =
        let (ns, runs, made) = >>=-ok (resolve_values load content) _ n' h in
        ok-carries (Becomes (node mapping t v content)) made
          (refl, resolve_values-ValuesResolved content ns runs)
    resolve-Becomes (node sequence t v content) n' h =
        let (ns, runs, made) = >>=-ok (resolve_items load content) _ n' h in
        ok-carries (Becomes (node sequence t v content)) made
          (refl, resolve_items-ItemsResolved content ns runs)
    resolve-Becomes (node scalar t v content) n' h =
        ok-carries (Becomes (node scalar t v content)) h (refl, tt)
    resolve-Becomes (alias target) n' h =
        let (m, runs, made) = >>=-ok (resolve load target) _ n' h in
        ok-carries (Becomes (alias target)) made (refl, (resolve-Becomes target m runs).1)

    resolve_children-AreResolved :
        (ns ns' : Nodes) → resolve_children load ns ≡ ok ns' → AreResolved ns'
    resolve_children-AreResolved nil ns' h = ok-carries AreResolved h tt
    resolve_children-AreResolved (cons n ns) ns' h =
        let (m, runs, rest) = >>=-ok (resolve load n) _ ns' h in
        let (ms, more, made) = >>=-ok (resolve_children load ns) _ ns' rest in
        ok-carries AreResolved made
          ((resolve-Becomes n m runs).1, resolve_children-AreResolved ns ms more)

    resolve_values-ValuesResolved :
        (ns ns' : Nodes) → resolve_values load ns ≡ ok ns' → ValuesResolved ns'
    resolve_values-ValuesResolved nil ns' h = ok-carries ValuesResolved h tt
    resolve_values-ValuesResolved (cons key nil) ns' h = ok-carries ValuesResolved h tt
    resolve_values-ValuesResolved (cons key (cons n ns)) ns' h =
        let (m, runs, rest) = >>=-ok (replaced load n (resolve load n)) _ ns' h in
        let (ms, more, made) = >>=-ok (resolve_values load ns) _ ns' rest in
        let (plain, resolved) =
          replaced-Settled n m (resolve load n) runs (λ n' e. resolve-Becomes n n' e) in
        ok-carries ValuesResolved made (plain, resolved, resolve_values-ValuesResolved ns ms more)

    resolve_items-ItemsResolved :
        (ns ns' : Nodes) → resolve_items load ns ≡ ok ns' → ItemsResolved ns'
    resolve_items-ItemsResolved nil ns' h = ok-carries ItemsResolved h tt
    resolve_items-ItemsResolved (cons n ns) ns' h =
        let (ms, runs, rest) = >>=-ok (item_nodes load n (resolve load n)) _ ns' h in
        let (ks, more, made) = >>=-ok (resolve_items load ns) _ ns' rest in
        ok-carries ItemsResolved made (
          ItemsResolved-append_nodes ms ks
            (item_nodes-ItemsResolved n ms (resolve load n) runs (λ n' e. resolve-Becomes n n' e))
            (resolve_items-ItemsResolved ns ks more))

  -- The node that is left of a document, where its root is not tagged itself.
  unwrap-Settled :
      (doc doc' : Node)
      → resolve load doc ≡ ok doc'
      → is_include (unwrap doc) ≡ false
      → Settled (unwrap doc')
  unfolding resolve unwrap IsResolved is_include tag
  unwrap-Settled (node document t v nil) doc' h k = ok-carries (λ d. Settled (unwrap d)) h (k, tt)
  unwrap-Settled (node document t v (cons n ns)) doc' h k =
      let (ms, runs, made) = >>=-ok (resolve_children load (cons n ns)) _ doc' h in
      let (m, first, rest) = >>=-ok (resolve load n) _ ms runs in
      let (later, more, all) = >>=-ok (resolve_children load ns) _ ms rest in
      let (same, resolved) = resolve-Becomes n m first in
      ok-carries (λ d. Settled (unwrap d)) made
        (ok-carries (λ ks. Settled (unwrap (node document t v ks))) all (same ∙ k, resolved))
  unwrap-Settled (node mapping t v content) doc' h k =
      let (ns, runs, made) = >>=-ok (resolve_values load content) _ doc' h in
      ok-carries (λ d. Settled (unwrap d)) made (k, resolve_values-ValuesResolved content ns runs)
  unwrap-Settled (node sequence t v content) doc' h k =
      let (ns, runs, made) = >>=-ok (resolve_items load content) _ doc' h in
      ok-carries (λ d. Settled (unwrap d)) made (k, resolve_items-ItemsResolved content ns runs)
  unwrap-Settled (node scalar t v content) doc' h k = ok-carries (λ d. Settled (unwrap d)) h (k, tt)
  unwrap-Settled (alias target) doc' h k =
      let (m, runs, made) = >>=-ok (resolve load target) _ doc' h in
      ok-carries (λ d. Settled (unwrap d)) made (k, (resolve-Becomes target m runs).1)

module _ {E : Type 0} (files : Files E)
    (plain_roots : (path : String) (doc : Node)
      → files.parse path ≡ ok doc
      → is_include (unwrap doc) ≡ false) where
  parsed-ok : (r : Result E Node) (n : Node) → parsed files r ≡ ok n → r ≡ ok n
  unfolding parsed
  parsed-ok (ok m) n h = ok-carries (λ k. ◌≡◌ {A = Result E Node} (ok m) (ok k)) h refl
  parsed-ok (err e) n h = cc

  load_include-Settled :
      (fuel : ℕ) (base : String) (visited : List String) (path : String) (n : Node)
      → load_include files fuel base visited path ≡ ok n
      → Settled n
  unfolding load_include
  load_include-Settled zero base visited path n h = cc
  load_include-Settled (suc fuel) base visited path n h =
      let abs = files.absolute base path in
      let nested = load_include files fuel (files.dir abs) (abs ∷ visited) in
      elim (Bool-cases (is_visited abs visited)) [
        | inl e ↦ cc (rw (e, load_include) at h)
        | inr e ↦
            let opened = rw (e, load_include) at h in
            let (doc', runs, made) =
              >>=-ok (parsed files (files.parse abs) >>= resolve nested) _ n opened in
            let (doc, read, resolves) =
              >>=-ok (parsed files (files.parse abs)) (resolve nested) doc' runs in
            ok-carries Settled made (
              unwrap-Settled nested
                (λ p m loaded. load_include-Settled fuel (files.dir abs) (abs ∷ visited) p m loaded)
                doc doc' resolves (plain_roots abs doc (parsed-ok (files.parse abs) doc read)))
      ]

  -- For files without an alias inside the node that it refers to, where the root of none is itself
  -- tagged to be included: if `LoadConfig` reads a file, no value of a mapping and no item of a
  -- sequence, at any depth and inside the nodes that aliases refer to, is still tagged to be included.
  -- Of an alias that is such a value or item nothing is said about the tag of its node, which the
  -- source leaves.
  pub load_config-IsResolved :
      (fuel : ℕ) (abs : String) (doc : Node) → load_config files fuel abs ≡ ok doc → IsResolved doc
  unfolding load_config
  load_config-IsResolved fuel abs doc h =
      let nested = load_include files fuel (files.dir abs) (abs ∷ []) in
      let (read, parses, resolves) =
        >>=-ok (parsed files (files.parse abs)) (resolve nested) doc h in
      (resolve-Becomes nested (load_include-Settled fuel (files.dir abs) (abs ∷ [])) read doc
        resolves).1
