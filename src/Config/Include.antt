-- ===== src/Config/Include.antt =====
-- `resolveIncludes` and `loadInclude` (pkg/config/include.go), `LoadConfig` up to the decoding and
-- `extractGlobalsOrder` (pkg/config/load.go). The nodes are those of the YAML library; its parser,
-- the files and the functions on paths are the fields of `Files`. Nodes are changed in place there
-- and rebuilt here. An include opens a file, so the fuel counts the files that are open at a time. A
-- node is a finite tree in which an alias holds a copy of the node that it refers to: documents with
-- an alias inside that node, on which `resolveIncludes` does not return, have no such tree.
pub mod Ends
pub mod Resolved
use edg.Prelude.{
  ℕ, zero, suc, String, List, [], ◌∷◌, Option, none, some, Bool, true, false, ◌||◌, if◌then◌else◌,
  str_eq, Result, ok, err, ◌>>=◌,
}

pub data Kind : Type 0 where
  document mapping sequence scalar : Kind

mutual
  pub data Node : Type 0 where
    -- the kind, the tag, the value and the content
    node : Kind → String → String → Nodes → Node
    alias : Node → Node

  pub data Nodes : Type 0 where
    nil : Nodes
    cons : Node → Nodes → Nodes

pub record Files (E : Type 0) : Type 0 where
  -- `os.ReadFile` and `yaml.Unmarshal`
  pub parse : String → Result E Node
  -- the cleaned path, joined to the base directory if it is relative; `filepath.Dir`
  pub absolute : String → String → String
  pub dir : String → String

pub data IncludeError (E : Type 0) : Type 0 where
  circular : String → IncludeError E
  unreadable : E → IncludeError E
  -- the model's own: more files are open than the fuel
  out_of_fuel : IncludeError E

unfoldable pub tag : Node → String
tag (node kind t value content) = t
tag (alias target) = ""

unfoldable pub value : Node → String
value (node kind t v content) = v
value (alias target) = ""

unfoldable pub is_include : Node → Bool
unfolding tag
is_include n = str_eq (tag n) "!include"

unfoldable pub append_nodes : Nodes → Nodes → Nodes
append_nodes nil ns = ns
append_nodes (cons m ms) ns = cons m (append_nodes ms ns)

-- the items that replace an included item: those of a sequence, or the node itself
unfoldable pub spliced : Node → Nodes
spliced (node sequence t v content) = content
spliced n = cons n nil

module _ {E : Type 0} (load : String → Result E Node) where
  -- `loadInclude` of a node's value in place of the node, if it is tagged, or the resolved node
  unfoldable pub replaced : Node → Result E Node → Result E Node
  unfolding is_include value
  replaced n inner = if is_include n then load (value n) else inner

  -- the nodes that stand for an item of a sequence
  unfoldable pub item_nodes : Node → Result E Node → Result E Nodes
  unfolding is_include value spliced
  item_nodes n inner =
      if is_include n
      then load (value n) >>= (λ m. ok (spliced m))
      else inner >>= (λ m. ok (cons m nil))

  unfoldable mutual
    unfolding replaced item_nodes append_nodes

    pub resolve : Node → Result E Node
    resolve (node document t v content) =
        resolve_children content >>= (λ ns. ok (node document t v ns))
    resolve (node mapping t v content) = resolve_values content >>= (λ ns. ok (node mapping t v ns))
    resolve (node sequence t v content) =
        resolve_items content >>= (λ ns. ok (node sequence t v ns))
    resolve (node scalar t v content) = ok (node scalar t v content)
    resolve (alias target) = resolve target >>= (λ n. ok (alias n))

    pub resolve_children : Nodes → Result E Nodes
    resolve_children nil = ok nil
    resolve_children (cons n ns) = do n' ← resolve n; ns' ← resolve_children ns; ok (cons n' ns')

    -- [key, value, key, value, ...]
    pub resolve_values : Nodes → Result E Nodes
    resolve_values nil = ok nil
    resolve_values (cons key nil) = ok (cons key nil)
    resolve_values (cons key (cons n ns)) = do
      n' ← replaced n (resolve n)
      ns' ← resolve_values ns
      ok (cons key (cons n' ns'))

    pub resolve_items : Nodes → Result E Nodes
    resolve_items nil = ok nil
    resolve_items (cons n ns) = do
      ms ← item_nodes n (resolve n)
      ns' ← resolve_items ns
      ok (append_nodes ms ns')

unfoldable pub unwrap : Node → Node
unwrap (node document t v (cons n ns)) = n
unwrap n = n

unfoldable pub is_visited : String → List String → Bool
is_visited path [] = false
is_visited path (p ∷ ps) = str_eq p path || is_visited path ps

module _ {E : Type 0} (files : Files E) where
  unfoldable pub parsed : Result E Node → Result (IncludeError E) Node
  parsed (err e) = err (unreadable e)
  parsed (ok n) = ok n

  -- `loadInclude` with the path after the base directory and the visited files
  unfoldable pub load_include : ℕ → String → List String → String → Result (IncludeError E) Node
  unfolding parsed resolve unwrap is_visited
  load_include zero base visited path = err out_of_fuel
  load_include (suc fuel) base visited path =
      let abs = files.absolute base path in
      let doc = parsed (files.parse abs) in
      let nested = load_include fuel (files.dir abs) (abs ∷ visited) in
      if is_visited abs visited
      then err (circular abs)
      else (doc >>= resolve nested >>= (λ n. ok (unwrap n)))

  -- the document that `LoadConfig` decodes, from an absolute path
  unfoldable pub load_config : ℕ → String → Result (IncludeError E) Node
  unfolding parsed resolve load_include
  load_config fuel abs = do
    doc ← parsed (files.parse abs)
    resolve (load_include fuel (files.dir abs) (abs ∷ [])) doc

-- `extractGlobalsOrder`: the keys of a mapping, in pairs [key, value, ...]
unfoldable pub pair_keys : Nodes → List String
unfolding value
pair_keys nil = []
pair_keys (cons key nil) = []
pair_keys (cons key (cons n ns)) = value key ∷ pair_keys ns

unfoldable pub mapping_keys : Node → List String
unfolding pair_keys
mapping_keys (node mapping t v content) = pair_keys content
mapping_keys n = []

unfoldable pub keys_below : String → Nodes → List String
unfolding value mapping_keys
keys_below name nil = []
keys_below name (cons key nil) = []
keys_below name (cons key (cons n ns)) =
    let later = keys_below name ns in if str_eq (value key) name then mapping_keys n else later

unfoldable pub root_keys_below : String → Node → List String
unfolding keys_below
root_keys_below name (node mapping t v content) = keys_below name content
root_keys_below name n = []

unfoldable pub extract_globals_order : Node → List String
unfolding root_keys_below
extract_globals_order (node document t v (cons root ns)) = root_keys_below "globals" root
extract_globals_order doc = []
