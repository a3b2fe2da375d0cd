-- ===== src/Witnesses/Includes.antt =====
-- The theorems on included files at concrete inputs.
use edg.Prelude.{
  String, List, [], ◌∷◌, true, false, if◌then◌else◌, str_eq, str_eq_iff, ok, err, ◌≡◌, refl, arith,
  Bool-cases, inl, inr, ok-carries,
}
use edg.Config.Include.{
  document, mapping, sequence, scalar, Node, node, nil, cons, Files, unwrap, is_include, is_visited,
  load_config, tag, resolve, extract_globals_order,
}
use edg.Config.Include.Resolved.{IsResolved, load_config-IsResolved}

abbrev text : String → String → Node
text tag value = node scalar tag value nil

-- `globals: {rows: 5}`, then a list of queries of which one is in another file
abbrev main_file : Node
main_file = node document "" "" (
    cons
      (node mapping "" "" (
        cons (text "" "globals") (
          cons (node mapping "" "" (cons (text "" "rows") (cons (text "" "5") nil))) (
            cons (text "" "seed") (
              cons (node sequence "" "" (cons (text "!include" "more") (cons (text "" "c") nil)))
                nil)))))
      nil)

abbrev more_file : Node
more_file =
    node document "" ""
      (cons (node sequence "" "" (cons (text "" "a") (cons (text "" "b") nil))) nil)

abbrev files : Files String
files = record {
  parse = λ path.
      if str_eq path "main"
      then ok main_file
      else if str_eq path "more"
      then ok more_file
      else err "no file";
  absolute = λ base path. path;
  dir = λ path. "";
}

abbrev known : List String
known = "main" ∷ "more" ∷ []

all_known : (path : String) (n : Node) → files.parse path ≡ ok n → is_visited path known ≡ true
unfolding is_visited
all_known path n h = ground (
  arith,
  str_eq_iff path "main",
  str_eq_iff path "more",
  str_eq_iff "main" path,
  str_eq_iff "more" path,
)

plain_roots :
    (path : String) (doc : Node) → files.parse path ≡ ok doc → is_include (unwrap doc) ≡ false
unfolding unwrap is_include tag
plain_roots path doc h = elim (Bool-cases (str_eq path "main")) [
  | inl e ↦ ok-carries (λ d. is_include (unwrap d) ≡ false) (rw e at h) refl
  | inr e ↦ elim (Bool-cases (str_eq path "more")) [
    | inl f ↦ ok-carries (λ d. is_include (unwrap d) ≡ false) (rw (e, f) at h) refl
    | inr f ↦ cc (rw (e, f) at h)
  ]
]

abbrev resolved_file : Node
resolved_file = node document "" "" (
    cons
      (node mapping "" "" (
        cons (text "" "globals") (
          cons (node mapping "" "" (cons (text "" "rows") (cons (text "" "5") nil))) (
            cons (text "" "seed") (
              cons
                (node sequence "" ""
                  (cons (text "" "a") (cons (text "" "b") (cons (text "" "c") nil))))
                nil)))))
      nil)

loaded : load_config files 2 "main" ≡ ok resolved_file
unfolding load_config resolve
loaded = refl

globals_order : extract_globals_order main_file ≡ "rows" ∷ []
unfolding extract_globals_order
globals_order = refl

load_config-IsResolved_example : IsResolved resolved_file
load_config-IsResolved_example =
    load_config-IsResolved files plain_roots 2 "main" resolved_file loaded
