-- ===== src/Config.antt =====
-- pkg/config/config.go: the parts of a workload file that validation reads, and the operations that
-- list a request's queries. Durations are in nanoseconds. A YAML map is a list of its entries in
-- the order in which the program's `range` visits them. Fields that only the expression compiler
-- or the database driver reads (counts, sizes, compiled programs) are left out.
pub mod Validate
pub mod Include
use edg.Prelude.{
  ℕ, zero, String, List, [], ◌∷◌, ◌++◌, map, Option, none, some, Bool, true, false, str_eq, ◌||◌,
  not, if◌then◌else◌, ◌==◌, length,
}
use edg.Prelude.Int.{ℤ}

pub data Section : Type 0 where
  up seed deseed down init run worker : Section

pub record Query : Type 0 where
  pub name : String
  pub type : String
  pub prepared : Bool
  pub row : String
  pub args : List String
  pub query : String
  pub rollback_if : String
  pub print : List String

pub record Transaction : Type 0 where
  pub name : String
  pub locals : List (String × String)
  pub queries : List Query

-- Two pointers, at most one of which is set when the item comes from a file.
pub record RunItem : Type 0 where
  pub query : Option Query
  pub transaction : Option Transaction

pub record Worker : Type 0 where
  pub query : Query
  pub times : ℤ
  pub interval : ℤ

pub record Request : Type 0 where
  pub globals : List String
  pub expressions : List (String × String)
  pub rows : List (String × List String)
  pub seq : List String
  pub up : List Query
  pub seed : List Query
  pub deseed : List Query
  pub down : List Query
  pub init : List Query
  pub run_weights : List (String × ℤ)
  pub run : List RunItem
  pub workers : List Worker
  pub expectations : ℕ

-- `RunItem.Name`
unfoldable pub item_name : RunItem → String
item_name item = elim item.transaction [
  | some tx ↦ tx.name
  | none ↦ elim item.query [ some q ↦ q.name | none ↦ "" ]
]

-- `RunItem.AllQueries`
unfoldable pub all_queries : RunItem → List Query
all_queries item = elim item.transaction [
  | some tx ↦ tx.queries
  | none ↦ elim item.query [ some q ↦ q ∷ [] | none ↦ [] ]
]

-- `RunItem.IsTransaction`
unfoldable pub is_transaction : RunItem → Bool
is_transaction item = elim item.transaction [ some tx ↦ true | none ↦ false ]

-- `Query.IsRollbackIf` and `Query.IsBatch`
unfoldable pub is_rollback_if : Query → Bool
is_rollback_if q = not (str_eq q.rollback_if "")

unfoldable pub is_batch : Query → Bool
is_batch q = str_eq q.type "query_batch" || str_eq q.type "exec_batch"

pub run_queries : List RunItem → List Query
unfolding all_queries
run_queries [] = []
run_queries (item ∷ items) = all_queries item ++ run_queries items

-- `Request.RunAllQueries` and `Request.WorkerQueries`
unfoldable pub run_all_queries : Request → List Query
unfolding run_queries
run_all_queries r = run_queries r.run

unfoldable pub worker_queries : Request → List Query
worker_queries r = map (λ w. w.query) r.workers

pub record QueryGroup : Type 0 where
  pub section : Section
  pub name : String
  pub queries : List Query

unfoldable pub query_groups : Request → List QueryGroup
unfolding run_all_queries worker_queries
query_groups r =
    record { section = Section.up; name = "up"; queries = r.up }
    ∷ record { section = Section.seed; name = "seed"; queries = r.seed }
    ∷ record { section = Section.deseed; name = "deseed"; queries = r.deseed }
    ∷ record { section = Section.down; name = "down"; queries = r.down }
    ∷ record { section = Section.init; name = "init"; queries = r.init }
    ∷ record { section = Section.run; name = "run"; queries = run_all_queries r }
    ∷ record { section = Section.worker; name = "workers"; queries = worker_queries r }
    ∷ []

-- The number of a section in the source's order; two sections are equal if their numbers are.
pub section_number : Section → ℕ
section_number Section.up = 0
section_number Section.seed = 1
section_number Section.deseed = 2
section_number Section.down = 3
section_number Section.init = 4
section_number Section.run = 5
section_number Section.worker = 6

-- Membership in the set that `sectionSet` makes.
unfoldable pub in_sections : List Section → Section → Bool
unfolding section_number
in_sections [] s = false
in_sections (t ∷ ts) s = section_number t == section_number s || in_sections ts s

-- `sections.has`: no section given stands for all.
unfoldable pub has : List Section → Section → Bool
unfolding in_sections
has [] s = true
has (t ∷ ts) s = in_sections (t ∷ ts) s

pub active_groups : List Section → List QueryGroup → List QueryGroup
unfolding in_sections
active_groups active [] = []
active_groups active (g ∷ gs) =
    let rest = active_groups active gs in if in_sections active g.section then g ∷ rest else rest

-- `Request.queryGroupsFor`
unfoldable pub query_groups_for : Request → List Section → List QueryGroup
unfolding query_groups active_groups
query_groups_for r [] = query_groups r
query_groups_for r (s ∷ ss) = active_groups (s ∷ ss) (query_groups r)
