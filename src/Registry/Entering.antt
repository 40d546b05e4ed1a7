-- ===== src/Registry/Entering.antt =====
-- js/core.js: what the maps of class Mesh hold, and what the changes of an entry leave of it.
use text.Mathlib.TextEquality.{eq_iff}
use telehash_c.Prelude.{
  ℕ, ◌≡◌, ◌⊎◌, String, none, some, List, [], ◌∷◌, ◌++◌, map, arith, length, get_elem?, All,
  All-append, get_elem?-snoc, get_elem?_bound,
}
use telehash_c.Prelude.Maps
use telehash_c.Registry.{Link, Job, announce, opened}

abbrev pub ids : List Link → List String
ids = map λ l. l.id

-- A job names a reference to an object of its id.
abbrev pub JobNamed : List String → Job → Type 0
JobNamed names (announce id ref no_emit) = get_elem? names ref ≡ some id
JobNamed names (opened id c_open) = Unit

pub record Inv (names : List String) (links dead : List (String × ℕ)) (jobs : List Job)
    : Type 0 where
  pub links_named : (k : String) (r : ℕ) → Maps.get k links ≡ some r → get_elem? names r ≡ some k
  pub dead_named : (k : String) (r : ℕ) → Maps.get k dead ≡ some r → get_elem? names r ≡ some k
  pub jobs_named : All (JobNamed names) jobs
  pub unique :
      (k : String) (r s : ℕ) → get_elem? names r ≡ some k → get_elem? names s ≡ some k → r ≡ s
  pub known :
      (k : String) (r : ℕ)
      → get_elem? names r ≡ some k
      → (Maps.get k links ≡ some r) ⊎ (Maps.get k dead ≡ some r)

JobNamed-snoc :
    (names : List String) (k : String) (job : Job)
    → JobNamed names job
    → JobNamed (names ++ k ∷ []) job
JobNamed-snoc names k (announce id ref no_emit) e =
    ground (arith, get_elem?-snoc names k ref, get_elem?_bound names ref id e)
JobNamed-snoc names k (opened id c_open) e = tt

jobs_named-snoc :
    (names : List String) (k : String) (jobs : List Job)
    → All (JobNamed names) jobs
    → All (JobNamed (names ++ k ∷ [])) jobs
jobs_named-snoc names k [] h = tt
jobs_named-snoc names k (job ∷ jobs) h =
    (JobNamed-snoc names k job h.0, jobs_named-snoc names k jobs h.1)

module _ {names : List String} {links dead : List (String × ℕ)} {jobs : List Job} where
  pub insert_link :
      (k : String) (r : ℕ)
      → get_elem? names r ≡ some k
      → Inv names links dead jobs
      → Inv names (Maps.insert k r links) dead jobs
  insert_link k r e v = record {
    links_named =
        λ j s h. ground (arith, Maps.get-insert k j r links, eq_iff k j, v.links_named j s);
    dead_named = v.dead_named;
    jobs_named = v.jobs_named;
    unique = v.unique;
    known = λ j s h.
        ground (arith, Maps.get-insert k j r links, eq_iff k j, v.known j s h, v.unique j r s);
  }

  -- A link leaves the list of links for the list of dead links.
  pub bury :
      (k : String) (r : ℕ)
      → get_elem? names r ≡ some k
      → Inv names links dead jobs
      → Inv names (Maps.delete k links) (Maps.insert k r dead) jobs
  bury k r e v = record {
    links_named = λ j s h. ground (arith, Maps.get-delete k j links, eq_iff k j, v.links_named j s);
    dead_named = λ j s h. ground (arith, Maps.get-insert k j r dead, eq_iff k j, v.dead_named j s);
    jobs_named = v.jobs_named;
    unique = v.unique;
    known = λ j s h. ground (
      arith,
      Maps.get-delete k j links,
      Maps.get-insert k j r dead,
      eq_iff k j,
      v.known j s h,
      v.unique j r s,
    );
  }

  pub add_job :
      (job : Job)
      → JobNamed names job
      → Inv names links dead jobs
      → Inv names links dead (jobs ++ job ∷ [])
  add_job job e v = record {
    links_named = v.links_named;
    dead_named = v.dead_named;
    jobs_named = All-append (JobNamed names) jobs (job ∷ []) v.jobs_named (e, tt);
    unique = v.unique;
    known = v.known;
  }

  -- A new object, of an id that neither map has.
  pub enter :
      (k : String)
      → Maps.get k links ≡ none
      → Maps.get k dead ≡ none
      → Inv names links dead jobs
      → Inv (names ++ k ∷ []) (Maps.insert k (length names) links) dead jobs
  enter k e f v = record {
    links_named = λ j s h. ground (
      arith,
      Maps.get-insert k j (length names) links,
      eq_iff k j,
      get_elem?-snoc names k s,
      v.links_named j s,
      get_elem?_bound names s j,
    );
    dead_named = λ j s h. ground (
      arith,
      get_elem?-snoc names k s,
      v.dead_named j s h,
      get_elem?_bound names s j (v.dead_named j s h),
    );
    jobs_named = jobs_named-snoc names k jobs v.jobs_named;
    unique = λ j r s h i. ground (
      arith,
      get_elem?-snoc names k r,
      get_elem?-snoc names k s,
      v.known k r,
      v.known k s,
      v.unique j r s,
    );
    known = λ j s h. ground (
      arith,
      Maps.get-insert k j (length names) links,
      eq_iff k j,
      get_elem?-snoc names k s,
      v.known j s,
      v.known k s,
    );
  }

-- The registry's own view of that.
