-- ===== src/Health/Synced.antt =====
-- What a synchronization of the health insights leaves in the cluster, name by name
-- (internal/controller/clusterversions/impl.go).
use openshift_update_experie.Prelude.{
  String, ◌≡◌, refl, ◌∙◌, Bool, true, false, not, ◌&&◌, List, [], ◌∷◌, Option, none, some,
  if◌then◌else◌, ◌==◌, eq_iff, any, select, lookup, insert, remove, lookup-insert, lookup-remove,
  arith,
}
use openshift_update_experie.Mco.{is_some}
use openshift_update_experie.Api.{UpdateHealthInsightStatus}
use openshift_update_experie.Client.{WriteResult, written, conflict, already_exists, write_error}
use openshift_update_experie.Health.Sync.{
  ClusterInsights, OurInsights, SyncAnswers, Progress, names, to_create, to_update, to_delete,
  record_write, create_referenced, create_one, update_one, delete_one, for_each,
  reconcile_health_insights,
}

abbrev pub mem : String → List String → Bool
mem n = any (λ x. x == n)

mem-select :
    (n : String) (q : String → Bool) (xs : List String) → mem n (select q xs) ≡ (q n && mem n xs)
mem-select n q [] = ground arith
mem-select n q (x ∷ xs) = ground (arith, mem-select n q xs, eq_iff x n)

mem-names :
    {A : Type 0} (n : String) (entries : List (String × A))
    → mem n (names entries) ≡ is_some (lookup n entries)
unfolding lookup
mem-names n [] = refl
mem-names n ((name, value) ∷ entries) = ground (arith, mem-names n entries)

-- The names that each of the three loops goes over, in whatever order.
module _ (unsorted : List String → List String)
    (same_members : (n : String) (ns : List String) → mem n (unsorted ns) ≡ mem n ns)
    (cluster : ClusterInsights) (ours : OurInsights) (n : String) where
  pub mem-to_create :
      mem n (unsorted (to_create cluster ours))
      ≡ (not (is_some (lookup n cluster)) && is_some (lookup n ours))
  mem-to_create =
      same_members n (to_create cluster ours)
      ∙ mem-select n (λ m. not (is_some (lookup m cluster))) (names ours)
      ∙ rw (mem-names n ours) refl

  pub mem-to_update :
      mem n (unsorted (to_update cluster ours))
      ≡ (is_some (lookup n ours) && is_some (lookup n cluster))
  mem-to_update =
      same_members n (to_update cluster ours)
      ∙ mem-select n (λ m. is_some (lookup m ours)) (names cluster)
      ∙ rw (mem-names n cluster) refl

  pub mem-to_delete :
      mem n (unsorted (to_delete cluster ours))
      ≡ (not (is_some (lookup n ours)) && is_some (lookup n cluster))
  mem-to_delete =
      same_members n (to_delete cluster ours)
      ∙ mem-select n (λ m. not (is_some (lookup m ours))) (names cluster)
      ∙ rw (mem-names n cluster) refl

-- A step that touches one name only: it sets it to a value if the write for the name succeeds.
abbrev Touches :
    (String → Progress → Progress)
    → (String → Bool)
    → (String → Option (Option UpdateHealthInsightStatus))
    → Type 0
Touches step ok value =
    (m n : String) (p : Progress)
    → lookup n (step m p).0
      ≡ (if m == n then (if ok n then value n else lookup n p.0) else lookup n p.0)

for_each-lookup :
    (step : String → Progress → Progress) (ok : String → Bool)
    (value : String → Option (Option UpdateHealthInsightStatus))
    → Touches step ok value
    → (n : String) (ns : List String) (p : Progress)
    → lookup n (for_each step ns p).0 ≡ (if mem n ns && ok n then value n else lookup n p.0)
unfolding for_each
for_each-lookup step ok value touches n [] p = refl
for_each-lookup step ok value touches n (m ∷ ns) p =
    ground (arith, for_each-lookup step ok value touches n ns (step m p), touches m n p)

abbrev pub wrote : WriteResult → Bool
wrote written = true
wrote conflict = false
wrote already_exists = false
wrote (write_error e) = false

recorded :
    (w : WriteResult) (before after : ClusterInsights) (errors : List String)
    → (record_write w before after errors).0 ≡ (if wrote w then after else before)
recorded written before after errors = refl
recorded conflict before after errors = refl
recorded already_exists before after errors = refl
recorded (write_error e) before after errors = refl

module _ (answers : SyncAnswers) where
  -- Whether the calls that an insight needs succeed.
  abbrev pub creates : String → Bool
  creates n = not (is_some (answers.set_controller_reference n)) && wrote (answers.on_create n)

  abbrev pub updates : String → Bool
  updates n = wrote (answers.on_update n)

  abbrev pub deletes : String → Bool
  deletes n = wrote (answers.on_delete n)

  -- What becomes of a name, given what the cluster holds under it and what is wanted.
  abbrev pub fate :
      String
      → Option (Option UpdateHealthInsightStatus)
      → Option UpdateHealthInsightStatus
      → Option (Option UpdateHealthInsightStatus)
  fate n none none = none
  fate n none (some s) = if creates n then some none else none
  fate n (some old) none = if deletes n then none else some old
  fate n (some old) (some s) = if updates n then some (some s) else some old

  module _ (ours : OurInsights) where
    referenced :
        (r : Option String) (m : String) (p : Progress)
        → (create_referenced answers ours r m p).0
          ≡ (if not (is_some r) && wrote (answers.on_create m) then insert m none p.0 else p.0)
    referenced none m p = recorded (answers.on_create m) p.0 (insert m none p.0) p.1
    referenced (some e) m p = refl

    create-Touches : Touches (create_one answers ours) creates (λ n. some none)
    create-Touches m n p =
        rw (referenced (answers.set_controller_reference m) m p)
          (ground (arith, eq_iff m n, lookup-insert m n none p.0))

    update-Touches : Touches (update_one answers ours) updates (λ n. some (lookup n ours))
    update-Touches m n p =
        rw (recorded (answers.on_update m) p.0 (insert m (lookup m ours) p.0) p.1)
          (ground (arith, eq_iff m n, lookup-insert m n (lookup m ours) p.0))

    delete-Touches : Touches (delete_one answers ours) deletes (λ n. none)
    delete-Touches m n p =
        rw (recorded (answers.on_delete m) p.0 (remove m p.0) p.1)
          (ground (arith, eq_iff m n, lookup-remove m n p.0))

  -- The three loops one after the other.
  decided :
      (n : String) (old : Option (Option UpdateHealthInsightStatus))
      (wanted : Option UpdateHealthInsightStatus)
      → (if (not (is_some wanted) && is_some old) && deletes n
          then none
          else if (is_some wanted && is_some old) && updates n
          then some wanted
          else if (not (is_some old) && is_some wanted) && creates n
          then some none
          else old)
        ≡ fate n old wanted
  decided n none none = refl
  decided n none (some s) = refl
  decided n (some old) none = ground arith
  decided n (some old) (some s) = refl

  -- Whatever fails, and in whatever order the sets of names are walked, each name ends as its own
  -- calls decide: a wanted insight that the cluster has not is there afterwards, without a status, if
  -- its creation was answered well; one that it has holds the wanted status if the update was, and
  -- else what it held; one that is not wanted is gone if the deletion was answered well, and else
  -- stays; a name that is in neither stays absent.
  pub reconcile_health_insights_lem :
      (unsorted : List String → List String) (cluster : ClusterInsights) (ours : OurInsights)
      → ((n : String) (ns : List String) → mem n (unsorted ns) ≡ mem n ns)
      → (n : String)
      → lookup n (reconcile_health_insights unsorted answers cluster ours).0
        ≡ fate n (lookup n cluster) (lookup n ours)
  unfolding reconcile_health_insights
  reconcile_health_insights_lem unsorted cluster ours h n =
      let created =
        for_each (create_one answers ours) (unsorted (to_create cluster ours)) (cluster, []) in
      let updated =
        for_each (update_one answers ours) (unsorted (to_update cluster ours)) created in
      for_each-lookup (delete_one answers ours) deletes (λ m. none) (delete-Touches ours) n
        (unsorted (to_delete cluster ours)) updated
      ∙ rw
          (
            for_each-lookup (update_one answers ours) updates (λ m. some (lookup m ours))
                (update-Touches ours) n (unsorted (to_update cluster ours)) created,
            for_each-lookup (create_one answers ours) creates (λ m. some none) (create-Touches ours)
                n (unsorted (to_create cluster ours)) (cluster, []),
            mem-to_create unsorted h cluster ours n,
            mem-to_update unsorted h cluster ours n,
            mem-to_delete unsorted h cluster ours n,
          )
          (decided n (lookup n cluster) (lookup n ours))
