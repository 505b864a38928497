-- ===== src/Health/Errors.antt =====
-- What follows when a synchronization of the health insights returns no error
-- (internal/controller/clusterversions/impl.go).
use openshift_update_experie.Prelude.{
  String, ◌≡◌, refl, ap, ◌∙◌, Bool, true, not, ◌&&◌, List, [], ◌∷◌, ◌++◌, Option, none, some,
  eq_iff, lookup, arith,
}
use openshift_update_experie.Mco.{is_some}
use openshift_update_experie.Api.{UpdateHealthInsightStatus}
use openshift_update_experie.Client.{WriteResult, written, conflict, already_exists, write_error}
use openshift_update_experie.Health.Sync.{
  ClusterInsights, OurInsights, SyncAnswers, Progress, to_create, to_update, to_delete,
  record_write, create_referenced, create_one, update_one, delete_one, for_each,
  reconcile_health_insights,
}
use openshift_update_experie.Health.Synced.{
  mem, mem-to_create, mem-to_update, mem-to_delete, wrote, creates, updates, deletes, fate,
  reconcile_health_insights_lem,
}

longer : (xs : List String) (x : String) → xs ++ x ∷ [] ≡ [] → ⊥
longer [] x h = cc h
longer (y ∷ xs) x h = cc h

-- A step that reports no error has met none, and its write succeeded.
abbrev Reports : (String → Progress → Progress) → (String → Bool) → Type 0
Reports step ok = (m : String) (p : Progress) → (step m p).1 ≡ [] → (p.1 ≡ []) × (ok m ≡ true)

for_each-Reports :
    (step : String → Progress → Progress) (ok : String → Bool)
    → Reports step ok
    → (ns : List String) (p : Progress) → (for_each step ns p).1 ≡ []
    → (p.1 ≡ []) × ((n : String) → mem n ns ≡ true → ok n ≡ true)
unfolding for_each
for_each-Reports step ok reports [] p h = (h, λ n m. cc m)
for_each-Reports step ok reports (x ∷ ns) p h =
    let (e, rest) = for_each-Reports step ok reports ns (step x p) h in
    let (d, w) = reports x p e in (d, λ n m. ground (arith, eq_iff x n, rest n, w))

recorded_error :
    (w : WriteResult) (before after : ClusterInsights) (errors : List String)
    → (record_write w before after errors).1 ≡ []
    → (errors ≡ []) × (wrote w ≡ true)
recorded_error written before after errors h = (h, refl)
recorded_error conflict before after errors h = absurd (longer errors _ h)
recorded_error already_exists before after errors h = absurd (longer errors _ h)
recorded_error (write_error e) before after errors h = absurd (longer errors _ h)

module _ (answers : SyncAnswers) (ours : OurInsights) where
  referenced_error :
      (r : Option String) (m : String) (p : Progress)
      → (create_referenced answers ours r m p).1 ≡ []
      → (p.1 ≡ []) × ((not (is_some r) && wrote (answers.on_create m)) ≡ true)
  referenced_error none m p h = recorded_error (answers.on_create m) _ _ p.1 h
  referenced_error (some e) m p h = absurd (longer p.1 e h)

  create-Reports : Reports (create_one answers ours) (creates answers)
  create-Reports m p h = referenced_error (answers.set_controller_reference m) m p h

  update-Reports : Reports (update_one answers ours) (updates answers)
  update-Reports m p h = recorded_error (answers.on_update m) _ _ p.1 h

  delete-Reports : Reports (delete_one answers ours) (deletes answers)
  delete-Reports m p h = recorded_error (answers.on_delete m) _ _ p.1 h

-- What is held under a name once all calls have succeeded.
abbrev pub held :
    Option (Option UpdateHealthInsightStatus)
    → Option UpdateHealthInsightStatus
    → Option (Option UpdateHealthInsightStatus)
held old none = none
held none (some s) = some none
held (some old) (some s) = some (some s)

settled :
    (answers : SyncAnswers) (n : String) (old : Option (Option UpdateHealthInsightStatus))
    (wanted : Option UpdateHealthInsightStatus)
    → ((not (is_some old) && is_some wanted) ≡ true → creates answers n ≡ true)
    → ((is_some wanted && is_some old) ≡ true → updates answers n ≡ true)
    → ((not (is_some wanted) && is_some old) ≡ true → deletes answers n ≡ true)
    → fate answers n old wanted ≡ held old wanted
settled answers n none none c u d = refl
settled answers n none (some s) c u d = rw (c refl) refl
settled answers n (some old) none c u d = rw (d refl) refl
settled answers n (some old) (some s) c u d = rw (u refl) refl

-- The wanted status, held in full.
abbrev pub in_full : Option UpdateHealthInsightStatus → Option (Option UpdateHealthInsightStatus)
in_full none = none
in_full (some s) = some (some s)

held_again :
    (old : Option (Option UpdateHealthInsightStatus)) (wanted : Option UpdateHealthInsightStatus)
    → held (held old wanted) wanted ≡ in_full wanted
held_again old none = refl
held_again none (some s) = refl
held_again (some old) (some s) = refl

module _ (unsorted : List String → List String)
    (same_members : (n : String) (ns : List String) → mem n (unsorted ns) ≡ mem n ns) where
  -- A synchronization without an error has made every call that it owes.
  all_made :
      (answers : SyncAnswers) (cluster : ClusterInsights) (ours : OurInsights)
      → (reconcile_health_insights unsorted answers cluster ours).1 ≡ []
      → (n : String)
      → fate answers n (lookup n cluster) (lookup n ours) ≡ held (lookup n cluster) (lookup n ours)
  unfolding reconcile_health_insights
  all_made answers cluster ours h n =
      let created =
        for_each (create_one answers ours) (unsorted (to_create cluster ours)) (cluster, []) in
      let updated =
        for_each (update_one answers ours) (unsorted (to_update cluster ours)) created in
      let d =
        for_each-Reports (delete_one answers ours) (deletes answers) (delete-Reports answers ours)
          (unsorted (to_delete cluster ours)) updated h in
      let u =
        for_each-Reports (update_one answers ours) (updates answers) (update-Reports answers ours)
          (unsorted (to_update cluster ours)) created d.0 in
      let c =
        for_each-Reports (create_one answers ours) (creates answers) (create-Reports answers ours)
          (unsorted (to_create cluster ours)) (cluster, []) u.0 in
      settled answers n (lookup n cluster) (lookup n ours)
        (λ e. c.1 n (mem-to_create unsorted same_members cluster ours n ∙ e))
        (λ e. u.1 n (mem-to_update unsorted same_members cluster ours n ∙ e))
        (λ e. d.1 n (mem-to_delete unsorted same_members cluster ours n ∙ e))

  -- A synchronization that returns no error leaves exactly the wanted insights in the cluster: the
  -- ones that were there with the wanted status, the new ones without a status as yet.
  synced_without_error :
      (answers : SyncAnswers) (cluster : ClusterInsights) (ours : OurInsights)
      → (reconcile_health_insights unsorted answers cluster ours).1 ≡ []
      → (n : String)
      → lookup n (reconcile_health_insights unsorted answers cluster ours).0
        ≡ held (lookup n cluster) (lookup n ours)
  synced_without_error answers cluster ours h n =
      reconcile_health_insights_lem answers unsorted cluster ours same_members n
      ∙ all_made answers cluster ours h n

  -- Two synchronizations in a row that return no error leave the wanted insights with their statuses,
  -- and nothing else.
  pub synced_twice :
      (answers later : SyncAnswers) (cluster : ClusterInsights) (ours : OurInsights)
      → let once = reconcile_health_insights unsorted answers cluster ours in
        let twice = reconcile_health_insights unsorted later once.0 ours in
        once.1 ≡ [] → twice.1 ≡ [] → (n : String) → lookup n twice.0 ≡ in_full (lookup n ours)
  synced_twice answers later cluster ours h k n =
      synced_without_error later (reconcile_health_insights unsorted answers cluster ours).0 ours k
        n
      ∙ ap (λ o. held o (lookup n ours)) (synced_without_error answers cluster ours h n)
      ∙ held_again (lookup n cluster) (lookup n ours)
