-- ===== src/NodeState/Controller/Requests.antt =====
-- When the handlers ask for the nodes to be evaluated again
-- (internal/controller/nodestate/impl.go and caches.go).
use openshift_update_experie.Prelude.{
  String, ◌≡◌, ◌≢◌, refl, ap, ◌∙◌, inl, inr, Bool, true, false, List, [], Option, none, some,
  if◌then◌else◌, ◌==◌, eq_iff, lookup, lookup-insert, lookup-remove, arith, Bool-cases,
}
use openshift_update_experie.Mco.{
  Node, MachineConfig, get?, is_some, release_image_version_annotation_key,
}
use openshift_update_experie.NodeState.Caches.{
  SelectorApi, VersionCache, ingest_version, version_for, ingest_annotated, version_changed,
}
use openshift_update_experie.NodeState.Controller.State.{Controller}
use openshift_update_experie.NodeState.Controller.Handlers.{
  handle_machine_config, requests_for_all_nodes,
}

-- The version that a config's annotation gives: an empty one counts as none.
abbrev pub version_of : Option String → Option String
version_of none = none
version_of (some v) = if v == "" then none else some v

-- The flag tells whether two optional versions differ.
abbrev Tells : Bool → Option String → Option String → Type 0
Tells flag given previous = (flag ≡ false → given ≡ previous) × (flag ≡ true → given ≢ previous)

removed-Tells : (previous : Option String) → Tells (is_some previous) none previous
removed-Tells none = (λ h. refl, λ h. cc h)
removed-Tells (some w) = (λ h. cc h, λ h e. cc e)

changed-Tells :
    (previous : Option String) (v : String) → Tells (version_changed previous v) (some v) previous
changed-Tells none v = (λ h. cc h, λ h e. cc e)
changed-Tells (some w) v = (λ h. ground (arith, eq_iff w v), λ h e. ground (arith, eq_iff w v))

annotated :
    (cache : VersionCache) (name other : String) (o : Option String)
    → (lookup other (ingest_annotated cache name o).0
        ≡ (if name == other then version_of o else lookup other cache))
      × Tells (ingest_annotated cache name o).1 (version_of o) (lookup name cache)
annotated cache name other none =
    (lookup-remove name other cache, removed-Tells (lookup name cache))
annotated cache name other (some v) = elim (Bool-cases (v == "")) [
  | inl e ↦ rw e (lookup-remove name other cache, removed-Tells (lookup name cache))
  | inr e ↦ rw e (lookup-insert name other v cache, changed-Tells (lookup name cache) v)
]

-- After a config was ingested, its version is the one of its annotation, and the others are as they
-- were; the flag says whether the version of the config is another than before.
ingest_version_lem :
    (cache : VersionCache) (mc : MachineConfig) (other : String)
    → let ingested = ingest_version cache mc in
      let given = version_of (get? mc.annotations release_image_version_annotation_key) in
      (version_for ingested.0 other ≡ (if mc.name == other then given else version_for cache other))
      × (ingested.1 ≡ false → given ≡ version_for cache mc.name)
      × (ingested.1 ≡ true → given ≢ version_for cache mc.name)
unfolding ingest_version version_for
ingest_version_lem cache mc other =
    let (reads, tells) =
      annotated cache mc.name other (get? mc.annotations release_image_version_annotation_key) in
    (reads, tells.0, tells.1)

same_version :
    (name other : String) (cache : VersionCache) (given : Option String)
    → given ≡ version_for cache name
    → (if name == other then given else version_for cache other) ≡ version_for cache other
same_version name other cache given h = elim (Bool-cases (name == other)) [
  | inl e ↦ rw e (h ∙ ap (version_for cache) ((eq_iff _ _).0 e))
  | inr e ↦ rw e refl
]

-- A changed config asks for all nodes exactly if its version changed; otherwise no node is asked for,
-- and every config has the version that it had.
pub handle_machine_config_lem :
    (api : SelectorApi) (c : Controller api) (mc : MachineConfig) (nodes : Option (List Node))
    → let handled = handle_machine_config api c mc nodes in
      let given = version_of (get? mc.annotations release_image_version_annotation_key) in
      (given ≢ version_for c.machine_config_versions mc.name
        → handled.1 ≡ requests_for_all_nodes nodes)
      × (given ≡ version_for c.machine_config_versions mc.name
          → (handled.1 ≡ [])
            × ((other : String)
                → version_for handled.0.machine_config_versions other
                  ≡ version_for c.machine_config_versions other))
unfolding handle_machine_config
handle_machine_config_lem api c mc nodes =
    let cache = c.machine_config_versions in
    let tells = ingest_version_lem cache mc mc.name in
    let flags = Bool-cases (ingest_version cache mc).1 in
    (
      λ h. elim flags [ inl t ↦ rw t refl | inr f ↦ absurd (h (tells.1 f)) ],
      λ h. elim flags [
        | inl t ↦ absurd (tells.2 t h)
        | inr f ↦ (
          rw f refl,
          λ other.
              (ingest_version_lem cache mc other).0
              ∙ same_version mc.name other cache
                  (version_of (get? mc.annotations release_image_version_annotation_key)) h,
        )
      ],
    )
