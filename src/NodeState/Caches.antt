-- ===== src/NodeState/Caches.antt =====
-- internal/controller/nodestate/caches.go. The text that `Ingest` returns beside its flag only goes
-- to the log, and is left out.
use openshift_update_experie.Prelude.{
  String, Bool, true, not, ◌&&◌, List, [], ◌∷◌, Option, none, some, if◌then◌else◌, ◌==◌, lookup,
  insert, remove,
}
use openshift_update_experie.Mco.{
  StringMap, LabelSelector, MachineConfig, get?, is_some, machine_config_pool_master,
  machine_config_pool_worker, release_image_version_annotation_key,
}

-- `labels.Selector` and `metav1.LabelSelectorAsSelector` of k8s.io/apimachinery, which fails on a
-- selector that it cannot convert; `none` is a nil selector.
pub record SelectorApi : Type 1 where
  pub Selector : Type 0
  pub matches : Selector → StringMap → Bool
  pub string : Selector → String
  pub label_selector_as_selector : Option LabelSelector → Option Selector

module _ (api : SelectorApi) where
  open api use {Selector, matches, string, label_selector_as_selector}

  abbrev pub SelectorCache : Type 0
  SelectorCache = List (String × Selector)

  -- The loop of `WhichMCP`: master and any pool but worker stop it.
  unfoldable pub which_from : String → SelectorCache → StringMap → String
  which_from ret [] l = ret
  which_from ret ((k, s) ∷ rest) l =
      let more = which_from (if matches s l then k else ret) rest l in
      if k == machine_config_pool_master && matches s l
      then machine_config_pool_master
      else if matches s l
      then (if k == machine_config_pool_worker then more else k)
      else more

  unfoldable pub which_mcp : SelectorCache → StringMap → String
  unfolding which_from
  which_mcp cache l = which_from "" cache l

  abbrev changed : Option Selector → Selector → Bool
  changed none s = true
  changed (some previous) s = not (string previous == string s)

  -- With the selector converted.
  abbrev ingest_converted : SelectorCache → String → Option Selector → SelectorCache × Bool
  ingest_converted cache name none = (remove name cache, is_some (lookup name cache))
  ingest_converted cache name (some s) = (insert name s cache, changed (lookup name cache) s)

  unfoldable pub ingest_selector :
      SelectorCache → String → Option LabelSelector → SelectorCache × Bool
  ingest_selector cache name selector =
      ingest_converted cache name (label_selector_as_selector selector)

  unfoldable pub forget_selector : SelectorCache → String → SelectorCache × Bool
  forget_selector cache name = (remove name cache, is_some (lookup name cache))

abbrev pub VersionCache : Type 0
VersionCache = List (String × String)

abbrev pub version_changed : Option String → String → Bool
version_changed none v = true
version_changed (some previous) v = not (previous == v)

abbrev pub ingest_annotated : VersionCache → String → Option String → VersionCache × Bool
ingest_annotated cache name none = (remove name cache, is_some (lookup name cache))
ingest_annotated cache name (some v) =
    if v == ""
    then (remove name cache, is_some (lookup name cache))
    else (insert name v cache, version_changed (lookup name cache) v)

unfoldable pub ingest_version : VersionCache → MachineConfig → VersionCache × Bool
unfolding get?
ingest_version cache mc =
    ingest_annotated cache mc.name (get? mc.annotations release_image_version_annotation_key)

unfoldable pub forget_version : VersionCache → String → VersionCache × Bool
forget_version cache name = (remove name cache, is_some (lookup name cache))

unfoldable pub version_for : VersionCache → String → Option String
version_for cache key = lookup key cache
