-- ===== src/Mco/PoolState.antt =====
-- internal/mco/layered_pool_state.go.
use openshift_update_experie.Prelude.{String, Bool, false, not, Option, none, some, ◌==◌}
use openshift_update_experie.Mco.Constants.{
  layering_enabled_pool_label, experimental_newest_layered_image_equivalent_config_annotation_key,
}
use openshift_update_experie.Mco.Objects.{MachineConfigPool, get?, get, is_some}

-- The pool pointer may be nil.
unfoldable pub is_layered : Option MachineConfigPool → Bool
unfolding get?
is_layered none = false
is_layered (some pool) = is_some (get? pool.labels layering_enabled_pool_label)

unfoldable pub get_os_image : MachineConfigPool → String
unfolding get?
get_os_image pool =
    get pool.annotations experimental_newest_layered_image_equivalent_config_annotation_key

abbrev present_and_not_empty : Option String → Bool
present_and_not_empty none = false
present_and_not_empty (some v) = not (v == "")

unfoldable pub has_os_image : MachineConfigPool → Bool
unfolding get?
has_os_image pool =
    present_and_not_empty
      (get? pool.annotations experimental_newest_layered_image_equivalent_config_annotation_key)
