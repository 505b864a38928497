-- ===== src/Mco/Constants.antt =====
-- internal/mco/controller_common_constants.go and daemon_constants.go: the constants the program uses.
use openshift_update_experie.Prelude.{String}

abbrev pub release_image_version_annotation_key : String
release_image_version_annotation_key = "machineconfiguration.openshift.io/release-image-version"

abbrev pub machine_config_pool_master : String
machine_config_pool_master = "master"

abbrev pub machine_config_pool_worker : String
machine_config_pool_worker = "worker"

abbrev pub layering_enabled_pool_label : String
layering_enabled_pool_label = "machineconfiguration.openshift.io/layering-enabled"

abbrev pub experimental_newest_layered_image_equivalent_config_annotation_key : String
experimental_newest_layered_image_equivalent_config_annotation_key =
    "machineconfiguration.openshift.io/newestImageEquivalentConfig"

abbrev pub current_image_annotation_key : String
current_image_annotation_key = "machineconfiguration.openshift.io/currentImage"

abbrev pub desired_image_annotation_key : String
desired_image_annotation_key = "machineconfiguration.openshift.io/desiredImage"

abbrev pub current_machine_config_annotation_key : String
current_machine_config_annotation_key = "machineconfiguration.openshift.io/currentConfig"

abbrev pub desired_machine_config_annotation_key : String
desired_machine_config_annotation_key = "machineconfiguration.openshift.io/desiredConfig"

abbrev pub machine_config_daemon_state_annotation_key : String
machine_config_daemon_state_annotation_key = "machineconfiguration.openshift.io/state"

abbrev pub desired_drainer_annotation_key : String
desired_drainer_annotation_key = "machineconfiguration.openshift.io/desiredDrain"

abbrev pub last_applied_drainer_annotation_key : String
last_applied_drainer_annotation_key = "machineconfiguration.openshift.io/lastAppliedDrain"

abbrev pub drainer_state_drain : String
drainer_state_drain = "drain"

abbrev pub machine_config_daemon_state_done : String
machine_config_daemon_state_done = "Done"

abbrev pub machine_config_daemon_state_degraded : String
machine_config_daemon_state_degraded = "Degraded"

abbrev pub machine_config_daemon_state_rebooting : String
machine_config_daemon_state_rebooting = "Rebooting"

abbrev pub machine_config_daemon_state_unreconcilable : String
machine_config_daemon_state_unreconcilable = "Unreconcilable"

abbrev pub machine_config_daemon_reason_annotation_key : String
machine_config_daemon_reason_annotation_key = "machineconfiguration.openshift.io/reason"
