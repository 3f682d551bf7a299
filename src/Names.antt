-- ===== src/Names.antt =====
-- The constants of pkg/smb/smb.go.
use csi_driver_smb.Base.{List, [], ◌∷◌}
use csi_driver_smb.Text.{Text, codes}

abbrev pub username_field : Text
username_field = codes "username"

abbrev pub password_field : Text
password_field = codes "password"

abbrev pub source_field : Text
source_field = codes "source"

abbrev pub sub_dir_field : Text
sub_dir_field = codes "subdir"

abbrev pub domain_field : Text
domain_field = codes "domain"

abbrev pub mount_options_field : Text
mount_options_field = codes "mountoptions"

abbrev pub secret_name_field : Text
secret_name_field = codes "secretname"

abbrev pub secret_namespace_field : Text
secret_namespace_field = codes "secretnamespace"

abbrev pub param_on_delete : Text
param_on_delete = codes "ondelete"

abbrev pub default_domain_name : Text
default_domain_name = codes "AZURE"

abbrev pub ephemeral_field : Text
ephemeral_field = codes "csi.storage.k8s.io/ephemeral"

abbrev pub pod_namespace_field : Text
pod_namespace_field = codes "csi.storage.k8s.io/pod.namespace"

abbrev pub pvc_name_key : Text
pvc_name_key = codes "csi.storage.k8s.io/pvc/name"

abbrev pub pvc_namespace_key : Text
pvc_namespace_key = codes "csi.storage.k8s.io/pvc/namespace"

abbrev pub pv_name_key : Text
pv_name_key = codes "csi.storage.k8s.io/pv/name"

abbrev pub pvc_name_metadata : Text
pvc_name_metadata = codes "${pvc.metadata.name}"

abbrev pub pvc_namespace_metadata : Text
pvc_namespace_metadata = codes "${pvc.metadata.namespace}"

abbrev pub pv_name_metadata : Text
pv_name_metadata = codes "${pv.metadata.name}"

abbrev pub default_krb5_cc_name : Text
default_krb5_cc_name = codes "krb5cc_"

abbrev pub default_krb5_cache_directory : Text
default_krb5_cache_directory = codes "/var/lib/kubelet/kerberos/"

abbrev pub retain : Text
retain = codes "retain"

abbrev pub archive : Text
archive = codes "archive"

abbrev pub file_mode : Text
file_mode = codes "file_mode"

abbrev pub dir_mode : Text
dir_mode = codes "dir_mode"

abbrev pub default_file_mode : Text
default_file_mode = codes "0777"

abbrev pub default_dir_mode : Text
default_dir_mode = codes "0777"

abbrev pub true_value : Text
true_value = codes "true"

abbrev pub supported_on_delete_values : List Text
supported_on_delete_values = [] ∷ codes "delete" ∷ retain ∷ archive ∷ []
