-- ===== src/Kerberos.antt =====
-- The names of Kerberos caches: nodeserver.go. The base64 functions are those of Go's encoding/base64
-- (StdEncoding).
pub mod Base64
pub mod Names
use csi_driver_smb.Base.{◌++◌}
use csi_driver_smb.Base.Int.{ℤ}
use csi_driver_smb.Text.{Text, replace_byte}
use csi_driver_smb.Strconv.{itoa}
use csi_driver_smb.Kerberos.Base64.{encode}

unfoldable pub krb5_ccache_name : Text → ℤ → Text
krb5_ccache_name prefix cred_uid = prefix ++ itoa cred_uid

unfoldable pub kerberos_file_path : Text → Text → Text
kerberos_file_path directory name = directory ++ name

unfoldable pub volume_kerberos_cache_name : Text → Text
unfolding replace_byte
volume_kerberos_cache_name volume_id =
    replace_byte b'+' b'_' (replace_byte b'/' b'-' (encode volume_id))
