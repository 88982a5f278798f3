-- ===== src/Store/Error.antt =====
-- The errors of src/pkg/store, and the two of package os that it uses.
use doozer.Common.{Bytes, codes, ◌++◌}

-- `num_error` is a failed `strconv.Atoi64` of a text.
pub data Error : Type 0 where
  bad_mutation rev_mismatch too_late enotdir eisdir : Error
  bad_path : Bytes → Error
  num_error : Bytes → Error
  glob_error : Bytes → Error

-- The texts of the errors of packages os and strconv.
pub record Texts : Type 0 where
  pub enotdir_text : Bytes
  pub eisdir_text : Bytes
  pub num_error_text : Bytes → Bytes

unfoldable pub error_string : Texts → Error → Bytes
error_string t bad_mutation = codes "bad mutation"
error_string t rev_mismatch = codes "rev mismatch"
error_string t too_late = codes "too late"
error_string t enotdir = t.enotdir_text
error_string t eisdir = t.eisdir_text
error_string t (bad_path k) = codes "bad path: " ++ k
error_string t (num_error s) = t.num_error_text s
error_string t (glob_error pat) = codes "invalid glob pattern: " ++ pat
