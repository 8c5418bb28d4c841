-- ===== src/Common.antt =====
-- include/libd/common.h: the result codes, and the test of a mask.
pub mod Limits
use libdane.Base.{ℕ, Bool, not, ◌==◌, bit_and}

pub data LibdResult : Type 0 where
  libd_ok libd_err libd_no_memory libd_buffer_overflow libd_invalid_parameter : LibdResult
  libd_init_failed libd_not_initialized : LibdResult
  libd_invalid_path libd_invalid_path_type libd_env_var_not_found : LibdResult
  libd_too_many_env_expansions : LibdResult
  libd_thread_init_failed : LibdResult
  libd_invalid_alignment libd_invalid_pointer libd_free_list_failure : LibdResult
  libd_index_must_be_unsigned libd_invalid_free : LibdResult
  libd_mem_not_implemented libd_result_count : LibdResult

abbrev pub check_against_mask : ℕ → ℕ → Bool
check_against_mask val mask = not (bit_and val mask == 0)
