-- ===== src/Store/Errors.antt =====
-- The error codes of libubx/ubx_types.h: an enum that counts up from -32767.
use microblx.Base.Int.{ℤ, negsuc}

abbrev pub einvalid_block : ℤ
einvalid_block = negsuc 32766

abbrev pub einvalid_port : ℤ
einvalid_port = negsuc 32765

abbrev pub einvalid_config : ℤ
einvalid_config = negsuc 32764

abbrev pub einvalid_type : ℤ
einvalid_type = negsuc 32763

abbrev pub einvalid_block_type : ℤ
einvalid_block_type = negsuc 32762

abbrev pub einvalid_port_type : ℤ
einvalid_port_type = negsuc 32761

abbrev pub einvalid_config_type : ℤ
einvalid_config_type = negsuc 32760

abbrev pub einvalid_config_len : ℤ
einvalid_config_len = negsuc 32759

abbrev pub einvalid_data_len : ℤ
einvalid_data_len = negsuc 32758

abbrev pub einvalid_port_dir : ℤ
einvalid_port_dir = negsuc 32757

abbrev pub einvalid_port_len : ℤ
einvalid_port_len = negsuc 32756

abbrev pub einvalid_arg : ℤ
einvalid_arg = negsuc 32755

abbrev pub ewrong_state : ℤ
ewrong_state = negsuc 32754

abbrev pub enosuchent : ℤ
enosuchent = negsuc 32753

abbrev pub eentexists : ℤ
eentexists = negsuc 32752

abbrev pub ealready_registered : ℤ
ealready_registered = negsuc 32751

abbrev pub etype_mismatch : ℤ
etype_mismatch = negsuc 32750

abbrev pub eoutofmem : ℤ
eoutofmem = negsuc 32749
