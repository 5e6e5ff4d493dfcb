-- ===== src/Constants.antt =====
-- constants.rs, and the constants of the files that use them.
use rust_p2p_filesystem.Base.{ℕ, ◌*◌, ◌+◌}

-- Key length in bytes, and the capacity of a k-bucket.
abbrev pub K : ℕ
K = 20

abbrev pub alpha : ℕ
alpha = 3

-- Sizes and intervals of constants.rs.
abbrev pub max_file_size_mb : ℕ
max_file_size_mb = 4096

abbrev pub chunk_data_size_kb : ℕ
chunk_data_size_kb = 1024

abbrev pub max_shards_stored : ℕ
max_shards_stored = 1024

abbrev pub max_data_stored_mb : ℕ
max_data_stored_mb = 4096

abbrev pub default_chunk_reupload_interval_s : ℕ
default_chunk_reupload_interval_s = 3600

abbrev pub default_chunk_expire_time_s : ℕ
default_chunk_expire_time_s = 86400

-- The length of a count behind the data of a chunk, and of the tag behind a ciphertext.
abbrev pub u32_size_b : ℕ
u32_size_b = 4

abbrev pub aes_gcm_auth_tag_size_b : ℕ
aes_gcm_auth_tag_size_b = 16

abbrev pub encrypted_chunk_size_b : ℕ
encrypted_chunk_size_b = chunk_data_size_kb * 1024 + u32_size_b + aes_gcm_auth_tag_size_b
