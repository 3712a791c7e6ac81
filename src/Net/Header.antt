-- ===== src/Net/Header.antt =====
-- The header of an uncompressed packet in src/net/sb_net.c: its length and its id.
pub mod Frame
use c_spock_bot.Prelude.{ℕ, ◌+◌, ◌%◌, ◌^◌, List, ◌++◌}
use c_spock_bot.Varnum.{size_varint, enc_varint}

unfoldable pub size_uncom_hdr : ℕ → ℕ → ℕ
size_uncom_hdr src_size src_id =
    let pid_size = size_varint src_id in
    let total_size = (src_size + pid_size) % 2 ^ 32 in size_varint total_size + pid_size

-- `enc_varint` takes the low 32 bits of the `size_t`.
unfoldable pub enc_uncom_hdr : ℕ → ℕ → List ℕ
enc_uncom_hdr src_size src_id =
    let total_size = src_size + size_varint src_id in
    enc_varint (total_size % 2 ^ 32) ++ enc_varint src_id
