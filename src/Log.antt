-- ===== src/Log.antt =====
-- The real-time log: the writer of libubx/rtlog.c and the client of libubx/rtlog_client.c, which
-- share a ring of frames. `hdr` is sizeof(log_buf_t).
pub mod Bytes
pub mod Ring
pub mod Refine
pub mod Runs
pub mod Delivery
pub mod Seek
mod Examples
use microblx.Base.{
  ℕ, zero, suc, ◌+◌, ◌-◌, ◌*◌, ◌%◌, ◌^◌, Bool, true, false, not, ◌&&◌, ◌||◌, Option, none, some,
  List, [], ◌∷◌, length, get_elem?, ◌==◌, ltb, leb, if◌then◌else◌,
}

-- `log_wrap_off_t`; both members are uint32_t.
pub record WrapOff : Type 0 where
  pub wrap : ℕ
  pub off : ℕ

-- `log_buf_t`: the write position and the bytes behind the header.
pub record LogBuf : Type 0 where
  pub w : WrapOff
  pub bytes : ℕ → ℕ

-- The sizes in `struct log_shm_inf` and in `logc_info_t`.
pub record LogInf : Type 0 where
  pub shm_size : ℕ
  pub frame_size : ℕ

-- a + b and a - b on uint32_t, a - b on size_t.
abbrev pub add_u32 : ℕ → ℕ → ℕ
add_u32 a b = (a + b) % 2 ^ 32

abbrev pub sub_u32 : ℕ → ℕ → ℕ
sub_u32 a b = (a + 2 ^ 32 - b) % 2 ^ 32

abbrev pub sub_size : ℕ → ℕ → ℕ
sub_size a b = (a + 2 ^ 64 - b) % 2 ^ 64

-- `shm_size - frame_size - sizeof(log_buf_t)`, the last offset that a frame may have.
unfoldable pub last_off : ℕ → LogInf → ℕ
last_off hdr inf = sub_size (sub_u32 inf.shm_size inf.frame_size) hdr

-- memcpy of a frame to an offset, and the frame at an offset.
unfoldable pub put_bytes : ℕ → List ℕ → (ℕ → ℕ) → ℕ → ℕ
put_bytes off [] bytes x = bytes x
put_bytes off (b ∷ bs) bytes x = if x == off then b else put_bytes (suc off) bs bytes x

unfoldable pub get_bytes : ℕ → ℕ → (ℕ → ℕ) → List ℕ
get_bytes off zero bytes = []
get_bytes off (suc n) bytes = bytes off ∷ get_bytes (suc off) n bytes

abbrev pub log_buffer_depth : ℕ
log_buffer_depth = 10000

-- `inf.shm_size` of `ubx_log_init`, with sizeof(log_wrap_off_t), which is 8, and the frame size.
abbrev pub log_shm_size : ℕ → ℕ
log_shm_size frame_size = (8 + frame_size * log_buffer_depth) % 2 ^ 32

pub data ReadStatus : Type 0 where
  no_data new_data overrun error : ReadStatus

-- LOGC_SEEK_OLDEST_CRUSH_ZONE
abbrev pub crush_zone : ℕ
crush_zone = 100

module _ (hdr : ℕ) (inf : LogInf) where
  -- One frame further, with the wrap: what `log_inc_woff` and `calc_next_roff` share.
  unfoldable pub advance : ℕ → WrapOff → WrapOff
  advance inc p =
      if ltb (last_off hdr inf) (add_u32 p.off inc)
      then record { wrap = add_u32 p.wrap 1; off = 0 }
      else record p { off = add_u32 p.off inc }

  unfoldable pub log_inc_woff : ℕ → LogBuf → LogBuf
  log_inc_woff inc buf = record buf { w = advance inc buf.w }

  -- `ubx_log_shm`, the writer, under the lock.
  unfoldable pub log_shm : List ℕ → LogBuf → LogBuf
  log_shm msg buf =
      log_inc_woff inf.frame_size (record buf { bytes = put_bytes buf.w.off msg buf.bytes })

  unfoldable pub calc_next_roff : WrapOff → WrapOff
  calc_next_roff r = advance inf.frame_size r

  unfoldable pub logc_reset_read : LogBuf → WrapOff
  logc_reset_read buf = buf.w

  unfoldable pub logc_has_data : LogBuf → WrapOff → ReadStatus
  logc_has_data buf r =
      let w = buf.w in
      if w.off == r.off && w.wrap == r.wrap
      then no_data
      else if (ltb r.off w.off && w.wrap == r.wrap)
          || (ltb w.off r.off && sub_u32 w.wrap r.wrap == 1)
      then new_data
      else if leb 2 (sub_u32 w.wrap r.wrap) || (leb r.off w.off && sub_u32 w.wrap r.wrap == 1)
      then overrun
      else error

  -- `logc_read_frame`: the status, the frame that the pointer is set to, and the read position.
  unfoldable pub logc_read_frame : LogBuf → WrapOff → ReadStatus × Option (List ℕ) × WrapOff
  logc_read_frame buf r = elim (logc_has_data buf r) [
    | new_data ↦ (new_data, some (get_bytes r.off inf.frame_size buf.bytes), calc_next_roff r)
    | other ↦ (other, none, r)
  ]

  -- `logc_seek_to_oldest`. The offset is computed in uint32_t up to the sum with sizeof(log_buf_t).
  unfoldable pub logc_seek_to_oldest : LogBuf → WrapOff
  logc_seek_to_oldest buf =
      let off = add_u32 buf.w.off (crush_zone * inf.frame_size % 2 ^ 32) in
      if ltb (last_off hdr inf) off
      then record (buf.w) { off = (sub_u32 off inf.shm_size + hdr) % 2 ^ 32 }
      else if buf.w.wrap == 0
      then record (buf.w) { off = 0 }
      else record { wrap = buf.w.wrap - 1; off = off }
