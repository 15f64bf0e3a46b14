-- ===== src/Lib.antt =====
-- microblx: the core of the function block framework
--
-- A node holds types, blocks and modules. A block has configs and ports and goes through the states
-- preinit, inactive and active. Types are registered under their names and found by name or by hash.
-- Ports are connected through interaction blocks: a write to an output port calls the write hook of
-- each block in the port's array, a read asks the blocks of an input port in turn. Configs hold
-- reference-counted data whose length is checked before a block is initialised or started. Modules are
-- shared libraries that register types and blocks with a node. When a node is cleared, its blocks are
-- stopped, cleaned up and removed. Trigger blocks step chains of other blocks and measure them. Log
-- messages pass through a ring of frames in shared memory to a client.
--
-- Base has the shared names and lemmas: Boolean tests, lists measured by the native numbers, and the
-- integers with C's division. Store has the state: the structs of libubx/ubx_types.h as records, the
-- heap with the outcomes of the coming allocations, and the world, which is all that the functions
-- of libubx/ubx.c can reach. A struct is a record under its address; a NULL pointer is `none`.
--
--   Time        libubx/ubx_time.c: ubx_ts_cmp, norm, sub, add, div, to_ns, to_us
--   Data        libubx/ubx.c: __ubx_data_alloc, ubx_data_free, ubx_config_assign, ubx_data_resize
--   Config      libubx/ubx.c: ubx_config_add, add2, rm, get, get_data, check_minmax
--   Port        libubx/ubx.c: ubx_port_add, rm, get, inport and outport add and resize
--   Connect     libubx/ubx.c: array_block_add, array_block_rm, ubx_port(s)_connect, disconnect
--   PortIo      libubx/ubx.c: __port_read, __port_write
--   Registry    libubx/ubx.c: ubx_type_register, unregister, get, get_by_hash, get_by_hashstr
--   Lifecycle   libubx/ubx.c: ubx_block_init, start, stop, cleanup, ubx_cblock_step
--   Blocks      libubx/ubx.c: ubx_block_register, create, get, unregister, rm, free and the clone
--   Node        libubx/ubx.c: ubx_node_clear
--   Modules     libubx/ubx.c: ubx_module_load, get, unload, ubx_node_init, cleanup, rm
--   Access      libubx/typemacros.h: the accessors for ports and configs; ubx_config_get_data_ptr,
--               ubx_config_data_len, ubx_data_alloc of libubx/ubx.c
--   Trigger     libubx/trig_utils.c: tstat_init2, tstat_update, ubx_chain_init, trigger, cleanup, the
--               file name; std_blocks/trig/common.c: common_config_chains, unconfig, read_actchain;
--               std_blocks/trig/trig.c: trig_start, step, stop (Trigger.Steps)
--   Ptrig       std_blocks/trig/ptrig.c: thread_startup, ptrig_init, start, stop, cleanup
--   Cyclic      std_blocks/lfds_buffers/lfds_cyclic.c: cyclic_init, write, read
--   SimpleFifo  std_blocks/examples/simple_fifo.c: fifo_init, write, read
--   Log         libubx/rtlog.c: ubx_log_shm; libubx/rtlog_client.c: logc_has_data, read_frame, seek
--
-- The functions keep the names of the source without the prefix ubx_. Each returns its code, which is
-- 0 or negative as in the source, with the new state. An outer `none` is a fault: a read through NULL
-- or of memory that is not allocated. Loops run over lists or count down, so none needs fuel.
--
-- The hash tables (uthash) are an interface with the documented laws, which a list meets; the lists
-- of ports and configs (utlist) are lists. The md5 function, the dynamic linker, the functions of a
-- module and the hooks of a block are parameters.
-- What a hook may do is a hypothesis where a theorem needs it: that it leaves the state of the block,
-- or all block structs, alone, or, for a write, that it keeps what it is handed. An allocation fails or succeeds as the heap's outcomes say; `live`
-- counts the allocations. The arrays of a port are values: the cells up to the NULL and the room
-- behind it.
--
-- Counts and sequence numbers wrap at 2^64. The members of a timespec are integers without a bound;
-- Time.Bounds gives the range in which C's `long` agrees. An int or a long of a data length is an
-- integer. The log's offsets and its lap counter are 32-bit numbers that wrap, and runs are shorter than
-- 2^32 laps. The ring has as many frames as its size has room for, at most 10000; the header of the
-- shared memory has 16 bytes, the write position in it 8.
--
-- The thread of ubx/ptrig and the callers of its hooks run interleaved: their steps are a relation, one
-- for each access to what they share, and its theorems are about all states that can be reached. A
-- cancelled thread ends only where POSIX has a cancellation point, and in pthread_cond_wait only with the
-- mutex locked again. The steps of a chain's blocks are one step of the thread. A realloc to size 0 is that of
-- glibc, which only frees. The ring buffer of liblfds is an interface with the documented laws, which two lists meet.
--
-- Not modelled: log messages, except where writing one reads through NULL; the clocks; floating point;
-- opening and mapping the shared memory of the log; how the chains of the trigger blocks are
-- allocated; writing their statistics to files; the cleanup hooks of the FIFO blocks, and the standard blocks that are not named above.
pub mod Base
pub mod Time
pub mod Store
pub mod Data
pub mod Config
pub mod Port
pub mod Connect
pub mod Registry
pub mod Lifecycle
pub mod PortIo
pub mod Blocks
pub mod Log
pub mod Node
pub mod Trigger
pub mod Cyclic
pub mod SimpleFifo
pub mod Ptrig
pub mod Modules
pub mod Access
