-- ===== src/Setup.antt =====
-- vm.c: the set-up of the Memory Pool System, which `vm_init` begins with, the functions for it, and
-- `free_vm`. That system is a parameter: it answers requests.
pub mod Order
mod Tests
use clojit_cvm.Common.{
  ℕ, ◌*◌, ◌-◌, ◌/◌, ◌==◌, List, [], ◌∷◌, ◌++◌, if◌then◌else◌, Out, text, Bool, Option, Res, ok,
  fault, and_then, or_fault,
}

-- The callbacks of the object format.
pub data Callback : Type 0 where
  obj_scan : Callback
  obj_skip : Callback
  obj_fwd : Callback
  obj_isfwd : Callback
  obj_pad : Callback

pub data PoolClass : Type 0 where
  amc : PoolClass
  amcz : PoolClass

-- The calls of `mps_..._create...` and `mps_thread_reg`, with their arguments but for the first, which points
-- to the result. The root of the thread is of the rank `mps_rank_ambig()` and scanned by `mps_stack_scan_ambig`; that of a table is
-- of the rank `mps_rank_exact()`.
pub data Request : Type 0 where
  arena_create_k : (size : ℕ) → Request
  chain_create : (arena : ℕ) → (params : List (ℕ × ℕ)) → Request
  thread_reg : (arena : ℕ) → Request
  root_create_reg : (arena mode thread cold size : ℕ) → Request
  fmt_create_k : (arena align : ℕ) → (callbacks : List Callback) → Request
  pool_create_k : (arena : ℕ) → PoolClass → (chain format : ℕ) → Request
  ap_create_k : (pool : ℕ) → Request
  root_create_table_masked : (arena mode base count mask : ℕ) → Request

-- An answer: the result code, what is left where the result belongs, and the system's state.
pub record Answer (S : Type 0) : Type 0 where
  pub code : ℕ
  pub value : ℕ
  pub state : S

-- The calls that stop the system or destroy a part of it.
pub data Release : Type 0 where
  arena_park : (arena : ℕ) → Release
  thread_dereg : (thread : ℕ) → Release
  chain_destroy : (chain : ℕ) → Release
  root_destroy : (root : ℕ) → Release
  fmt_destroy : (format : ℕ) → Release
  arena_destroy : (arena : ℕ) → Release
  ap_destroy : (ap : ℕ) → Release
  pool_destroy : (pool : ℕ) → Release

-- The request is answered with regard to what was before where the result belongs.
pub record Manager : Type 1 where
  pub State : Type 0
  pub answer : State → Request → ℕ → Answer State
  pub release : State → Release → State

-- `MPS_RES_OK`
abbrev pub mps_res_ok : ℕ
mps_res_ok = 0

-- `sizeof(uint64_t)`
abbrev pub alignment : ℕ
alignment = 8

abbrev pub maximum_heap_size : ℕ
maximum_heap_size = 512 * 1024 * 1024

-- Capacities, and mortalities by the bits of the double: 0.45 and 0.99.
abbrev pub obj_gen_params : List (ℕ × ℕ)
obj_gen_params =
    (8 * 1024, 0x3FDC_CCCC_CCCC_CCCD)
    ∷ (maximum_heap_size / 1024 - 8 * 1024, 0x3FEF_AE14_7AE1_47AE)
    ∷ []

-- `TAG_MASK`
abbrev pub tag_mask : ℕ
tag_mask = 0xFFFF_0000_0000_0000

pub record Pool : Type 0 where
  pub pool : ℕ
  pub ap : ℕ

-- The fields of `VM` that the set-up fills.
pub record Collector : Type 0 where
  pub arena : ℕ
  pub obj_chain : ℕ
  pub obj_fmt : ℕ
  pub thread : ℕ
  pub reg_root : ℕ
  pub amc : Pool
  pub amcz : Pool

-- What the set-up leaves: the fields, what it has printed, and the system's state.
pub record Started (S : Type 0) : Type 0 where
  pub collector : Collector
  pub out : List Out
  pub state : S

-- `if (res != MPS_RES_OK) printf(message);`
abbrev pub complaint : ℕ → Out → List Out
complaint res message = if res == mps_res_ok then [] else message ∷ []

-- One after the other.
abbrev pub complaints : List (ℕ × Out) → List Out
complaints [] = []
complaints ((res, message) ∷ rest) = complaint res message ++ complaints rest

module _ (M : Manager) where
  abbrev pub mps_create_vm_area : ℕ → ℕ → M.State → Answer M.State
  mps_create_vm_area old arenasize s = M.answer s (Request.arena_create_k arenasize) old

  abbrev pub mps_create_obj_fmt : ℕ → ℕ → M.State → Answer M.State
  mps_create_obj_fmt old arena s =
      M.answer s
        (Request.fmt_create_k arena alignment (
          Callback.obj_scan ∷ Callback.obj_skip ∷ Callback.obj_fwd ∷ Callback.obj_isfwd
          ∷ Callback.obj_pad ∷ []))
        old

  abbrev pub mps_create_amc_pool : ℕ → ℕ → ℕ → ℕ → M.State → Answer M.State
  mps_create_amc_pool old fmt obj_chain arena s =
      M.answer s (Request.pool_create_k arena PoolClass.amc obj_chain fmt) old

  abbrev pub mps_create_amcz_pool : ℕ → ℕ → ℕ → ℕ → M.State → Answer M.State
  mps_create_amcz_pool old fmt obj_chain arena s =
      M.answer s (Request.pool_create_k arena PoolClass.amcz obj_chain fmt) old

  abbrev pub mps_create_ap : ℕ → ℕ → M.State → Answer M.State
  mps_create_ap old pool s = M.answer s (Request.ap_create_k pool) old

  -- The beginning of `vm_init`. The fields are 0 before; `marker` is the address of the local variable of this name.
  unfoldable pub set_up : ℕ → ℕ → M.State → Started M.State
  set_up arenasize marker s =
      let arena = mps_create_vm_area 0 arenasize s in
      let obj_chain = M.answer arena.state (Request.chain_create arena.value obj_gen_params) 0 in
      let thread = M.answer obj_chain.state (Request.thread_reg arena.value) 0 in
      let reg_root =
        M.answer thread.state (Request.root_create_reg arena.value 0 thread.value marker 0) 0 in
      let obj_fmt = mps_create_obj_fmt 0 arena.value reg_root.state in
      let amc = mps_create_amc_pool 0 obj_fmt.value obj_chain.value arena.value obj_fmt.state in
      let amc_ap = mps_create_ap 0 amc.value amc.state in
      let amcz = mps_create_amcz_pool 0 obj_fmt.value obj_chain.value arena.value amc_ap.state in
      let amcz_ap = mps_create_ap 0 amcz.value amcz.state in
      record {
        collector = record {
          arena = arena.value;
          obj_chain = obj_chain.value;
          obj_fmt = obj_fmt.value;
          thread = thread.value;
          reg_root = reg_root.value;
          amc = record { pool = amc.value; ap = amc_ap.value };
          amcz = record { pool = amcz.value; ap = amcz_ap.value };
        };
        out = complaints (
            (arena.code, text "Couldn't create arena")
            ∷ (obj_chain.code, text "Couldn't create obj chain")
            ∷ (thread.code, text "Couldn't register thread")
            ∷ (reg_root.code, text "Couldn't create root")
            ∷ (obj_fmt.code, text "Couldn't create Obj Format")
            ∷ (amc.code, text "Couldn't create obj pool (amc)")
            ∷ (amc_ap.code, text "Couldn't create obj allocation point (amc)")
            ∷ (amcz.code, text "Couldn't create obj pool (amcz)")
            ∷ (amcz_ap.code, text "Couldn't create obj allocation point (amcz)")
            ∷ []);
        state = amcz_ap.state;
      }

  -- The request of `slots_init` for the array of slots, which `vm_init` makes next.
  unfoldable pub slots_root : ℕ → ℕ → Started M.State → Answer M.State
  slots_root base capacity started =
      M.answer started.state
        (Request.root_create_table_masked started.collector.arena 0 base capacity tag_mask) 0

  -- The calls, one after the other.
  abbrev pub release_all : List Release → M.State → M.State
  release_all [] s = s
  release_all (r ∷ rs) s = release_all rs (M.release s r)

  -- `amc_at` and `amcz_at` are what the pointers `amc` and `amcz` lead to: `none` where they dangle, as they do once
  -- `vm_init` has returned, whose local variables they point to. `on_heap` says whether `malloc` gave the machine.
  unfoldable pub free_vm : Bool → Option Pool → Option Pool → Collector → M.State → Res M.State
  free_vm on_heap amc_at amcz_at c s =
      let s1 =
        release_all
          (Release.arena_park c.arena
            ∷ Release.thread_dereg c.thread
            ∷ Release.chain_destroy c.obj_chain
            ∷ Release.root_destroy c.reg_root
            ∷ Release.fmt_destroy c.obj_fmt
            ∷ Release.arena_destroy c.arena
            ∷ [])
          s in
      and_then (or_fault amc_at) λ pool.
        let s2 =
          release_all (Release.ap_destroy pool.ap ∷ Release.pool_destroy pool.pool ∷ []) s1 in
        and_then (or_fault amcz_at) λ pool'.
          let s3 =
            release_all (Release.ap_destroy pool'.ap ∷ Release.pool_destroy pool'.pool ∷ []) s2 in
          if on_heap then ok s3 else fault
