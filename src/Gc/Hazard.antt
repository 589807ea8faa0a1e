-- ===== src/Gc/Hazard.antt =====
-- cds/gc/hzp and src/hzp_gc.cpp: hazard pointers. A thread's guards stand in its record of the list
-- of records; a pointer that it retires is deleted by a later scan, once no record guards it.
pub mod Slots
pub mod Scan
pub mod Records
pub mod Detach
pub mod Deref
mod Tests
use temp_data_structure_benc.Prelude.{
  ℕ, zero, suc, ◌+◌, ◌-◌, ◌*◌, ◌/◌, ◌%◌, ◌^◌, Bool, true, false, not, ◌||◌, List, [], ◌∷◌, ◌++◌,
  ltb, leb, ◌==◌, if◌then◌else◌, Array, update, length,
}

-- retired_ptr: a pointer, and the function that frees it.
pub record Retired : Type 0 where
  pub ptr : ℕ
  pub func_free : ℕ

-- retired_vector
pub record RetiredVector : Type 0 where
  pub arr : Array Retired
  pub size : ℕ
  pub capacity : ℕ

abbrev pub push : RetiredVector → Retired → RetiredVector
push v r = record v { arr = update v.arr v.size r; size = suc v.size }

abbrev pub is_full : RetiredVector → Bool
is_full v = leb v.capacity v.size

abbrev pub clear_vector : RetiredVector → RetiredVector
clear_vector v = record v { size = 0 }

-- HPAllocator: the guards below `top` are free.
pub record HpAllocator : Type 0 where
  pub arr : Array ℕ
  pub top : ℕ
  pub capacity : ℕ

-- alloc: the allocator, and the index of the guard that is handed out.
abbrev pub alloc : HpAllocator → ℕ × HpAllocator
alloc a = (a.top - 1, record a { top = a.top - 1 })

-- free: it does not read the guard that it is given.
abbrev pub free : HpAllocator → HpAllocator
free a = record a { arr = update a.arr a.top 0; top = (a.top + 1) % 2 ^ 32 }

-- std::fill of `count` cells
abbrev pub fill : Array ℕ → ℕ → ℕ → Array ℕ
fill arr first zero = arr
fill arr first (suc count) = fill (update arr first 0) (suc first) count

abbrev pub alloc_array : ℕ → HpAllocator → ℕ × HpAllocator
alloc_array count a = (a.top - count, record a { top = a.top - count })

abbrev pub free_array : ℕ → HpAllocator → HpAllocator
free_array count a = record a { arr = fill a.arr a.top count; top = (a.top + count) % 2 ^ 32 }

-- makeFreeStack, which is the constructor's body and that of `clear`
abbrev pub make_free_stack : HpAllocator → HpAllocator
make_free_stack a = record a { arr = fill a.arr 0 a.capacity; top = a.capacity % 2 ^ 32 }

-- HPGuardT::operator =, and HPArrayT::set: a store to the guard.
abbrev pub set_guard : HpAllocator → ℕ → ℕ → HpAllocator
set_guard a guard p = record a { arr = update a.arr guard p }

-- hplist_node. The owner 0 stands for OS::nullThreadId().
pub record HpRecord : Type 0 where
  pub hzp : HpAllocator
  pub retired : RetiredVector
  pub owner : ℕ
  pub free : Bool

pub data ScanType : Type 0 where
  classic : ScanType
  inplace : ScanType

-- The collector: the list of records from `m_pListHead` on, the records by their addresses, and
-- what has been deleted, in order.
pub record GarbageCollector : Type 0 where
  pub list : List ℕ
  pub at : Array HpRecord
  pub hazard_count : ℕ
  pub max_threads : ℕ
  pub max_retired : ℕ
  pub scan_type : ScanType
  pub deleted : List Retired

-- c_nMaxThreadCount, c_nHazardPointerPerThread, c_nMaxRetireNodeCount
abbrev pub default_threads : ℕ
default_threads = 100

abbrev pub default_hazards : ℕ
default_hazards = 8

abbrev pub default_retired : ℕ
default_retired = default_hazards * default_threads * 2

-- The constructor, over whatever stands where the records will be.
abbrev pub construct : ℕ → ℕ → ℕ → ScanType → Array HpRecord → GarbageCollector
construct hazards threads retired scan_type memory = record {
  list = [];
  at = memory;
  hazard_count = if hazards == 0 then default_hazards else hazards;
  max_threads = if threads == 0 then default_threads else threads;
  max_retired = if ltb default_retired retired then retired else default_retired;
  scan_type = scan_type;
  deleted = [];
}

-- NewHPRec, over whatever the vectors hold: std::vector::resize sets the guards to NULL.
abbrev pub new_hp_rec : GarbageCollector → Array Retired → HpRecord
new_hp_rec gc garbage = record {
  hzp = make_free_stack (record { arr = λ _. 0; top = 0; capacity = gc.hazard_count });
  retired = record { arr = garbage; size = 0; capacity = gc.max_retired };
  owner = 0;
  free = true;
}

-- AllocateHPRec: the first record that nobody owns, or else a new one at the address `fresh`, which
-- `new` returns: the address of no record that is in use.
unfoldable pub reuse_hp_rec :
    ℕ → List ℕ → GarbageCollector → ℕ × GarbageCollector → ℕ × GarbageCollector
reuse_hp_rec tid [] gc otherwise = otherwise
reuse_hp_rec tid (a ∷ rest) gc otherwise =
    let later = reuse_hp_rec tid rest gc otherwise in
    if (gc.at a).owner == 0
    then (a, record gc { at = update gc.at a (record (gc.at a) { owner = tid; free = false }) })
    else later

unfoldable pub allocate_hp_rec : ℕ → ℕ → Array Retired → GarbageCollector → ℕ × GarbageCollector
allocate_hp_rec tid fresh garbage gc = reuse_hp_rec tid gc.list gc (
  fresh,
  record gc {
    list = fresh ∷ gc.list;
    at = update gc.at fresh (record (new_hp_rec gc garbage) { owner = tid; free = false });
  },
)

-- RetireHPRec
abbrev pub retire_hp_rec : ℕ → GarbageCollector → GarbageCollector
retire_hp_rec a gc = record gc {
  at = update gc.at a (record (gc.at a) { hzp = make_free_stack (gc.at a).hzp; owner = 0 });
}

unfoldable pub detach_all_loop : List ℕ → GarbageCollector → GarbageCollector
detach_all_loop [] gc = gc
detach_all_loop (a ∷ rest) gc =
    detach_all_loop rest (if (gc.at a).owner == 0 then gc else retire_hp_rec a gc)

-- detachAllThread
abbrev pub detach_all : GarbageCollector → GarbageCollector
detach_all gc = detach_all_loop gc.list gc
