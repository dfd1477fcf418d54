-- ===== src/HeapSwap.antt =====
-- heap copy/file_fault.c: a kernel module that exchanges the heaps of two processes, page by page.
-- The process tables, page tables and page flags of the kernel are parameters.
pub mod Bytes
pub mod Pages
pub mod Endless
use infiniband.Common.{
  ℕ, zero, suc, ◌+◌, ◌-◌, ◌*◌, ◌%◌, ◌^◌, Bool, true, false, not, Option, none, some, ◌&&◌, ◌||◌,
  ◌==◌, if◌then◌else◌,
}

abbrev pub page_size : ℕ
page_size = 4096

-- What the module asks of a page: its frame, PageAnon, PageKsm, and whether `page_lock_anon_vma_read`
-- and `page->mapping` are other than NULL.
pub record PageInfo : Type 0 where
  pub frame : ℕ
  pub anon : Bool
  pub ksm : Bool
  pub anon_vma : Bool
  pub mapping : Bool

-- The page table entry of an address: no entry, not present, or a page.
pub data Pte : Type 0 where
  no_pte not_present : Pte
  present : PageInfo → Pte

pub record Mm : Type 0 where
  pub start_brk : ℕ
  pub brk : ℕ
  pub pte : ℕ → Pte
  -- whether `find_vma` finds an area
  pub has_vma : Bool

-- The bytes of each frame; the two page table locks; whether the first heap's area has its new
-- operations; whether `old_content` is there.
pub record Kernel : Type 0 where
  pub byte : ℕ → ℕ → ℕ
  pub locked_one : Bool
  pub locked_two : Bool
  pub hooked : Bool
  pub buffer : Bool

pub data Outcome : Type 0 where
  returned : Bool → Kernel → Outcome
  oops : Outcome
  running : Outcome

unfoldable pub store : (ℕ → ℕ → ℕ) → ℕ → ℕ → ℕ → ℕ → ℕ → ℕ
store mem f k b f' k' = if (f == f') && (k == k') then b else mem f' k'

-- One round of the loop over the bytes: through `old_content[j]`.
unfoldable pub swap_byte : ℕ → ℕ → ℕ → (ℕ → ℕ → ℕ) → ℕ → ℕ → ℕ
unfolding store
swap_byte f g j mem = let old = mem g j in let mem' = store mem g j (mem f j) in store mem' f j old

-- `for (j = 0; j < n; ++j)`
unfoldable pub swap_bytes : ℕ → ℕ → ℕ → (ℕ → ℕ → ℕ) → ℕ → ℕ → ℕ
swap_bytes f g zero mem = mem
swap_bytes f g (suc n) mem = swap_byte f g n (swap_bytes f g n mem)

-- Whether the walk over the page's areas is made, or `return -1`.
abbrev pub walkable : PageInfo → Bool
walkable p = if p.anon then p.anon_vma else p.ksm || p.mapping

-- How a round of the loop ends: `return -1`, or a write through a null `old_content`.
pub data Round : Type 0 where
  next : Kernel → Round
  gives_up : Round
  null_buffer : Round

-- The body of the loop. The walk over the areas comes before the first write.
unfoldable pub swap_page : Pte → Pte → Kernel → Round
swap_page (present p) (present q) k =
    if not (walkable p)
    then gives_up
    else if k.buffer
    then next (record k { byte = swap_bytes p.frame q.frame page_size k.byte })
    else null_buffer
swap_page _ _ k = next k

-- unsigned long addition of PAGE_SIZE
abbrev pub next_page : ℕ → ℕ
next_page i = (i + page_size) % 2 ^ 64

abbrev pub unlock : Kernel → Kernel
unlock k = record k { locked_one = false; locked_two = false; buffer = false }

-- The loop from `i` and `i2` on, with fuel, and what follows it.
unfoldable pub swap_loop : ℕ → Mm → Mm → ℕ → ℕ → Kernel → Outcome
swap_loop zero mm mm2 i i2 k = running
swap_loop (suc fuel) mm mm2 i i2 k = elim (not (i == mm.brk) && not (i2 == mm2.brk)) [
  | false ↦ returned true (unlock k)
  | true ↦ elim (swap_page (mm.pte i) (mm2.pte i2) k) [
    | gives_up ↦ returned false k
    | null_buffer ↦ oops
    | next k' ↦ swap_loop fuel mm mm2 (next_page i) (next_page i2) k'
  ]
]

-- init_module. `allocated` says whether `old_content` was. The tasks are looked up by number, and
-- none is tested for NULL.
unfoldable pub init_module : ℕ → Bool → Option Mm → Option Mm → Kernel → Outcome
init_module fuel allocated none t2 k = oops
init_module fuel allocated (some mm) none k = oops
init_module fuel allocated (some mm) (some mm2) k =
    if mm.has_vma
    then swap_loop fuel mm mm2 mm.start_brk mm2.start_brk
        (record k { locked_one = true; locked_two = true; hooked = true; buffer = allocated })
    else oops
