-- ===== src/Vm/Kernel.antt =====
-- The page tables that the kernel builds: kvmmap and kvmmake of Xv6/kernel/vm.c, and
-- proc_mapstacks, proc_pagetable, proc_freepagetable and growproc of Xv6/kernel/proc.c. The
-- addresses that the linker sets, `etext` and `trampoline`, are parameters.
use os_project.Prelude.{
  ℕ, zero, suc, ◌+◌, ◌-◌, ◌*◌, ◌%◌, ◌^◌, Bool, true, false, Option, none, some, ◌==◌, if◌then◌else◌,
  ◌>>=◌,
}
use os_project.Prelude.Int.{ℤ, pos, negsuc}
use os_project.Memory.{page_size, kern_base, phys_stop}
use os_project.Kalloc.{Kmem, fill, kalloc}
use os_project.Proc.Table.{nproc}
use os_project.Vm.{max_va, clear, mappages, uvmunmap}
use os_project.Vm.User.{uvmcreate, uvmfree, uvmalloc, uvmdealloc}

-- TRAMPOLINE, TRAPFRAME and KSTACK
abbrev pub trampoline_va : ℕ
trampoline_va = max_va - page_size

abbrev pub trapframe_va : ℕ
trapframe_va = trampoline_va - page_size

abbrev pub kstack : ℕ → ℕ
kstack p = trampoline_va - (p + 1) * 2 * page_size

-- PTE_R|PTE_W, PTE_R|PTE_X, PTE_W
abbrev pub read_write : ℕ
read_write = 6

abbrev pub read_execute : ℕ
read_execute = 10

abbrev pub writable : ℕ
writable = 4

-- UART0, VIRTIO0 and PLIC
abbrev pub uart0 : ℕ
uart0 = 0x10000000

abbrev pub virtio0 : ℕ
virtio0 = 0x10001000

abbrev pub plic : ℕ
plic = 0x0c000000

-- `none` is the panic "kvmmap", or one of mappages.
unfoldable pub kvmmap : Kmem → ℕ → ℕ → ℕ → ℕ → ℕ → Option Kmem
unfolding mappages
kvmmap k kpgtbl va pa sz perm = elim (mappages k kpgtbl va sz pa perm) [
  | none ↦ none
  | some r ↦ if r.0 then some r.1 else none
]

-- The loop of proc_mapstacks, from the process `p` on.
unfoldable pub map_stacks : ℕ → Kmem → ℕ → ℕ → Option Kmem
unfolding kalloc kvmmap
map_stacks zero k kpgtbl p = some k
map_stacks (suc rounds) k kpgtbl p =
    let pa = kalloc k in
    elim (pa.0 == 0) [
      | true ↦ none
      | false ↦ elim (kvmmap pa.1 kpgtbl (kstack p) pa.0 page_size read_write) [
        | none ↦ none
        | some k' ↦ map_stacks rounds k' kpgtbl (p + 1)
      ]
    ]

unfoldable pub proc_mapstacks : Kmem → ℕ → Option Kmem
unfolding map_stacks
proc_mapstacks k kpgtbl = map_stacks nproc k kpgtbl 0

-- The root of the kernel's page table. The page that it starts from is not tested.
unfoldable pub kvmmake : ℕ → ℕ → Kmem → Option (ℕ × Kmem)
unfolding kalloc fill kvmmap proc_mapstacks
kvmmake etext trampoline k = do
  let r = kalloc k
  uart ← kvmmap (clear r.1 r.0) r.0 uart0 uart0 page_size read_write
  disk ← kvmmap uart r.0 virtio0 virtio0 page_size read_write
  interrupts ← kvmmap disk r.0 plic plic 0x400000 read_write
  text ← kvmmap interrupts r.0 kern_base kern_base (etext - kern_base) read_execute
  memory ← kvmmap text r.0 etext etext (phys_stop - etext) read_write
  code ← kvmmap memory r.0 trampoline_va trampoline page_size read_execute
  stacks ← proc_mapstacks code r.0
  some (r.0, stacks)

module _ (kernel_end : ℕ) where
  -- The page table, or 0; `trapframe` is the page of the process.
  unfoldable pub proc_pagetable : ℕ → Kmem → ℕ → Option (ℕ × Kmem)
  unfolding uvmcreate mappages uvmunmap uvmfree
  proc_pagetable trampoline k trapframe =
      let r = uvmcreate k in
      if r.0 == 0
      then some (0, r.1)
      else elim (mappages r.1 r.0 trampoline_va page_size trampoline read_execute) [
        | none ↦ none
        | some t ↦ elim t.0 [
          | false ↦ elim (uvmfree kernel_end t.1 r.0 0) [ none ↦ none | some k' ↦ some (0, k') ]
          | true ↦ elim (mappages t.1 r.0 trapframe_va page_size trapframe read_write) [
            | none ↦ none
            | some f ↦ elim f.0 [
              | true ↦ some (r.0, f.1)
              | false ↦ elim (uvmunmap kernel_end f.1 r.0 trampoline_va 1 false) [
                | none ↦ none
                | some u ↦ elim (uvmfree kernel_end u r.0 0) [
                  | none ↦ none
                  | some k' ↦ some (0, k')
                ]
              ]
            ]
          ]
        ]
      ]

  unfoldable pub proc_freepagetable : Kmem → ℕ → ℕ → Option Kmem
  unfolding uvmunmap uvmfree
  proc_freepagetable k pagetable sz = do
    code ← uvmunmap kernel_end k pagetable trampoline_va 1 false
    frame ← uvmunmap kernel_end code pagetable trapframe_va 1 false
    uvmfree kernel_end frame pagetable sz

  -- The return value is 0 for true, and the number is the new `p->sz`; the sum with a negative
  -- number wraps.
  unfoldable pub growproc : Kmem → ℕ → ℕ → ℤ → Option (Bool × ℕ × Kmem)
  unfolding uvmalloc uvmdealloc
  growproc k pagetable sz (pos zero) = some (true, sz, k)
  growproc k pagetable sz (pos (suc n)) =
      elim (uvmalloc kernel_end k pagetable sz (sz + suc n) writable) [
        | none ↦ none
        | some r ↦ if r.0 == 0 then some (false, sz, r.1) else some (true, r.0, r.1)
      ]
  growproc k pagetable sz (negsuc n) =
      elim (uvmdealloc kernel_end k pagetable sz ((sz + 2 ^ 64 - suc n) % 2 ^ 64)) [
        | none ↦ none
        | some r ↦ some (true, r.0, r.1)
      ]
