-- ===== src/Vmm/Spaces.antt =====
-- The address spaces of user processes in vmm.cpp: their roots are made, copied and given back. The
-- nested loops over the levels are one function for each level, by the entries left.
use hltos.Base.{ℕ, zero, suc, ◌+◌, ◌-◌, ◌*◌, ◌/◌, false, ◌==◌, if◌then◌else◌}
use hltos.Base.Run.{Run, ok, ◌>>=◌}
use hltos.Pmm.{alloc_frame, free_frame}
use hltos.Vmm.{
  Entry, Vmm, num_pt_entries, page_size, page_user, write_entry, zero_page, addr_of, populate_pml4e,
  populate_pdpte, get_kernel_pml4_index, ensure_present,
}

-- The entries of the kernel, from index `i` on.
unfoldable pub copy_entries : ℕ → ℕ → ℕ → ℕ → (ℕ → ℕ → Entry) → ℕ → ℕ → Entry
copy_entries zero from to i table = table
copy_entries (suc rounds) from to i table =
    copy_entries rounds from to (i + 1) (write_entry table to i (table from i))

-- A root with nothing but the entries of the kernel, as they stand in `from`.
unfoldable pub new_root : Vmm → ℕ → Run (Vmm × ℕ)
new_root m from = alloc_frame m.pmm >>= λ r.
    let root = r.1 / page_size in
    let start = get_kernel_pml4_index m in
    ok (
      record m {
        pmm = r.0;
        table = copy_entries (num_pt_entries - start) from root start (zero_page m.table root);
      },
      root,
    )

unfoldable pub create_user_pml4 : Vmm → Run (Vmm × ℕ)
create_user_pml4 m = new_root m m.kernel_pml4

-- `free_pml4e`, `free_pdpte`, `free_pde` and `free_pte`
unfoldable pub free_entry : ℕ → ℕ → Vmm → Run Vmm
free_entry t i m = free_frame m.pmm ((m.table t i).addr * page_size) >>= λ pmm.
    ok
      (record m { pmm = pmm; table = write_entry m.table t i (record (m.table t i) { p = false }) })

-- One of the four loops of `free_user_pml4`: `inner` frees what is below a present entry.
unfoldable pub free_entries : (ℕ → Vmm → Run Vmm) → ℕ → ℕ → ℕ → Vmm → Run Vmm
free_entries inner zero t i m = ok m
free_entries inner (suc rounds) t i m =
    (if (m.table t i).p then (inner (m.table t i).addr m >>= free_entry t i) else ok m)
    >>= free_entries inner rounds t (i + 1)

unfoldable pub free_pt : ℕ → Vmm → Run Vmm
free_pt t m = free_entries (λ frame freed. ok freed) num_pt_entries t 0 m

unfoldable pub free_pd : ℕ → Vmm → Run Vmm
free_pd t m = free_entries free_pt num_pt_entries t 0 m

unfoldable pub free_pdpt : ℕ → Vmm → Run Vmm
free_pdpt t m = free_entries free_pd num_pt_entries t 0 m

unfoldable pub free_user_pml4 : Vmm → ℕ → Run Vmm
free_user_pml4 m pml4 =
    if pml4 == m.kernel_pml4
    then ok m
    else (free_entries free_pdpt (get_kernel_pml4_index m) pml4 0 m >>= λ freed.
        free_frame freed.pmm (pml4 * page_size) >>= λ pmm.
        ok (record freed { pmm = pmm; table = zero_page freed.table pml4 }))

-- The copy of one page: a frame of its own, with the flags and the bytes of the old one.
unfoldable pub clone_page : ℕ → ℕ → ℕ → Vmm → Run Vmm
clone_page new_pt pt i m = alloc_frame m.pmm >>= λ r.
    let old = m.table pt i in
    let new = record old { addr = addr_of r.1 } in
    ok (record m {
      pmm = r.0;
      table = write_entry m.table new_pt i new;
      page = λ f. if f == new.addr then m.page old.addr else m.page f;
    })

-- One of the loops of `clone_user_pml4`, from a table into the new one.
unfoldable pub clone_entries : (ℕ → ℕ → ℕ → Vmm → Run Vmm) → ℕ → ℕ → ℕ → ℕ → Vmm → Run Vmm
clone_entries each zero new t i m = ok m
clone_entries each (suc rounds) new t i m =
    (if (m.table t i).p then each new t i m else ok m) >>= clone_entries each rounds new t (i + 1)

-- An entry of an inner table: the new table behind it, and the entries of that.
unfoldable pub clone_inner :
    (Entry → ℕ → ℕ → Entry) → (ℕ → ℕ → ℕ → Vmm → Run Vmm) → ℕ → ℕ → ℕ → Vmm → Run Vmm
clone_inner populate each new t i m = ensure_present populate m new i page_user >>= λ r.
    clone_entries each num_pt_entries r.1 (r.0.table t i).addr 0 r.0

unfoldable pub clone_user_pml4 : Vmm → ℕ → Run (Vmm × ℕ)
clone_user_pml4 m pml4 = new_root m pml4 >>= λ r.
    let clone_pde = clone_inner populate_pdpte clone_page in
    let clone_pdpte = clone_inner populate_pdpte clone_pde in
    let clone_pml4e = clone_inner populate_pml4e clone_pdpte in
    clone_entries clone_pml4e (get_kernel_pml4_index m) r.1 pml4 0 r.0 >>= λ cloned.
    ok (cloned, r.1)
