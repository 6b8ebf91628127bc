-- ===== src/BufferPool/Returning.antt =====
-- unpinPage, flushPage, flushAllPages, deletePage and evictPage of
-- src/storage/buffer_pool_manager.cpp.
use qin_db.Shared.{
  ℕ, ◌-◌, ◌≡◌, ◌≢◌, refl, sym, subst, ◌∙◌, Bool, true, inl, inr, some, List, [], ◌∷◌, arith, ltb,
  get_elem?, Bool-cases, Option-cases, ==_iff,
}
use qin_db.Shared.Maps
use qin_db.Shared.Maps.{lookup-remove}
use qin_db.Page.{update_checksum}
use qin_db.BufferPool.Calls.{DiskCalls}
use qin_db.BufferPool.{
  Frame, BufferPool, mark_dirty, unpin_frame, unpin_page, free_frame, flush_frame, flush_page,
  flush_entry, flush_entries, flush_all_pages, delete_frame, delete_page, evict_clean, evict_page,
}
use qin_db.BufferPool.Frames.{frame_of_page, pins_at, pins_at-found}
use qin_db.BufferPool.Invariant.{
  IsPool, IsTaken, put_frame-IsPool, put_frame_same-IsPool, evict-IsTaken, give_back-IsPool,
}
use qin_db.BufferPool.Taking.{other-IsPool, other-IsTaken}

-- Pinned pages are still in their frames.
abbrev pub Stands : {D : Type 0} → BufferPool D → BufferPool D → Type 0
Stands b b' =
    (q j : ℕ)
    → Maps.lookup q b.page_table ≡ some j
    → pins_at b.frames j ≢ some 0
    → Maps.lookup q b'.page_table ≡ some j

-- The invariant holds, and pinned pages are still in their frames.
abbrev pub Sound : {D : Type 0} → BufferPool D → BufferPool D → Type 0
Sound b b' = IsPool b' × Stands b b'

module _ {D : Type 0} (b : BufferPool D) (v : IsPool b) where
  page_id-mark_dirty : (dirty : Bool) (f : Frame) → (mark_dirty dirty f).page_id ≡ f.page_id
  unfolding mark_dirty
  page_id-mark_dirty dirty f = ground arith

  -- unpinPage keeps the invariant and the page table.
  pub unpin_page-Sound : (p : ℕ) (dirty : Bool) → Sound b (unpin_page p dirty b).0
  unfolding unpin_page unpin_frame
  unpin_page-Sound p dirty = elim (Option-cases (Maps.lookup p b.page_table)) [
    | inl absent ↦ rw (absent, unpin_page) (v, λ q j e n. e)
    | inr (i, e) ↦
        let (page, real, busy, apart) = v.fits.table p i e in
        let (f, at, id) = frame_of_page b.frames i p page in
        let g = mark_dirty dirty (record f { pin_count = f.pin_count - 1 }) in
        rw (e, at, unpin_page)
          (elim (Bool-cases (ltb 0 f.pin_count)) [
            | inr free ↦ rw free (v, λ q j e n. e)
            | inl pinned ↦ rw pinned (
              put_frame-IsPool b i f g at busy
                  (page_id-mark_dirty dirty (record f { pin_count = f.pin_count - 1 })) v,
              λ q j e n. e,
            )
          ])
  ]

  -- A frame without pins is emptied, after its page was perhaps written.
  free_frame-Sound :
      (p i : ℕ) (f h : Frame) (disk : D)
      → Maps.lookup p b.page_table ≡ some i
      → get_elem? b.frames i ≡ some f
      → f.page_id ≡ p
      → f.pin_count ≡ 0
      → Sound b (free_frame p i h (record b { disk = disk }))
  unfolding free_frame
  free_frame-Sound p i f h disk e at id idle =
      let (page, real, busy, apart) = v.fits.table p i e in
      let taken : IsTaken i (record b { page_table = Maps.remove p b.page_table }) =
        subst (λ q. IsTaken i (record b { page_table = Maps.remove q b.page_table })) id
          (evict-IsTaken b i f at idle busy v) in
      (
        give_back-IsPool (record b { disk = disk; page_table = Maps.remove p b.page_table }) i f _
            at refl (other-IsTaken _ i disk b.clock_hand b.hit_count b.miss_count taken),
        λ q j k n. ground (
          arith,
          lookup-remove p q b.page_table,
          e,
          k,
          n,
          pins_at-found b.frames i f at,
          idle,
          ==_iff p q,
        ),
      )

module _ {D : Type 0} (calls : DiskCalls D) (b : BufferPool D) (v : IsPool b) where
  flush_frame-Sound :
      (p i : ℕ) (f : Frame)
      → Maps.lookup p b.page_table ≡ some i
      → get_elem? b.frames i ≡ some f
      → Sound b (flush_frame calls p i f b).0
  unfolding flush_frame
  flush_frame-Sound p i f e at =
      let (page, real, busy, apart) = v.fits.table p i e in
      let r = calls.write_page p (update_checksum f.page).bytes b.disk in
      let v' = other-IsPool b r.0 b.clock_hand b.hit_count b.miss_count v in
      elim (Bool-cases f.is_dirty) [
        | inr clean ↦ rw clean (v, λ q j k n. k)
        | inl dirty ↦ rw dirty (elim (Bool-cases r.1) [
          | inl ok ↦
              rw ok (put_frame-IsPool (record b { disk = r.0 }) i f _ at busy refl v', λ q j k n. k)
          | inr bad ↦
              rw bad
                (put_frame-IsPool (record b { disk = r.0 }) i f _ at busy refl v', λ q j k n. k)
        ])
      ]

  -- flushPage keeps the invariant and the page table.
  pub flush_page-Sound : (p : ℕ) → Sound b (flush_page calls p b).0
  unfolding flush_page
  flush_page-Sound p = elim (Option-cases (Maps.lookup p b.page_table)) [
    | inl absent ↦ rw (absent, flush_page) (v, λ q j e n. e)
    | inr (i, e) ↦
        let (page, real, busy, apart) = v.fits.table p i e in
        let (f, at, id) = frame_of_page b.frames i p page in
        rw (e, at, flush_page) (flush_frame-Sound p i f e at)
  ]

  -- deletePage keeps the invariant, and every pinned page in its frame.
  pub delete_page-Sound : (p : ℕ) → Sound b (delete_page calls p b).0
  unfolding delete_page delete_frame free_frame
  delete_page-Sound p = elim (Option-cases (Maps.lookup p b.page_table)) [
    | inl absent ↦
        rw (absent, delete_page)
          (
            other-IsPool b (calls.deallocate_page p b.disk) b.clock_hand b.hit_count b.miss_count v,
            λ q j e n. e,
          )
    | inr (i, e) ↦
        let (page, real, busy, apart) = v.fits.table p i e in
        let (f, at, id) = frame_of_page b.frames i p page in
        rw (e, at, delete_page)
          (elim (Bool-cases (ltb 0 f.pin_count)) [
            | inl pinned ↦ rw pinned (v, λ q j k n. k)
            | inr free ↦ rw free (
                free_frame-Sound b v p i f f (calls.deallocate_page p b.disk) e at id
                  (ground arith))
          ])
  ]

  -- evictPage keeps the invariant, and every pinned page in its frame.
  pub evict_page-Sound : (p : ℕ) → Sound b (evict_page calls p b).0
  unfolding evict_page evict_clean
  evict_page-Sound p = elim (Option-cases (Maps.lookup p b.page_table)) [
    | inl absent ↦ rw (absent, evict_page) (v, λ q j e n. e)
    | inr (i, e) ↦
        let (page, real, busy, apart) = v.fits.table p i e in
        let (f, at, id) = frame_of_page b.frames i p page in
        let r = calls.write_page p (update_checksum f.page).bytes b.disk in
        let h : Frame = record f { page = update_checksum f.page; is_dirty = true } in
        rw (e, at, evict_page)
          (elim (Bool-cases (ltb 0 f.pin_count)) [
            | inl pinned ↦ rw pinned (v, λ q j k n. k)
            | inr free ↦ rw free (elim (Bool-cases f.is_dirty) [
              | inr clean ↦ rw clean (free_frame-Sound b v p i f f b.disk e at id (ground arith))
              | inl dirty ↦ rw dirty (elim (Bool-cases r.1) [
                | inl ok ↦ rw ok (free_frame-Sound b v p i f h r.0 e at id (ground arith))
                | inr bad ↦ rw bad (
                  put_frame-IsPool (record b { disk = r.0 }) i f h at busy refl
                      (other-IsPool b r.0 b.clock_hand b.hit_count b.miss_count v),
                  λ q j k n. k,
                )
              ])
            ])
          ])
  ]

module _ {D : Type 0} (calls : DiskCalls D) where
  -- One round of flushAllPages, whatever frame it is about.
  flush_entry-Sound : (p i : ℕ) (b : BufferPool D) → IsPool b → Sound b (flush_entry calls p i b)
  unfolding flush_entry flush_frame
  flush_entry-Sound p i b v = elim (Option-cases (get_elem? b.frames i)) [
    | inl outside ↦ rw (outside, flush_entry) (v, λ q j k n. k)
    | inr (f, at) ↦
        let r = calls.write_page p (update_checksum f.page).bytes b.disk in
        let v' = other-IsPool b r.0 b.clock_hand b.hit_count b.miss_count v in
        let b' = record b { disk = r.0 } in
        rw (at, flush_entry)
          (elim (Bool-cases f.is_dirty) [
            | inr clean ↦ rw clean (v, λ q j k n. k)
            | inl dirty ↦ rw dirty (elim (Bool-cases r.1) [
              | inl ok ↦ rw ok (put_frame_same-IsPool b' i f _ at refl refl v', λ q j k n. k)
              | inr bad ↦ rw bad (put_frame_same-IsPool b' i f _ at refl refl v', λ q j k n. k)
            ])
          ])
  ]

  flush_entry-table :
      (p i : ℕ) (b : BufferPool D) → (flush_entry calls p i b).page_table ≡ b.page_table
  unfolding flush_entry flush_frame
  flush_entry-table p i b = ground arith

  flush_entries-IsPool :
      (entries : List (ℕ × ℕ)) (b : BufferPool D)
      → IsPool b
      → IsPool (flush_entries calls entries b)
        × ((flush_entries calls entries b).page_table ≡ b.page_table)
  unfolding flush_entries
  flush_entries-IsPool [] b v = (v, refl)
  flush_entries-IsPool ((p, i) ∷ rest) b v =
      let (v', same) =
        flush_entries-IsPool rest (flush_entry calls p i b) (flush_entry-Sound p i b v).0 in
      (v', same ∙ flush_entry-table p i b)

  -- flushAllPages keeps the invariant and the page table.
  pub flush_all_pages-Sound : (b : BufferPool D) → IsPool b → Sound b (flush_all_pages calls b)
  unfolding flush_all_pages
  flush_all_pages-Sound b v =
      let b' = flush_entries calls b.page_table b in
      let (v', same) = flush_entries-IsPool b.page_table b v in
      (
        other-IsPool b' (calls.flush b'.disk) b'.clock_hand b'.hit_count b'.miss_count v',
        λ q j e n. subst (λ t. Maps.lookup q t ≡ some j) (sym same) e,
      )
