-- ===== src/BufferPool/Pins.antt =====
-- How often each page is pinned, through fetchPage and unpinPage.
use qin_db.Shared.{
  ℕ, ◌+◌, ◌-◌, ◌≡◌, refl, ap, ◌∙◌, Bool, false, inl, inr, Option, none, some, arith, ◌==◌, ltb,
  get_elem?, Bool-cases, Option-cases, ==_iff, if◌then◌else◌,
}
use qin_db.Shared.Maps
use qin_db.Shared.Maps.{lookup-insert}
use qin_db.Page.{Page}
use qin_db.BufferPool.Calls.{DiskCalls}
use qin_db.BufferPool.{
  Frame, BufferPool, hit, read_into, load, fetch_page, take_frame, invalid_page_id, unpin_page,
  unpin_frame, mark_dirty,
}
use qin_db.BufferPool.Frames.{pins_at, pins_at-set, pins_at-found, frame_of_page, frame_of_pins}
use qin_db.BufferPool.Invariant.{IsPool, IsTaken}
use qin_db.BufferPool.Taking.{Kept, Took, take_frame-Took, other-IsPool}

-- The pins of a page: 0, if it is not in the pool.
unfoldable pub pins_of : {D : Type 0} → ℕ → BufferPool D → ℕ
pins_of q b = elim (Maps.lookup q b.page_table) [
  | none ↦ 0
  | some i ↦ elim (pins_at b.frames i) [ none ↦ 0 | some n ↦ n ]
]

-- One pin more for `p`, if it was fetched.
abbrev pub fetched : Option ℕ → ℕ → ℕ → ℕ
fetched none p q = 0
fetched (some i) p q = if p == q then 1 else 0

module _ {D : Type 0} (b : BufferPool D) where
  -- Taking a frame takes nobody's pins.
  pins_of-Kept : (b' : BufferPool D) (q : ℕ) → Kept b b' → pins_of q b' ≡ pins_of q b
  unfolding pins_of
  pins_of-Kept b' q k =
      let frames = λ (j : ℕ). ap (λ fs. pins_at fs j) k.frames in
      elim (Option-cases (Maps.lookup q b.page_table)) [
        | inl e ↦ rw (e, k.absent q e, pins_of) refl
        | inr (j, e) ↦ elim (Option-cases (Maps.lookup q b'.page_table)) [
          | inr (j', e') ↦ let same = k.subset q j' e' in ground (arith, e, e', same, frames j')
          | inl e' ↦ let idle = k.pinned q j e in ground (arith, e, e', idle)
        ]
      ]

  hit-pins :
      (p i q : ℕ)
      → Maps.lookup p b.page_table ≡ some i
      → IsPool b
      → pins_of q (hit i b).0 ≡ pins_of q b + fetched (hit i b).1 p q
  unfolding pins_of hit
  hit-pins p i q e v =
      let (page, real, busy, apart) = v.fits.table p i e in
      let (f, at, id) = frame_of_page b.frames i p page in
      let g : Frame = record f {
        pin_count = f.pin_count + 1;
        last_access_time = b.hit_count + 1;
      } in
      elim (Option-cases (Maps.lookup q b.page_table)) [
        | inl absent ↦ ground (arith, at, absent, e, ==_iff p q)
        | inr (j, k) ↦ ground (
          arith,
          at,
          k,
          e,
          pins_at-set b.frames i f at g j,
          pins_at-found b.frames i f at,
          ==_iff p q,
          ==_iff i j,
          v.fits.table q j k,
          page,
        )
      ]

module _ {D : Type 0} (calls : DiskCalls D) (b : BufferPool D) where
  read_into-pins :
      (p i q : ℕ) (f : Frame)
      → get_elem? b.frames i ≡ some f
      → f.pin_count ≡ 0
      → Maps.lookup p b.page_table ≡ none
      → IsTaken i b
      → pins_of q (read_into calls p i f b).0
        ≡ pins_of q b + fetched (read_into calls p i f b).1 p q
  unfolding pins_of read_into
  read_into-pins p i q f at idle fresh t =
      let r = calls.read_page p f.page.bytes b.disk in
      let stored = lookup-insert p q i b.page_table in
      let pins = λ (g : Frame) (j : ℕ). pins_at-set b.frames i f at g j in
      let page : Page = record f.page { bytes = r.1 } in
      let full : Frame = record {
        page = page;
        page_id = p;
        is_dirty = false;
        pin_count = 1;
        last_access_time = b.hit_count + b.miss_count;
      } in
      let back : Frame = record f { page = page } in
      elim (Option-cases (Maps.lookup q b.page_table)) [
        | inl absent ↦
            ground (arith, absent, stored, pins full i, pins back i, fresh, ==_iff p q, ==_iff i i)
        | inr (j, e) ↦ ground (
          arith,
          e,
          stored,
          pins full i,
          pins full j,
          pins back j,
          fresh,
          ==_iff p q,
          ==_iff i j,
          ==_iff i i,
          t.fits.table q j e,
        )
      ]

module _ {D : Type 0} (calls : DiskCalls D) (b : BufferPool D) where
  load-pins :
      (p q : ℕ) (r : BufferPool D × Option ℕ)
      → Maps.lookup p b.page_table ≡ none
      → Took b r
      → pins_of q (load calls p r).0 ≡ pins_of q b + fetched (load calls p r).1 p q
  unfolding load
  load-pins p q (b', none) fresh (v, k) = omega (arith, pins_of-Kept b b' q k)
  load-pins p q (b', some i) fresh (t, k) =
      let (f, at, idle) = frame_of_pins b'.frames i 0 t.idle in
      rw (at, load)
        (read_into-pins calls b' p i q f at idle (k.absent p fresh) t
          ∙ ap (λ n. n + fetched (read_into calls p i f b').1 p q) (pins_of-Kept b b' q k))

module _ {D : Type 0} (calls : DiskCalls D) (b : BufferPool D) where
  pins_of-miss : (q : ℕ) → pins_of q (record b { miss_count = b.miss_count + 1 }) ≡ pins_of q b
  unfolding pins_of
  pins_of-miss q = refl

  -- A fetch that succeeds pins its page once more, one that fails pins nothing, and no other page
  -- gains or loses a pin, whatever is evicted for it.
  pub fetch_page-pins :
      (p q : ℕ)
      → IsPool b
      → pins_of q (fetch_page calls p b).0 ≡ pins_of q b + fetched (fetch_page calls p b).1 p q
  unfolding fetch_page
  fetch_page-pins p q v = elim (Bool-cases (p == invalid_page_id)) [
    | inl zero_id ↦ rw zero_id (omega arith)
    | inr real ↦ rw real (elim (Option-cases (Maps.lookup p b.page_table)) [
      | inr (i, e) ↦ rw (e, fetch_page) (hit-pins b p i q e v)
      | inl e ↦
          let b' = record b { miss_count = b.miss_count + 1 } in
          let v' = other-IsPool b b.disk b.clock_hand b.hit_count (b.miss_count + 1) v in
          rw (e, fetch_page)
            (load-pins calls b' p q (take_frame calls b') e (take_frame-Took calls b' v')
              ∙ ap (λ n. n + fetched (load calls p (take_frame calls b')).1 p q) (pins_of-miss q))
    ])
  ]

  -- unpinPage takes one pin from its page, if there is one, and else reports a failure; no other page
  -- gains or loses a pin.
  pub unpin_page-pins :
      (p q : ℕ) (dirty : Bool)
      → IsPool b
      → (pins_of q (unpin_page p dirty b).0 ≡ pins_of q b - (if p == q then 1 else 0))
        × ((unpin_page p dirty b).1 ≡ ltb 0 (pins_of p b))
  unfolding unpin_page unpin_frame pins_of mark_dirty
  unpin_page-pins p q dirty v = elim (Option-cases (Maps.lookup p b.page_table)) [
    | inl absent ↦ ground (arith, absent, ==_iff p q)
    | inr (i, e) ↦
        let (page, real, busy, apart) = v.fits.table p i e in
        let (f, at, id) = frame_of_page b.frames i p page in
        let g : Frame = mark_dirty dirty (record f { pin_count = f.pin_count - 1 }) in
        elim (Option-cases (Maps.lookup q b.page_table)) [
          | inl none_there ↦
              ground (arith, at, none_there, e, pins_at-found b.frames i f at, ==_iff p q)
          | inr (j, k) ↦ ground (
            arith,
            at,
            k,
            e,
            pins_at-set b.frames i f at g j,
            pins_at-found b.frames i f at,
            ==_iff p q,
            ==_iff i j,
            v.fits.table q j k,
            page,
          )
        ]
  ]

  hit-lookup :
      (p i j : ℕ)
      → Maps.lookup p b.page_table ≡ some i
      → (hit i b).1 ≡ some j
      → Maps.lookup p (hit i b).0.page_table ≡ some j
  unfolding hit
  hit-lookup p i j e h = ground arith

  load-lookup :
      (p j : ℕ) (r : BufferPool D × Option ℕ)
      → (load calls p r).1 ≡ some j
      → Maps.lookup p (load calls p r).0.page_table ≡ some j
  unfolding load read_into
  load-lookup p j (b', none) h = cc
  load-lookup p j (b', some i) h = ground (arith, h, lookup-insert p p i b'.page_table, ==_iff p p)

  -- The frame that a fetch gives out is the one that the page table names.
  pub fetch_page-lookup :
      (p j : ℕ)
      → (fetch_page calls p b).1 ≡ some j
      → Maps.lookup p (fetch_page calls p b).0.page_table ≡ some j
  unfolding fetch_page
  fetch_page-lookup p j h =
      let b' = record b { miss_count = b.miss_count + 1 } in
      elim (Option-cases (Maps.lookup p b.page_table)) [
        | inr (i, e) ↦ ground (arith, e, hit-lookup p i j e, h)
        | inl e ↦ ground (arith, e, load-lookup p j (take_frame calls b'), h)
      ]
