-- ===== src/BufferPool/Fetching.antt =====
-- fetchPage and newPage: the invariant, and that a pinned page stays where it is.
use qin_db.Shared.{
  ℕ, ◌+◌, ◌≡◌, ◌≢◌, refl, ap, inl, inr, Option, none, some, List, arith, ◌==◌, get_elem?, set,
  Bool-cases, Option-cases, ==_iff,
}
use qin_db.Shared.Maps
use qin_db.Shared.Maps.{lookup-insert}
use qin_db.BufferPool.Calls.{DiskCalls}
use qin_db.BufferPool.{
  Frame, BufferPool, hit, read_into, load, fetch_page, take_frame, invalid_page_id,
}
use qin_db.BufferPool.Frames.{
  pins_at, bytes_at, bytes_at-set, bytes_at-found, frame_of_page, frame_of_pins,
}
use qin_db.BufferPool.Invariant.{IsPool, IsTaken, put_frame-IsPool, fill-IsPool, give_back-IsPool}
use qin_db.BufferPool.Taking.{Kept, Took, take_frame-Took, other-IsPool, other-IsTaken}

-- Pages that were pinned are in the same frame, with the same bytes.
abbrev pub Stays : {D : Type 0} → BufferPool D → BufferPool D → Type 0
Stays b b' =
    (q j : ℕ)
    → Maps.lookup q b.page_table ≡ some j
    → pins_at b.frames j ≢ some 0
    → (Maps.lookup q b'.page_table ≡ some j) × (bytes_at b'.frames j ≡ bytes_at b.frames j)

abbrev pub Safe : {D : Type 0} → BufferPool D → BufferPool D → Type 0
Safe b b' = IsPool b' × Stays b b'

module _ {D : Type 0} (b : BufferPool D) where
  hit-Safe : (p i : ℕ) → Maps.lookup p b.page_table ≡ some i → IsPool b → Safe b (hit i b).0
  unfolding hit
  hit-Safe p i e v =
      let (page, real, busy, apart) = v.fits.table p i e in
      let (f, at, id) = frame_of_page b.frames i p page in
      let g : Frame = record f {
        pin_count = f.pin_count + 1;
        last_access_time = b.hit_count + 1;
      } in
      rw (at, hit)
        (
          put_frame-IsPool (record b { hit_count = b.hit_count + 1 }) i f g at busy refl
              (other-IsPool b b.disk b.clock_hand (b.hit_count + 1) b.miss_count v),
          λ q j h n. (
            h,
            ground (
              arith,
              bytes_at-set b.frames i f at g j,
              bytes_at-found b.frames i f at,
              ==_iff i j,
            ),
          ),
        )

module _ {D : Type 0} (calls : DiskCalls D) (b : BufferPool D) where
  -- Filling or giving back the frame apart leaves all pinned pages alone.
  pub apart-Stays :
      (b' : BufferPool D) (i : ℕ) (f g : Frame) (table : List (ℕ × ℕ))
      → get_elem? b'.frames i ≡ some f
      → IsTaken i b'
      → Kept b b'
      → ((q j : ℕ) → Maps.lookup q b'.page_table ≡ some j → Maps.lookup q table ≡ some j)
      → (q j : ℕ) → Maps.lookup q b.page_table ≡ some j
      → pins_at b.frames j ≢ some 0
      → (Maps.lookup q table ≡ some j) × (bytes_at (set b'.frames i g) j ≡ bytes_at b.frames j)
  apart-Stays b' i f g table at t k tables q j e n =
      let still = k.pinned q j e n in
      (
        tables q j still,
        ground (
          arith,
          ap (λ fs. bytes_at fs j) k.frames,
          bytes_at-set b'.frames i f at g j,
          t.fits.table q j still,
          ==_iff i j,
        ),
      )

  read_into-Safe :
      (p i : ℕ) (f : Frame) (b' : BufferPool D)
      → get_elem? b'.frames i ≡ some f
      → f.pin_count ≡ 0
      → p ≢ invalid_page_id
      → Maps.lookup p b.page_table ≡ none
      → IsTaken i b'
      → Kept b b'
      → Safe b (read_into calls p i f b').0
  unfolding read_into
  read_into-Safe p i f b' at idle real fresh t k =
      let r = calls.read_page p f.page.bytes b'.disk in
      let t' = other-IsTaken b' i r.0 b'.clock_hand b'.hit_count b'.miss_count t in
      let absent = k.absent p fresh in
      elim (Bool-cases r.2) [
        | inl ok ↦ rw ok (
          fill-IsPool (record b' { disk = r.0 }) i p f _ at refl real absent t',
          apart-Stays b' i f _ _ at t k
              λ q j e. ground (arith, lookup-insert p q i b'.page_table, ==_iff p q),
        )
        | inr failed ↦ rw failed (
          give_back-IsPool (record b' { disk = r.0 }) i f _ at idle t',
          apart-Stays b' i f _ _ at t k (λ q j e. e),
        )
      ]

  pub Kept-Stays : (b' : BufferPool D) → Kept b b' → Stays b b'
  Kept-Stays b' k q j e n = (k.pinned q j e n, ap (λ fs. bytes_at fs j) k.frames)

  load-Safe :
      (p : ℕ) (r : BufferPool D × Option ℕ)
      → p ≢ invalid_page_id
      → Maps.lookup p b.page_table ≡ none
      → Took b r
      → Safe b (load calls p r).0
  unfolding load
  load-Safe p (b', none) real fresh (v, k) = (v, Kept-Stays b' k)
  load-Safe p (b', some i) real fresh (t, k) =
      let (f, at, idle) = frame_of_pins b'.frames i 0 t.idle in
      rw (at, load) (read_into-Safe p i f b' at idle real fresh t k)

module _ {D : Type 0} (calls : DiskCalls D) (b : BufferPool D) where
  -- fetchPage keeps the invariant of the pool, and every page that somebody has pinned stays in its
  -- frame with its bytes, whether the fetch hits, misses, evicts or fails.
  pub fetch_page-Safe : (p : ℕ) → IsPool b → Safe b (fetch_page calls p b).0
  unfolding fetch_page
  fetch_page-Safe p v = elim (Bool-cases (p == invalid_page_id)) [
    | inl zero_id ↦ rw zero_id (v, λ q j e n. (e, refl))
    | inr real ↦ rw real (elim (Option-cases (Maps.lookup p b.page_table)) [
      | inr (i, e) ↦ rw (e, fetch_page) (hit-Safe b p i e v)
      | inl e ↦
          let b' = record b { miss_count = b.miss_count + 1 } in
          let v' = other-IsPool b b.disk b.clock_hand b.hit_count (b.miss_count + 1) v in
          rw (e, fetch_page)
            (load-Safe calls b' p (take_frame calls b') (ground arith) e
              (take_frame-Took calls b' v'))
    ])
  ]
