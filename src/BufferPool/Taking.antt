-- ===== src/BufferPool/Taking.antt =====
-- Taking a frame for a page, from the free list or from a victim.
use qin_db.Shared.{
  ℕ, ◌≡◌, ◌≢◌, refl, true, false, inl, inr, Option, none, some, List, [], ◌∷◌, arith, get_elem?,
  Bool-cases, Option-cases, ==_iff,
}
use qin_db.Shared.Maps
use qin_db.Shared.Maps.{lookup-insert, lookup-remove}
use qin_db.Shared.Sets.{contains, contains-nil}
use qin_db.BufferPool.Calls.{DiskCalls}
use qin_db.BufferPool.{
  Frame, BufferPool, find_victim, evict_frame, evict_victim, take_from, take_frame,
}
use qin_db.BufferPool.Victim.{candidate_at, find_victim_sound}
use qin_db.BufferPool.Frames.{pins_at, pins_at-found, page_at-found}
use qin_db.BufferPool.Invariant.{IsPool, IsTaken, evict-IsTaken, pop-IsTaken}

-- What taking a frame leaves alone: the frames, the pages that are not in the pool, and the pages
-- that somebody has pinned.
pub record Kept {D : Type 0} (b b' : BufferPool D) : Type 0 where
  pub frames : b'.frames ≡ b.frames
  pub absent : (q : ℕ) → Maps.lookup q b.page_table ≡ none → Maps.lookup q b'.page_table ≡ none
  pub pinned :
      (q j : ℕ)
      → Maps.lookup q b.page_table ≡ some j
      → pins_at b.frames j ≢ some 0
      → Maps.lookup q b'.page_table ≡ some j
  pub subset :
      (q j : ℕ) → Maps.lookup q b'.page_table ≡ some j → Maps.lookup q b.page_table ≡ some j

abbrev pub Took : {D : Type 0} → BufferPool D → BufferPool D × Option ℕ → Type 0
Took b (b', none) = IsPool b' × Kept b b'
Took b (b', some i) = IsTaken i b' × Kept b b'

module _ {D : Type 0} (b : BufferPool D) where
  -- The invariants do not speak of the disk, the hand and the counters.
  pub other-IsPool :
      (disk : D) (hand hits misses : ℕ)
      → IsPool b
      → IsPool (record b { disk = disk; clock_hand = hand; hit_count = hits; miss_count = misses })
  other-IsPool disk hand hits misses v = record {
    fits = record {
      table = v.fits.table;
      used = v.fits.used;
      free = v.fits.free;
      distinct = v.fits.distinct;
    };
    sized = v.sized;
  }

  pub other-IsTaken :
      (i : ℕ) (disk : D) (hand hits misses : ℕ)
      → IsTaken i b
      → IsTaken i
          (record b { disk = disk; clock_hand = hand; hit_count = hits; miss_count = misses })
  other-IsTaken i disk hand hits misses v = record {
    fits = record {
      table = v.fits.table;
      used = v.fits.used;
      free = v.fits.free;
      distinct = v.fits.distinct;
    };
    sized = v.sized;
    idle = v.idle;
  }

  Kept-same :
      (disk : D) (hand : ℕ) (free : List ℕ)
      → Kept b (record b { disk = disk; clock_hand = hand; free_list = free })
  Kept-same disk hand free = record {
    frames = refl;
    absent = λ q e. e;
    pinned = λ q j e p. e;
    subset = λ q j e. e;
  }

  Kept-evict :
      (i : ℕ) (f : Frame) (disk : D) (hand : ℕ)
      → get_elem? b.frames i ≡ some f
      → f.pin_count ≡ 0
      → contains i b.free_list ≡ false
      → IsPool b
      → Kept b (record b {
        disk = disk;
        clock_hand = hand;
        page_table = Maps.remove f.page_id b.page_table;
      })
  Kept-evict i f disk hand at idle busy v =
      let mine = v.fits.used i f.page_id (page_at-found b.frames i f at) busy refl in
      record {
        frames = refl;
        absent = λ q e. ground (arith, lookup-remove f.page_id q b.page_table);
        pinned = λ q j e p. ground (
          arith,
          lookup-remove f.page_id q b.page_table,
          mine,
          pins_at-found b.frames i f at,
          ==_iff f.page_id q,
        );
        subset = λ q j e. ground (arith, lookup-remove f.page_id q b.page_table);
      }

module _ {D : Type 0} (calls : DiskCalls D) (b : BufferPool D) where
  evict_frame-Took :
      (i hand : ℕ) (f : Frame)
      → get_elem? b.frames i ≡ some f
      → f.pin_count ≡ 0
      → contains i b.free_list ≡ false
      → IsPool b
      → Took b (evict_frame calls i f (record b { clock_hand = hand }))
  unfolding evict_frame
  evict_frame-Took i hand f at idle busy v =
      let (disk, written) = calls.write_page f.page_id f.page.bytes b.disk in
      let taken = evict-IsTaken b i f at idle busy v in
      elim (Bool-cases f.is_dirty) [
        | inr clean ↦ rw clean (
          other-IsTaken _ i b.disk hand b.hit_count b.miss_count taken,
          Kept-evict b i f b.disk hand at idle busy v,
        )
        | inl dirty ↦ rw dirty (elim (Bool-cases written) [
          | inl ok ↦ rw ok (
            other-IsTaken _ i disk hand b.hit_count b.miss_count taken,
            Kept-evict b i f disk hand at idle busy v,
          )
          | inr failed ↦ rw failed (
            other-IsPool b disk hand b.hit_count b.miss_count v,
            Kept-same b disk hand b.free_list,
          )
        ])
      ]

  candidate-idle :
      (i : ℕ) (f : Frame)
      → get_elem? b.frames i ≡ some f
      → candidate_at b.frames i ≡ true
      → f.pin_count ≡ 0
  unfolding candidate_at
  candidate-idle i f at c = ground arith

  evict_victim-Took :
      (hand : ℕ) (victim : Option ℕ)
      → ((i : ℕ) → victim ≡ some i → candidate_at b.frames i ≡ true)
      → b.free_list ≡ []
      → IsPool b
      → Took b (evict_victim calls (hand, victim) b)
  unfolding evict_victim
  evict_victim-Took hand none c e v =
      (other-IsPool b b.disk hand b.hit_count b.miss_count v, Kept-same b b.disk hand b.free_list)
  evict_victim-Took hand (some i) c e v = elim (Option-cases (get_elem? b.frames i)) [
    | inl h ↦
        rw (h, evict_victim)
          (
            other-IsPool b b.disk hand b.hit_count b.miss_count v,
            Kept-same b b.disk hand b.free_list,
          )
    | inr (f, h) ↦
        rw (h, evict_victim)
          (evict_frame-Took i hand f h (candidate-idle i f h (c i refl)) (rw e (contains-nil i)) v)
  ]

  take_from-Took : (free : List ℕ) → b.free_list ≡ free → IsPool b → Took b (take_from calls free b)
  unfolding take_from
  take_from-Took [] e v =
      let (hand, victim) = find_victim b.pool_size b.clock_hand b.frames in
      evict_victim-Took hand victim (find_victim_sound b.frames b.pool_size b.clock_hand) e v
  take_from-Took (i ∷ rest) e v = (pop-IsTaken b i rest e v, Kept-same b b.disk b.clock_hand rest)

  pub take_frame-Took : IsPool b → Took b (take_frame calls b)
  unfolding take_frame
  take_frame-Took v = take_from-Took b.free_list refl v
