-- ===== src/BufferPool/Invariant.antt =====
-- The invariant of the buffer pool: page table, frames and free list fit together.
use qin_db.Shared.{
  ℕ, ◌≡◌, ◌≢◌, refl, ap, subst, ◌∙◌, Bool, true, false, none, some, List, [], ◌∷◌, ◌++◌, arith,
  ◌==◌, length, get_elem?, set, length-set, ==_iff,
}
use qin_db.Shared.Maps
use qin_db.Shared.Maps.{lookup-insert, lookup-remove}
use qin_db.Shared.Sets.{contains, Distinct, contains-push, Distinct-push}
use qin_db.BufferPool.{Frame, BufferPool, invalid_page_id, put_frame}
use qin_db.BufferPool.Frames.{
  page_at, pins_at, page_at-found, pins_at-found, page_at-set, pins_at-set,
}

-- The pool without frame `i`, which is about to be filled or given back: all other frames are either
-- free, without pins, or hold the page for which the page table names them. With `i` outside the
-- pool this speaks of every frame.
pub record Fits {D : Type 0} (apart : ℕ → Bool) (b : BufferPool D) : Type 0 where
  pub table :
      (p j : ℕ)
      → Maps.lookup p b.page_table ≡ some j
      → (page_at b.frames j ≡ some p)
        × (p ≢ invalid_page_id)
        × (contains j b.free_list ≡ false)
        × (apart j ≡ false)
  pub used :
      (j p : ℕ)
      → page_at b.frames j ≡ some p
      → contains j b.free_list ≡ false
      → apart j ≡ false
      → Maps.lookup p b.page_table ≡ some j
  pub free :
      (j : ℕ) → contains j b.free_list ≡ true → (pins_at b.frames j ≡ some 0) × (apart j ≡ false)
  pub distinct : Distinct b.free_list

-- No frame is apart.
abbrev pub nothing : ℕ → Bool
nothing j = false

-- The frame with this index is apart.
abbrev pub only : ℕ → ℕ → Bool
only i j = i == j

pub record IsPool {D : Type 0} (b : BufferPool D) : Type 0 where
  pub fits : Fits nothing b
  pub sized : length b.frames ≡ b.pool_size

-- A pool with frame `i` apart, which is not pinned.
pub record IsTaken {D : Type 0} (i : ℕ) (b : BufferPool D) : Type 0 where
  pub fits : Fits (only i) b
  pub sized : length b.frames ≡ b.pool_size
  pub idle : pins_at b.frames i ≡ some 0

module _ {D : Type 0} (b : BufferPool D) where
  -- A frame in use is changed, and still holds the same page.
  pub put_frame-IsPool :
      (i : ℕ) (f g : Frame)
      → get_elem? b.frames i ≡ some f
      → contains i b.free_list ≡ false
      → g.page_id ≡ f.page_id
      → IsPool b
      → IsPool (put_frame i g b)
  put_frame-IsPool i f g at busy same v =
      let pages = page_at-set b.frames i f at g in
      let found = page_at-found b.frames i f at in
      record {
        fits = record {
          table = λ p j e. ground (arith, pages j, found, v.fits.table p j, ==_iff i j);
          used = λ j p e n a. ground (arith, pages j, found, v.fits.used j p, ==_iff i j);
          free = λ j e. ground (arith, pins_at-set b.frames i f at g j, v.fits.free j, ==_iff i j);
          distinct = v.fits.distinct;
        };
        sized = length-set b.frames i g ∙ v.sized;
      }

  -- A frame is changed, but neither in its page nor in its pins.
  pub put_frame_same-IsPool :
      (i : ℕ) (f g : Frame)
      → get_elem? b.frames i ≡ some f
      → g.page_id ≡ f.page_id
      → g.pin_count ≡ f.pin_count
      → IsPool b
      → IsPool (put_frame i g b)
  put_frame_same-IsPool i f g at same pins v =
      let pages = page_at-set b.frames i f at g in
      let found = page_at-found b.frames i f at in
      let pinned = pins_at-found b.frames i f at in
      record {
        fits = record {
          table = λ p j e. ground (arith, pages j, found, v.fits.table p j, ==_iff i j);
          used = λ j p e n a. ground (arith, pages j, found, v.fits.used j p, ==_iff i j);
          free = λ j e.
              ground (arith, pins_at-set b.frames i f at g j, pinned, v.fits.free j, ==_iff i j);
          distinct = v.fits.distinct;
        };
        sized = length-set b.frames i g ∙ v.sized;
      }

  -- A free frame is taken.
  pub pop-IsTaken :
      (i : ℕ) (rest : List ℕ)
      → b.free_list ≡ i ∷ rest
      → IsPool b
      → IsTaken i (record b { free_list = rest })
  unfolding contains
  pop-IsTaken i rest e v =
      let member = λ (j : ℕ). ap (contains j) e in
      let apart : Distinct (i ∷ rest) = subst Distinct e v.fits.distinct in
      record {
        fits = record {
          table = λ p j h. ground (arith, v.fits.table p j, member j, ==_iff i j);
          used = λ j p h n a. ground (arith, v.fits.used j p, member j);
          free = λ j h. ground (arith, v.fits.free j, member j, apart.0, ==_iff i j);
          distinct = apart.1;
        };
        sized = v.sized;
        idle = ground (arith, v.fits.free i, member i, ==_iff i i);
      }

  -- A victim is taken out of the page table.
  pub evict-IsTaken :
      (i : ℕ) (f : Frame)
      → get_elem? b.frames i ≡ some f
      → f.pin_count ≡ 0
      → contains i b.free_list ≡ false
      → IsPool b
      → IsTaken i (record b { page_table = Maps.remove f.page_id b.page_table })
  evict-IsTaken i f at idle busy v =
      let found = page_at-found b.frames i f at in
      let mine = v.fits.used i f.page_id found busy refl in
      record {
        fits = record {
          table = λ p j h. ground (
            arith,
            lookup-remove f.page_id p b.page_table,
            v.fits.table p j,
            found,
            ==_iff i j,
            ==_iff f.page_id p,
          );
          used = λ j p h n a. ground (
            arith,
            lookup-remove f.page_id p b.page_table,
            v.fits.used j p,
            mine,
            ==_iff i j,
            ==_iff f.page_id p,
          );
          free = λ j h. ground (arith, v.fits.free j, ==_iff i j);
          distinct = v.fits.distinct;
        };
        sized = v.sized;
        idle = ground (arith, pins_at-found b.frames i f at);
      }

  -- The frame apart is filled with a page that the pool does not hold.
  pub fill-IsPool :
      (i p : ℕ) (f g : Frame)
      → get_elem? b.frames i ≡ some f
      → g.page_id ≡ p
      → p ≢ invalid_page_id
      → Maps.lookup p b.page_table ≡ none
      → IsTaken i b
      → IsPool (record b { frames = set b.frames i g; page_table = Maps.insert p i b.page_table })
  fill-IsPool i p f g at id real fresh v =
      let pages = page_at-set b.frames i f at g in
      let pins = pins_at-set b.frames i f at g in
      let stored = λ (q : ℕ). lookup-insert p q i b.page_table in
      record {
        fits = record {
          table = λ q j h.
              ground
                (arith, pages j, stored q, v.fits.table q j, v.fits.free i, ==_iff i j, ==_iff p q);
          used = λ j q h n a.
              ground (arith, pages j, stored q, v.fits.used j q, fresh, ==_iff i j, ==_iff p q);
          free = λ j h. ground (arith, pins j, v.fits.free j, ==_iff i j);
          distinct = v.fits.distinct;
        };
        sized = length-set b.frames i g ∙ v.sized;
      }

  -- The frame apart goes to the free list.
  pub give_back-IsPool :
      (i : ℕ) (f g : Frame)
      → get_elem? b.frames i ≡ some f
      → g.pin_count ≡ 0
      → IsTaken i b
      → IsPool (record b { frames = set b.frames i g; free_list = b.free_list ++ (i ∷ []) })
  give_back-IsPool i f g at idle v =
      let pages = page_at-set b.frames i f at g in
      let pins = pins_at-set b.frames i f at g in
      let pushed = λ (j : ℕ). contains-push i j b.free_list in
      record {
        fits = record {
          table = λ q j h. ground (arith, pages j, pushed j, v.fits.table q j, ==_iff i j);
          used = λ j q h n a. ground (arith, pages j, pushed j, v.fits.used j q, ==_iff i j);
          free = λ j h. ground (arith, pins j, pushed j, v.fits.free j, ==_iff i j);
          distinct = Distinct-push i b.free_list (not_free i v) v.fits.distinct;
        };
        sized = length-set b.frames i g ∙ v.sized;
      }
    where
      not_free : (i : ℕ) → IsTaken i b → contains i b.free_list ≡ false
      not_free i v = ground (arith, v.fits.free i, ==_iff i i)
