-- ===== src/BufferPool.antt =====
-- include/qindb/buffer_pool_manager.h and src/storage/buffer_pool_manager.cpp: frames that cache
-- pages of the disk.
--
-- A pointer to a page is the index of its frame; a null pointer is `none`. The vector of frames is a
-- list; an index outside it, which the source does not have, ends the call. The disk manager is a
-- parameter, whose calls `Disk` implements. The mutex makes every operation one step. The counters of
-- hits, misses and pins do not wrap. Logging is left out.
pub mod Calls
pub mod Victim
pub mod Frames
pub mod Invariant
pub mod Taking
pub mod Fetching
pub mod Start
pub mod Returning
pub mod Creating
pub mod History
pub mod Pins
pub mod Balance
use qin_db.Shared.{
  ℕ, zero, suc, ◌+◌, ◌-◌, ◌*◌, ◌%◌, ◌≡◌, Bool, true, false, not, ◌&&◌, ◌||◌, Option, none, some,
  List, [], ◌∷◌, ◌++◌, ltb, ◌==◌, if◌then◌else◌, length, get_elem?, set, replicate,
}
use qin_db.Shared.Maps
use qin_db.Page.LittleEndian.{Bytes}
use qin_db.Page.{Page, reset, set_page_id, set_dirty, update_checksum}
use Calls.{DiskCalls}

abbrev pub invalid_page_id : ℕ
invalid_page_id = 0

pub record Frame : Type 0 where
  pub page : Page
  pub page_id : ℕ
  pub is_dirty : Bool
  pub pin_count : ℕ
  pub last_access_time : ℕ

pub record BufferPool (D : Type 0) : Type 0 where
  pub pool_size : ℕ
  pub frames : List Frame
  pub page_table : List (ℕ × ℕ)
  pub free_list : List ℕ
  pub clock_hand : ℕ
  pub disk : D
  pub hit_count : ℕ
  pub miss_count : ℕ

pub record Stats : Type 0 where
  pub num_pages : ℕ
  pub num_dirty_pages : ℕ
  pub num_pinned_pages : ℕ

unfoldable pub mark_dirty : Bool → Frame → Frame
mark_dirty d f = if d then record f { is_dirty = true; page = set_dirty true f.page } else f

-- The numbers from `i`, `n` of them.
unfoldable pub indices : ℕ → ℕ → List ℕ
indices i zero = []
indices i (suc n) = i ∷ indices (suc i) n

abbrev pub empty_frame : Page → Frame
empty_frame p = record {
  page = p;
  page_id = invalid_page_id;
  is_dirty = false;
  pin_count = 0;
  last_access_time = 0;
}

abbrev pub first_frame : Frame
first_frame = empty_frame (reset (record { bytes = []; pin_count = 0; is_dirty = false }))

-- The constructor: every frame is empty and free.
unfoldable pub init : {D : Type 0} → ℕ → D → BufferPool D
unfolding indices
init n disk = record {
  pool_size = n;
  frames = replicate n first_frame;
  page_table = [];
  free_list = indices 0 n;
  clock_hand = 0;
  disk = disk;
  hit_count = 0;
  miss_count = 0;
}

-- findVictim: the loop, with the rounds left, the frames scanned and the hand. It returns the hand
-- and the victim.
unfoldable pub find_victim_from : ℕ → ℕ → ℕ → ℕ → List Frame → ℕ × Option ℕ
find_victim_from zero scanned size hand frames = (hand, none)
find_victim_from (suc rounds) scanned size hand frames =
    let next = (hand + 1) % size in
    let rest = find_victim_from rounds (scanned + 1) size next frames in
    elim (get_elem? frames hand) [
      | none ↦ (hand, none)
      | some f ↦
          if ltb 0 f.pin_count
          then rest
          else if not (f.page_id == invalid_page_id)
          then (if ltb scanned size then rest else (next, some hand))
          else rest
    ]

-- At most two rounds over the pool.
unfoldable pub find_victim : ℕ → ℕ → List Frame → ℕ × Option ℕ
find_victim size hand frames = find_victim_from (size * 2) 0 size hand frames

-- getStats, as far as it counts frames.
unfoldable pub count_stats : List Frame → ℕ × ℕ
count_stats [] = (0, 0)
count_stats (f ∷ fs) =
    let (dirty, pinned) = count_stats fs in
    if not (f.page_id == invalid_page_id)
    then (dirty + (if f.is_dirty then 1 else 0), pinned + (if ltb 0 f.pin_count then 1 else 0))
    else (dirty, pinned)

module _ {D : Type 0} where
  unfoldable pub get_stats : BufferPool D → Stats
  unfolding count_stats
  get_stats b = record {
    num_pages = length b.page_table;
    num_dirty_pages = (count_stats b.frames).0;
    num_pinned_pages = (count_stats b.frames).1;
  }

  abbrev pub put_frame : ℕ → Frame → BufferPool D → BufferPool D
  put_frame i f b = record b { frames = set b.frames i f }

  -- A hit in fetchPage.
  unfoldable pub hit : ℕ → BufferPool D → BufferPool D × Option ℕ
  hit i b = elim (get_elem? b.frames i) [
    | none ↦ (b, none)
    | some f ↦ (
      put_frame i (record f { pin_count = f.pin_count + 1; last_access_time = b.hit_count + 1 })
          (record b { hit_count = b.hit_count + 1 }),
      some i,
    )
  ]

  unfoldable pub unpin_frame : ℕ → Bool → Frame → BufferPool D → BufferPool D × Bool
  unfolding mark_dirty
  unpin_frame i dirty f b =
      if ltb 0 f.pin_count
      then (put_frame i (mark_dirty dirty (record f { pin_count = f.pin_count - 1 })) b, true)
      else (b, false)

  -- unpinPage
  unfoldable pub unpin_page : ℕ → Bool → BufferPool D → BufferPool D × Bool
  unpin_page p dirty b = elim (Maps.lookup p b.page_table) [
    | none ↦ (b, false)
    | some i ↦ elim (get_elem? b.frames i) [ none ↦ (b, false) | some f ↦ unpin_frame i dirty f b ]
  ]

  -- What deletePage and evictPage do to a frame: it is emptied and given back.
  unfoldable pub free_frame : ℕ → ℕ → Frame → BufferPool D → BufferPool D
  free_frame p i f b = record b {
    page_table = Maps.remove p b.page_table;
    frames = set b.frames i (record f {
      page = reset f.page;
      page_id = invalid_page_id;
      is_dirty = false;
      pin_count = 0;
    });
    free_list = b.free_list ++ (i ∷ []);
  }

module _ {D : Type 0} (calls : DiskCalls D) where
  open calls use {read_page, write_page, allocate_page, deallocate_page, flush}

  -- The end of an eviction: a dirty victim is written first, and stays if that fails.
  unfoldable pub evict_frame : ℕ → Frame → BufferPool D → BufferPool D × Option ℕ
  evict_frame i f b =
      let (disk, written) = write_page f.page_id f.page.bytes b.disk in
      let table = Maps.remove f.page_id b.page_table in
      if f.is_dirty
      then (if written
          then (record b { disk = disk; page_table = table }, some i)
          else (record b { disk = disk }, none))
      else (record b { page_table = table }, some i)

  unfoldable pub evict_victim : ℕ × Option ℕ → BufferPool D → BufferPool D × Option ℕ
  evict_victim (hand, none) b = (record b { clock_hand = hand }, none)
  evict_victim (hand, some i) b = elim (get_elem? b.frames i) [
    | none ↦ (record b { clock_hand = hand }, none)
    | some f ↦ evict_frame i f (record b { clock_hand = hand })
  ]

  -- The part that fetchPage and newPage share: the first free frame, or else a victim.
  unfoldable pub take_from : List ℕ → BufferPool D → BufferPool D × Option ℕ
  take_from [] b = evict_victim (find_victim b.pool_size b.clock_hand b.frames) b
  take_from (i ∷ rest) b = (record b { free_list = rest }, some i)

  unfoldable pub take_frame : BufferPool D → BufferPool D × Option ℕ
  take_frame b = take_from b.free_list b

  -- The end of fetchPage: the page is read into its frame, which goes back if that fails.
  unfoldable pub read_into : ℕ → ℕ → Frame → BufferPool D → BufferPool D × Option ℕ
  read_into p i f b =
      let (disk, bytes, ok) = read_page p f.page.bytes b.disk in
      let filled = record f { page = record f.page { bytes = bytes } } in
      if ok
      then (
        record b {
          disk = disk;
          frames = set b.frames i (record filled {
            page_id = p;
            is_dirty = false;
            pin_count = 1;
            last_access_time = b.hit_count + b.miss_count;
          });
          page_table = Maps.insert p i b.page_table;
        },
        some i,
      )
      else (
        record b {
          disk = disk;
          frames = set b.frames i filled;
          free_list = b.free_list ++ (i ∷ []);
        },
        none,
      )

  unfoldable pub load : ℕ → BufferPool D × Option ℕ → BufferPool D × Option ℕ
  load p (b, none) = (b, none)
  load p (b, some i) = elim (get_elem? b.frames i) [ none ↦ (b, none) | some f ↦ read_into p i f b ]

  -- fetchPage
  unfoldable pub fetch_page : ℕ → BufferPool D → BufferPool D × Option ℕ
  fetch_page p b = if p == invalid_page_id then (b, none) else elim (Maps.lookup p b.page_table) [
    | some i ↦ hit i b
    | none ↦ load p (take_frame (record b { miss_count = b.miss_count + 1 }))
  ]

  -- The end of newPage: the frame holds an empty page under its new id, dirty and pinned.
  unfoldable pub fill_new : ℕ → ℕ → Frame → BufferPool D → BufferPool D × Option ℕ
  fill_new p i f b = (
    record b {
      frames = set b.frames i (record {
        page = set_page_id p (reset f.page);
        page_id = p;
        is_dirty = true;
        pin_count = 1;
        last_access_time = b.hit_count + b.miss_count;
      });
      page_table = Maps.insert p i b.page_table;
    },
    some i,
  )

  unfoldable pub place_new : ℕ → BufferPool D × Option ℕ → BufferPool D × Option ℕ
  place_new p (b, none) = (record b { disk = deallocate_page p b.disk }, none)
  place_new p (b, some i) = elim (get_elem? b.frames i) [
    | none ↦ (b, none)
    | some f ↦ fill_new p i f b
  ]

  -- newPage: the frame, and the id that goes out through the pointer.
  unfoldable pub new_page : BufferPool D → (BufferPool D × Option ℕ) × ℕ
  new_page b =
      let (disk, p) = allocate_page b.disk in
      let b' = record b { disk = disk } in
      if p == invalid_page_id then ((b', none), p) else (place_new p (take_frame b'), p)

  unfoldable pub flush_frame : ℕ → ℕ → Frame → BufferPool D → BufferPool D × Bool
  flush_frame p i f b =
      let page = update_checksum f.page in
      let (disk, ok) = write_page p page.bytes b.disk in
      if f.is_dirty
      then (if ok
          then (
            put_frame i (record f { page = set_dirty false page; is_dirty = false })
                (record b { disk = disk }),
            true,
          )
          else (put_frame i (record f { page = page }) (record b { disk = disk }), false))
      else (b, true)

  -- flushPage
  unfoldable pub flush_page : ℕ → BufferPool D → BufferPool D × Bool
  flush_page p b = elim (Maps.lookup p b.page_table) [
    | none ↦ (b, false)
    | some i ↦ elim (get_elem? b.frames i) [ none ↦ (b, false) | some f ↦ flush_frame p i f b ]
  ]

  unfoldable pub flush_entry : ℕ → ℕ → BufferPool D → BufferPool D
  flush_entry p i b = elim (get_elem? b.frames i) [ none ↦ b | some f ↦ (flush_frame p i f b).0 ]

  unfoldable pub flush_entries : List (ℕ × ℕ) → BufferPool D → BufferPool D
  flush_entries [] b = b
  flush_entries ((p, i) ∷ rest) b = flush_entries rest (flush_entry p i b)

  -- flushAllPages: every entry of the page table, a failure being only logged.
  unfoldable pub flush_all_pages : BufferPool D → BufferPool D
  flush_all_pages b = let b' = flush_entries b.page_table b in record b' { disk = flush b'.disk }

  unfoldable pub delete_frame : ℕ → ℕ → Frame → BufferPool D → BufferPool D × Bool
  delete_frame p i f b =
      if ltb 0 f.pin_count
      then (b, false)
      else (let b' = free_frame p i f b in (record b' { disk = deallocate_page p b'.disk }, true))

  -- deletePage
  unfoldable pub delete_page : ℕ → BufferPool D → BufferPool D × Bool
  delete_page p b = elim (Maps.lookup p b.page_table) [
    | none ↦ (record b { disk = deallocate_page p b.disk }, true)
    | some i ↦ elim (get_elem? b.frames i) [ none ↦ (b, false) | some f ↦ delete_frame p i f b ]
  ]

  unfoldable pub evict_clean : ℕ → ℕ → Frame → BufferPool D → BufferPool D × Bool
  evict_clean p i f b =
      let page = update_checksum f.page in
      let (disk, ok) = write_page p page.bytes b.disk in
      if ltb 0 f.pin_count
      then (b, false)
      else if f.is_dirty
      then (if ok
          then (free_frame p i (record f { page = page }) (record b { disk = disk }), true)
          else (put_frame i (record f { page = page }) (record b { disk = disk }), false))
      else (free_frame p i f b, true)

  -- evictPage, which nothing calls.
  unfoldable pub evict_page : ℕ → BufferPool D → BufferPool D × Bool
  evict_page p b = elim (Maps.lookup p b.page_table) [
    | none ↦ (b, true)
    | some i ↦ elim (get_elem? b.frames i) [ none ↦ (b, true) | some f ↦ evict_clean p i f b ]
  ]
