-- ===== src/BufferPool/Start.antt =====
-- The constructor of the buffer pool.
use qin_db.Shared.{
  ℕ, zero, suc, ◌+◌, ◌<◌, ◌≡◌, refl, ◌&&◌, some, arith, ltb, leb, get_elem?, get_elem?-lt,
  replicate, length-replicate,
}
use qin_db.Shared.Maps
use qin_db.Shared.Sets.{contains, Distinct}
use qin_db.BufferPool.{Frame, init, indices, first_frame}
use qin_db.BufferPool.Frames.{frame_of_page, pins_at-found}
use qin_db.BufferPool.Invariant.{IsPool}

contains-indices : (j i n : ℕ) → contains j (indices i n) ≡ (leb i j && ltb j (i + n))
unfolding contains indices
contains-indices j i zero = ground arith
contains-indices j i (suc n) = ground (arith, contains-indices j (suc i) n)

Distinct-indices : (i n : ℕ) → Distinct (indices i n)
unfolding indices
Distinct-indices i zero = tt
Distinct-indices i (suc n) =
    (ground (arith, contains-indices i (suc i) n), Distinct-indices (suc i) n)

get_elem?-replicate : (n j : ℕ) (f : Frame) → j < n → get_elem? (replicate n f) j ≡ some f
get_elem?-replicate zero j f h = absurd (omega arith)
get_elem?-replicate (suc n) zero f h = refl
get_elem?-replicate (suc n) (suc j) f h = get_elem?-replicate n j f (omega arith)

-- The constructor establishes the invariant, for every pool size.
pub init-IsPool : {D : Type 0} (n : ℕ) (disk : D) → IsPool (init n disk)
unfolding init Maps.lookup
init-IsPool n disk = record {
  fits = record {
    table = λ p j e. cc;
    used = λ j p e busy a.
        let (f, at, id) = frame_of_page (init n disk).frames j p e in
        absurd (
          ground (
            arith,
            get_elem?-lt (init n disk).frames j at,
            length-replicate n first_frame,
            contains-indices j 0 n,
            busy,
          ));
    free = λ j e.
        let h : j < n = ground (arith, contains-indices j 0 n) in
        (
          pins_at-found (replicate n first_frame) j first_frame
              (get_elem?-replicate n j first_frame h),
          refl,
        );
    distinct = Distinct-indices 0 n;
  };
  sized = length-replicate n first_frame;
}
