-- ===== src/BufferPool/Frames.antt =====
-- The frames as functions of their index: the page that a frame holds and its pins.
use qin_db.Shared.{
  ℕ, ◌≡◌, Option, none, some, List, arith, ◌==◌, if◌then◌else◌, get_elem?, set, get_elem?-set_self,
  get_elem?-set_ne, get_elem?-lt, Option-cases, ==_iff, inl, inr,
}
use qin_db.Page.LittleEndian.{Bytes}
use qin_db.BufferPool.{Frame}

unfoldable pub page_at : List Frame → ℕ → Option ℕ
page_at frames i = elim (get_elem? frames i) [ none ↦ none | some f ↦ some f.page_id ]

unfoldable pub pins_at : List Frame → ℕ → Option ℕ
pins_at frames i = elim (get_elem? frames i) [ none ↦ none | some f ↦ some f.pin_count ]

-- The bytes of the page in a frame.
unfoldable pub bytes_at : List Frame → ℕ → Option Bytes
bytes_at frames i = elim (get_elem? frames i) [ none ↦ none | some f ↦ some f.page.bytes ]

get_elem?-set :
    (xs : List Frame) (i j : ℕ) (f g : Frame)
    → get_elem? xs i ≡ some f
    → get_elem? (set xs i g) j ≡ (if i == j then some g else get_elem? xs j)
get_elem?-set xs i j f g e =
    ground (
      arith,
      get_elem?-set_self xs i g (get_elem?-lt xs i e),
      get_elem?-set_ne xs i j g,
      ==_iff i j,
    )

module _ (frames : List Frame) (i : ℕ) (f : Frame) (at : get_elem? frames i ≡ some f) where
  pub page_at-found : page_at frames i ≡ some f.page_id
  unfolding page_at
  page_at-found = rw (at, page_at)

  pub pins_at-found : pins_at frames i ≡ some f.pin_count
  unfolding pins_at
  pins_at-found = rw (at, pins_at)

  pub page_at-set :
      (g : Frame) (j : ℕ)
      → page_at (set frames i g) j ≡ (if i == j then some g.page_id else page_at frames j)
  unfolding page_at
  page_at-set g j = ground (arith, get_elem?-set frames i j f g at)

  pub pins_at-set :
      (g : Frame) (j : ℕ)
      → pins_at (set frames i g) j ≡ (if i == j then some g.pin_count else pins_at frames j)
  unfolding pins_at
  pins_at-set g j = ground (arith, get_elem?-set frames i j f g at)

  pub bytes_at-set :
      (g : Frame) (j : ℕ)
      → bytes_at (set frames i g) j ≡ (if i == j then some g.page.bytes else bytes_at frames j)
  unfolding bytes_at
  bytes_at-set g j = ground (arith, get_elem?-set frames i j f g at)

  pub bytes_at-found : bytes_at frames i ≡ some f.page.bytes
  unfolding bytes_at
  bytes_at-found = rw (at, bytes_at)

pub frame_of_pins :
    (frames : List Frame) (i n : ℕ)
    → pins_at frames i ≡ some n
    → (f : Frame) × (get_elem? frames i ≡ some f) × (f.pin_count ≡ n)
unfolding pins_at
frame_of_pins frames i n e = elim (Option-cases (get_elem? frames i)) [
  | inl h ↦ absurd (ground arith)
  | inr (f, h) ↦ (f, h, ground arith)
]

pub frame_of_page :
    (frames : List Frame) (i p : ℕ)
    → page_at frames i ≡ some p
    → (f : Frame) × (get_elem? frames i ≡ some f) × (f.page_id ≡ p)
unfolding page_at
frame_of_page frames i p e = elim (Option-cases (get_elem? frames i)) [
  | inl h ↦ absurd (ground arith)
  | inr (f, h) ↦ (f, h, ground arith)
]
