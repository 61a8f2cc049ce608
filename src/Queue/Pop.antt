-- ===== src/Queue/Pop.antt =====
-- `pop` and `pop_all` on a queue that holds messages.
use rapidlog.Prelude.{
  ℕ, zero, suc, ◌⊎◌, inl, inr, ◌+◌, ◌-◌, ◌^◌, ◌≤◌, ◌<◌, ◌≡◌, refl, List, [], ◌∷◌, ◌++◌, none, some,
  ok, slice, slice_lem, length, min, take, drop, le_bytes, from_le-le_bytes, length-le_bytes,
  length-append, length-drop, take-append, take-min, take-append_length, drop-append_length,
  drop-append_of_le, take-append_of_le, append_assoc, le→ltb_false, lt→ltb, replicate, arith, subst,
  sym, ap, ◌∙◌,
}
use rapidlog.Queue.Ring.{RingBuffer, IsRingBuffer}
use rapidlog.Queue.Defs.{padded_size, read_frame, pop, pop_loop, pop_all}
use rapidlog.Queue.Writes.{frame}
use rapidlog.Queue.Frames.{Frames, length-frame, Holds}
use native.Mathlib.Nat.{mod-mod_of_dvd, mod-lt, dvd_of_mod-eq-zero}

-- Cut at `n`, both within the first part.
front_of_both : (n : ℕ) (f s : List ℕ) → n ≤ length f → take n f ≡ take n (f ++ s)
front_of_both n f s h = sym (take-append_of_le n f s h)

-- The two pieces that `pop` puts together are the `len` bytes behind the header.
pieces :
    (len fl bl : ℕ) (f s : List ℕ)
    → 8 ≤ length f
    → fl ≡ min (length (drop 8 f)) len
    → bl ≡ min (length s) (len - length (drop 8 f))
    → take fl (drop 8 f) ++ take bl s ≡ take len (drop 8 (f ++ s))
pieces len fl bl f s h e₁ e₂ = rw (
  e₁,
  e₂,
  take-min len (drop 8 f),
  take-min (len - length (drop 8 f)) s,
  drop-append_of_le 8 f s h,
  take-append len (drop 8 f) s,
)

behind_header :
    (header gap m tail : List ℕ)
    → length header ≡ 4
    → length gap ≡ 4
    → take (length m) (drop 8 (header ++ (gap ++ (m ++ tail)))) ≡ m
behind_header header gap m tail e₁ e₂ = ap (λ x. take (length m) x) cut ∙ take-append_length m tail
  where
    eight : length (header ++ gap) ≡ 8
    eight = omega (arith, length-append header gap)

    cut : drop 8 (header ++ (gap ++ (m ++ tail))) ≡ m ++ tail
    cut =
        ap (λ x. drop 8 x) (sym (append_assoc header gap (m ++ tail)))
        ∙ subst (λ k. drop k ((header ++ gap) ++ (m ++ tail)) ≡ m ++ tail) eight
            (drop-append_length (header ++ gap) (m ++ tail))

header_of :
    (n : ℕ) (f s rest : List ℕ)
    → n < 256 ^ 4
    → f ++ s ≡ le_bytes 4 n ++ rest
    → 8 ≤ length f
    → slice f 0 4 ≡ ok (le_bytes 4 n)
header_of n f s rest small whole lo =
    slice_lem f 0 4 (omega arith) (omega arith)
    ∙ ap ok (front_of_both 4 f s (omega arith) ∙ ap (λ x. take 4 x) whole)

read_frame_lem :
    (m gap tail f s : List ℕ)
    → length gap ≡ 4
    → length m < 256 ^ 4
    → f ++ s ≡ le_bytes 4 (length m) ++ (gap ++ (m ++ tail))
    → 8 ≤ length f
    → padded_size (length m) ≤ length f + length s
    → read_frame f s ≡ ok (some (m, padded_size (length m)))
unfolding read_frame
read_frame_lem m gap tail f s eg small whole lo enough =
    let len = length m in
    let fp = min (length f - 8) len in
    let bl = min (len - fp) (length s) in
    let e₁ = header_of len f s (gap ++ (m ++ tail)) small whole lo in
    let e₂ = from_le-le_bytes 4 len small in
    let e₃ = le→ltb_false (length f + length s) (padded_size len) enough in
    let e₄ = slice_lem f 8 (8 + fp) (omega arith) (omega arith) in
    let e₅ = slice_lem s 0 bl (omega arith) (omega arith) in
    let e₆ : take (8 + fp - 8) (drop 8 f) ++ take (bl - 0) s ≡ m =
      pieces len (8 + fp - 8) (bl - 0) f s lo (omega (arith, length-drop 8 f))
        (omega (arith, length-drop 8 f))
      ∙ ap (λ x. take len (drop 8 x)) whole
      ∙ behind_header (le_bytes 4 len) gap m tail (length-le_bytes 4 len) eg in
    rw (e₁, e₂, e₃, e₄, e₅, e₆)

module _ (r : RingBuffer) (laws : IsRingBuffer r) where
  open r use {Buffer, stored, capacity, read_pos, read_slices, commit_read}

  -- A queue with no message answers `None`.
  pub pop-empty : (b : Buffer) → Holds r b [] → pop r b ≡ ok none
  unfolding pop
  pop-empty b h =
      let none_left = ap (λ (s : List ℕ). length s) h.frames in
      rw (lt→ltb (r.slots b) 8 (omega (arith, laws.slots_lem b)))

  -- What `pop` does on a queue with a first message.
  pub record IsPopped (b : Buffer) (m : List ℕ) (ms : List (List ℕ)) : Type 0 where
    pub after : Buffer
    pub popped : pop r b ≡ ok (some (m, after))
    pub holds : Holds r after ms
    pub shrunk : length (stored after) < length (stored b)
    pub same_capacity : capacity after ≡ capacity b

  commit-Holds :
      (b : Buffer) (m gap rest : List ℕ) (ms : List (List ℕ))
      → Holds r b (m ∷ ms)
      → length gap ≡ 4
      → stored b ≡ frame gap m (padded_size (length m)) ++ rest
      → Frames ms rest
      → Holds r (commit_read b (padded_size (length m))) ms
        × (length (stored (commit_read b (padded_size (length m)))) < length (stored b))
  commit-Holds b m gap rest ms h eg eb hs =
      let n = padded_size (length m) in
      let whole = ap (λ (s : List ℕ). length s) eb ∙ length-append (frame gap m n) rest in
      let long = length-frame gap m eg in
      let left : stored (commit_read b n) ≡ rest =
        laws.stored-commit_read b n
        ∙ ap (λ s. drop n s) eb
        ∙ subst (λ k. drop k (frame gap m n ++ rest) ≡ rest) long
            (drop-append_length (frame gap m n) rest) in
      let left_length = ap (λ (s : List ℕ). length s) left in
      let same = laws.capacity-commit_read b n in
      let moved = laws.read_pos-commit_read b n in
      (
        record {
          frames = rw left hs;
          fits = omega (arith, h.fits);
          inside = rw (moved, same) (mod-lt (read_pos b + n) (omega (arith, h.inside)));
          capacity_aligned = rw same h.capacity_aligned;
          position_aligned = rw moved (
              mod-mod_of_dvd 64 {b = capacity b} (read_pos b + n)
                (dvd_of_mod-eq-zero 64 h.capacity_aligned)
              ∙ omega (arith, h.position_aligned));
          stored_aligned = omega (arith, h.stored_aligned);
        },
        omega arith,
      )

  -- It takes the oldest message, whole, and leaves the others.
  pub pop-IsPopped :
      (b : Buffer) (m : List ℕ) (ms : List (List ℕ)) → Holds r b (m ∷ ms) → IsPopped b m ms
  unfolding pop
  pop-IsPopped b m ms h =
      let (gap, rest, eg, small, eb, hs) = h.frames in
      let n = padded_size (length m) in
      let zeros : List ℕ = replicate (n - (8 + length m)) 0 in
      let whole = ap (λ (s : List ℕ). length s) eb ∙ length-append (frame gap m n) rest in
      let long = length-frame gap m eg in
      let f = (read_slices b).0 in
      let s = (read_slices b).1 in
      let both = laws.read_slices-append b in
      let both_length = sym (length-append f s) ∙ ap (λ (x : List ℕ). length x) both in
      let lo : 8 ≤ length f =
        omega
          (arith, laws.length-read_slices b, h.inside, h.capacity_aligned, h.position_aligned) in
      let parts : f ++ s ≡ le_bytes 4 (length m) ++ (gap ++ (m ++ (zeros ++ rest))) =
        both ∙ eb ∙ simp (append_assoc) in
      let e₁ = read_frame_lem m gap (zeros ++ rest) f s eg small parts lo (omega arith) in
      let e₂ = le→ltb_false (r.slots b) 8 (omega (arith, laws.slots_lem b)) in
      let e₃ = le→ltb_false (length f) 8 lo in
      let (holds', shrunk') = commit-Holds b m gap rest ms h eg eb hs in
      record {
        after = commit_read b n;
        popped = rw (e₂, e₃, e₁);
        holds = holds';
        shrunk = shrunk';
        same_capacity = laws.capacity-commit_read b n;
      }

  -- `pop` on a queue of whole cache lines that holds some messages does not panic: if there is none it
  -- answers `None`, and else it takes the oldest message, whole, and leaves the others.
  pub pop_lem :
      (b : Buffer) (ms : List (List ℕ))
      → Holds r b ms
      → ((ms ≡ []) × (pop r b ≡ ok none))
        ⊎ ((m : List ℕ) × (rest : List (List ℕ)) × (ms ≡ m ∷ rest) × IsPopped b m rest)
  pop_lem b [] h = inl (refl, pop-empty b h)
  pop_lem b (m ∷ ms) h = inr (m, ms, refl, pop-IsPopped b m ms h)

  pop_loop_lem :
      (fuel : ℕ) (b : Buffer) (ms : List (List ℕ))
      → Holds r b ms
      → length (stored b) < fuel
      → (b' : Buffer) × (pop_loop r fuel b ≡ ok (ms, b')) × Holds r b' []
  unfolding pop_loop
  pop_loop_lem zero b ms h lt = absurd (omega arith)
  pop_loop_lem (suc fuel) b [] h lt = (b, rw (pop-empty b h), h)
  pop_loop_lem (suc fuel) b (m ∷ ms) h lt =
      let p = pop-IsPopped b m ms h in
      let (b', e, h') = pop_loop_lem fuel p.after ms p.holds (omega (arith, p.shrunk)) in
      (b', rw (p.popped, e), h')

  -- `pop_all` on a queue of whole cache lines that holds some messages ends, with every message, oldest
  -- first, and an empty queue.
  pub pop_all_lem :
      (b : Buffer) (ms : List (List ℕ))
      → Holds r b ms
      → (b' : Buffer) × (pop_all r b ≡ ok (ms, b')) × Holds r b' []
  unfolding pop_all
  pop_all_lem b ms h = pop_loop_lem (r.slots b + 1) b ms h (omega (arith, laws.slots_lem b))
