-- ===== src/Queue/Encoded.antt =====
-- `push_encoded`: the message is what the closure leaves in its slice.
use rapidlog.Prelude.{
  ℕ, ◌+◌, ◌-◌, ◌≤◌, ◌<◌, ◌≡◌, ◌^◌, subst, sym, List, none, some, Run, ok, length, slice_lem, le→leb,
  lt→leb_false, length-take, length-drop, length-replicate, arith, take, drop, replicate,
}
use rapidlog.Queue.Ring.{RingBuffer, IsRingBuffer, IsChunk, free}
use rapidlog.Queue.Defs.{padded_size, encode_buffer, push_encoded}
use rapidlog.Queue.Frames.{Holds}
use rapidlog.Queue.Push.{IsPushed, chunk-IsFilled, commit-IsPushed}
use native.Mathlib.Decide.{dec_lt}

-- A closure that keeps its slice's length, on a slice of `n` places: its value and the message, for
-- whatever the slice holds at first.
pub record Encodes {R : Type 0} (n : ℕ) (encode : List ℕ → Run (R × List ℕ)) : Type 0 where
  pub value : List ℕ → R
  pub message : List ℕ → List ℕ
  pub runs : (buf : List ℕ) → length buf ≡ n → encode buf ≡ ok (value buf, message buf)
  pub keeps : (buf : List ℕ) → length buf ≡ n → length (message buf) ≡ n

-- The slice has the asked length, in both of its forms.
encode_buffer_lem :
    (n : ℕ) (first : List ℕ) → (buf : List ℕ) × (encode_buffer n first ≡ ok buf) × (length buf ≡ n)
unfolding encode_buffer
encode_buffer_lem n first = elim (dec_lt (length first) (8 + n)) [
  | yes h ↦ (replicate n 0, rw (lt→leb_false (8 + n) (length first) h), length-replicate n 0)
  | no h ↦ (
    take (8 + n - 8) (drop 8 first),
    rw (
      le→leb (8 + n) (length first) (omega arith),
      slice_lem first 8 (8 + n) (omega arith) (omega arith),
    ),
    omega (arith, length-take (8 + n - 8) (drop 8 first), length-drop 8 first),
  )
]

module _ (r : RingBuffer) (laws : IsRingBuffer r) where
  open r use {Buffer, write_slices, commit_write}

  -- What `push_encoded` comes to on a queue with room.
  pub record IsPushedSlice {R : Type 0} (b : Buffer) (ms : List (List ℕ)) (n : ℕ)
      (encode : List ℕ → Run (R × List ℕ)) (e : Encodes n encode) : Type 0 where
    pub buf : List ℕ
    pub after : Buffer
    pub buf_length : length buf ≡ n
    pub pushed : push_encoded r b n encode ≡ ok (some (e.value buf, after))
    pub queue : IsPushed r laws b ms (e.message buf) after

  -- On a queue of whole cache lines with room for a frame of `n` bytes, for `n` below 2^32, and for a
  -- closure that always succeeds and keeps its slice's length: the closure gets a slice of `n` places, and what it leaves there is
  -- pushed as one message, whether or not the chunk wraps around.
  pub push_encoded-IsPushedSlice :
      {R : Type 0} (b : Buffer) (ms : List (List ℕ)) (n : ℕ) (encode : List ℕ → Run (R × List ℕ))
      (e : Encodes n encode)
      → Holds r b ms
      → n < 256 ^ 4
      → padded_size n ≤ free r b
      → IsPushedSlice b ms n encode e
  unfolding push_encoded
  push_encoded-IsPushedSlice b ms n encode e h small room =
      let (first, second, c) = laws.write_slices-room b (padded_size n) room in
      let (buf, got, size) = encode_buffer_lem n first in
      let msg = e.message buf in
      let kept : length msg ≡ n = e.keeps buf size in
      let c' : IsChunk r b (padded_size (length msg)) first second =
        subst (λ k. IsChunk r b (padded_size k) first second) (sym kept) c in
      let f = chunk-IsFilled r laws b ms msg first second h c' in
      record {
        buf = buf;
        after = commit_write b f.first f.second;
        buf_length = size;
        pushed = rw (c.granted, push_encoded, got, e.runs buf size, f.filled);
        queue =
            commit-IsPushed r laws b ms msg f.first f.second f.gap h (omega arith) (omega arith)
              f.gap_length f.joined;
      }

  -- Without room the closure is not called.
  pub push_encoded-full :
      {R : Type 0} (b : Buffer) (n : ℕ) (encode : List ℕ → Run (R × List ℕ))
      → free r b < padded_size n
      → push_encoded r b n encode ≡ ok none
  unfolding push_encoded
  push_encoded-full b n encode h = rw (laws.write_slices-full b (padded_size n) h, push_encoded)
