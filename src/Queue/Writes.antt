-- ===== src/Queue/Writes.antt =====
-- What `fill` leaves in a chunk that can hold the message.
use rapidlog.Prelude.{
  ℕ, ◌+◌, ◌-◌, ◌≤◌, ◌<◌, ◌≡◌, refl, ap, ◌∙◌, sym, List, [], ◌++◌, Run, ok, write_at, slice, length,
  replicate, length-append, length-replicate, append_assoc, append-nil, le_bytes, length-le_bytes,
  write_at-append, slice-append, split, le→leb, lt→leb_false, eq-nil_of_length, arith, subst,
}
use native.Mathlib.Decide.{dec_lt}
use rapidlog.Queue.Defs.{header_size, fill_first, fill_both, fill}

-- A message of a chunk of `n` places: its length, four bytes that nobody writes, the message, and
-- zeros.
abbrev pub frame : List ℕ → List ℕ → ℕ → List ℕ
frame gap msg n =
    le_bytes 4 (length msg) ++ (gap ++ (msg ++ replicate (n - (header_size + length msg)) 0))

-- The slices after `fill` are together a frame.
pub record IsFilled (msg : List ℕ) (n : ℕ) (out : Run (List ℕ × List ℕ)) : Type 0 where
  pub first : List ℕ
  pub second : List ℕ
  pub gap : List ℕ
  pub filled : out ≡ ok (first, second)
  pub gap_length : length gap ≡ 4
  pub joined : first ++ second ≡ frame gap msg n

joined_nil : {xs : List ℕ} (a b : List ℕ) → xs ≡ a ++ b → xs ≡ a ++ (b ++ [])
joined_nil a b e = rw append-nil e

regroup_parts :
    (a b c p d z : List ℕ)
    → p ≡ []
    → (a ++ (b ++ (c ++ p))) ++ (d ++ z) ≡ a ++ (b ++ ((c ++ d) ++ z))
regroup_parts a b c p d z e = rw e (simp (append_assoc, append-nil))

-- The three writes of `fill_first`, one by one, on a slice that is cut where they go.
write_header :
    (h rest header : List ℕ)
    → length header ≡ length h
    → write_at (h ++ rest) 0 header ≡ ok (header ++ rest)
write_header h rest header e = write_at-append [] h rest header 0 refl e

write_body :
    (header g d p body : List ℕ)
    → length header ≡ 4
    → length g ≡ 4
    → length body ≡ length d
    → write_at (header ++ (g ++ (d ++ p))) 8 body ≡ ok (header ++ (g ++ (body ++ p)))
write_body header g d p body e₁ e₂ e =
    ap (λ b. write_at b 8 body) (sym (append_assoc header g (d ++ p)))
    ∙ write_at-append (header ++ g) d p body 8 (omega (arith, length-append header g)) e
    ∙ ap ok (append_assoc header g (body ++ p))

write_tail :
    (header g body p tail : List ℕ) (at : ℕ)
    → length header ≡ 4
    → length g ≡ 4
    → at ≡ 8 + length body
    → length tail ≡ length p
    → write_at (header ++ (g ++ (body ++ p))) at tail ≡ ok (header ++ (g ++ (body ++ tail)))
write_tail header g body p tail at e₁ e₂ ea e =
    ap (λ b. write_at b at tail) (regroup p)
    ∙ write_at-append (header ++ (g ++ body)) p [] tail at front e
    ∙ ap ok (sym (regroup tail))
  where
    front : at ≡ length (header ++ (g ++ body))
    front = omega (arith, length-append header (g ++ body), length-append g body)

    regroup : (q : List ℕ) → header ++ (g ++ (body ++ q)) ≡ (header ++ (g ++ body)) ++ (q ++ [])
    regroup q = simp (append_assoc, append-nil)

-- A slice cut at the header, the gap and the message's end.
record Cut (first : List ℕ) (n : ℕ) : Type 0 where
  h : List ℕ
  g : List ℕ
  d : List ℕ
  p : List ℕ
  whole : first ≡ h ++ (g ++ (d ++ p))
  h_length : length h ≡ 4
  g_length : length g ≡ 4
  d_length : length d ≡ n
  p_length : length p ≡ length first - (8 + n)

cut : (first : List ℕ) (n : ℕ) → 8 + n ≤ length first → Cut first n
cut first n le =
    let a = split first 4 (omega arith) in
    let b = split a.back 4 (omega (arith, a.back_length)) in
    let c = split b.back n (omega (arith, a.back_length, b.back_length)) in
    record {
      h = a.front;
      g = b.front;
      d = c.front;
      p = c.back;
      whole = rw (← c.joined, ← b.joined) a.joined;
      h_length = a.front_length;
      g_length = b.front_length;
      d_length = c.front_length;
      p_length = omega (arith, a.back_length, b.back_length, c.back_length);
    }

module _ (msg first second : List ℕ) where
  fill_first-IsFilled :
      8 + length msg ≤ length first
      → length second ≡ 0
      → IsFilled msg (length first) (fill_first msg first second)
  unfolding fill_first
  fill_first-IsFilled le none_left =
      let c = cut first (length msg) le in
      let header = le_bytes 4 (length msg) in
      let four : length header ≡ 4 = length-le_bytes 4 (length msg) in
      let zeros : List ℕ = replicate (length first - (8 + length msg)) 0 in
      let zeros_length = length-replicate {A = ℕ} (length first - (8 + length msg)) 0 in
      let e₁ : write_at first 0 header ≡ ok (header ++ (c.g ++ (c.d ++ c.p))) =
        ap (λ b. write_at b 0 header) c.whole
        ∙ write_header c.h (c.g ++ (c.d ++ c.p)) header (omega (arith, c.h_length)) in
      let e₂ = write_body header c.g c.d c.p msg four c.g_length (omega (arith, c.d_length)) in
      let e₃ =
        write_tail header c.g msg c.p zeros (8 + length msg) four c.g_length refl
          (omega (arith, zeros_length, c.p_length)) in
      record {
        first = header ++ (c.g ++ (msg ++ zeros));
        second = [];
        gap = c.g;
        filled = rw (e₁, e₂, e₃, none_left);
        gap_length = c.g_length;
        joined = append-nil (header ++ (c.g ++ (msg ++ zeros)));
      }

  fill_both-IsFilled :
      (n : ℕ)
      → 8 ≤ length first
      → length first < 8 + length msg
      → 8 + length msg ≤ n
      → length first + length second ≡ n
      → IsFilled msg n (fill_both msg first second)
  unfolding fill_both
  fill_both-IsFilled n lo hi le both =
      let header = le_bytes 4 (length msg) in
      let four : length header ≡ 4 = length-le_bytes 4 (length msg) in
      let m = split msg (length first - 8) (omega arith) in
      let c = cut first (length first - 8) (omega arith) in
      let t = split second (length msg - (length first - 8)) (omega arith) in
      let tail : c.p ≡ [] = eq-nil_of_length c.p (omega (arith, c.p_length)) in
      let rest = length msg - (length first - 8) in
      let zeros : List ℕ = replicate (length second - rest) 0 in
      let zeros_length = length-replicate {A = ℕ} (length second - rest) 0 in
      let count : length second - rest ≡ n - (8 + length msg) = omega arith in
      let e₁ : write_at first 0 header ≡ ok (header ++ (c.g ++ (c.d ++ c.p))) =
        ap (λ b. write_at b 0 header) c.whole
        ∙ write_header c.h (c.g ++ (c.d ++ c.p)) header (omega (arith, c.h_length)) in
      let e₂ : slice msg 0 (length first - 8) ≡ ok m.front =
        ap (λ x. slice x 0 (length first - 8)) m.joined
        ∙ slice-append [] m.front m.back 0 (length first - 8) refl
            (omega (arith, m.front_length)) in
      let e₃ =
        write_body header c.g c.d c.p m.front four c.g_length
          (omega (arith, c.d_length, m.front_length)) in
      let e₄ : slice msg (length first - 8) (length first - 8 + rest) ≡ ok m.back =
        ap (λ x. slice x (length first - 8) (length first - 8 + rest))
          (joined_nil m.front m.back m.joined)
        ∙ slice-append m.front m.back [] (length first - 8) (length first - 8 + rest)
            (omega (arith, m.front_length)) (omega (arith, m.front_length, m.back_length)) in
      let e₅ : write_at second 0 m.back ≡ ok (m.back ++ t.back) =
        ap (λ b. write_at b 0 m.back) t.joined
        ∙ write_header t.front t.back m.back (omega (arith, m.back_length, t.front_length)) in
      let e₆ : write_at (m.back ++ t.back) rest zeros ≡ ok (m.back ++ zeros) =
        ap (λ q. write_at (m.back ++ q) rest zeros) (sym (append-nil t.back))
        ∙ write_at-append m.back t.back [] zeros rest (omega (arith, m.back_length))
            (omega (arith, zeros_length, t.back_length))
        ∙ ap (λ q. ok (m.back ++ q)) (append-nil zeros) in
      record {
        first = header ++ (c.g ++ (m.front ++ c.p));
        second = m.back ++ zeros;
        gap = c.g;
        filled = rw (e₁, e₂, e₃, e₄, e₅, e₆);
        gap_length = c.g_length;
        joined =
            regroup_parts header c.g m.front c.p m.back zeros tail
            ∙ ap (λ q. header ++ (c.g ++ (q ++ zeros))) (sym m.joined)
            ∙ ap (λ k. header ++ (c.g ++ (msg ++ replicate k 0))) count;
      }

  -- A chunk of `n` places holds the frame, if its first slice holds the header at least, and the
  -- whole of the chunk wherever it holds the whole message.
  pub fill-IsFilled :
      (n : ℕ)
      → 8 ≤ length first
      → 8 + length msg ≤ n
      → length first + length second ≡ n
      → (8 + length msg ≤ length first → length second ≡ 0)
      → IsFilled msg n (fill msg first second)
  unfolding fill
  fill-IsFilled n lo le both whole = elim (dec_lt (length first) (8 + length msg)) [
    | yes h ↦
        rw (lt→leb_false (8 + length msg) (length first) h) (fill_both-IsFilled n lo h le both)
    | no h ↦
        let fits : 8 + length msg ≤ length first = omega arith in
        let none_left = whole fits in
        let all : length first ≡ n = omega arith in
        rw (le→leb (8 + length msg) (length first) fits) (
          subst (λ k. IsFilled msg k (fill_first msg first second)) all
            (fill_first-IsFilled fits none_left))
  ]
