-- ===== src/Arg/Delimited.antt =====
-- Schemas that tell their own length: `measure_schema` on a schema with anything behind it.
use rapidlog.Prelude.{
  ℕ, zero, suc, ◌+◌, ◌≤◌, ◌<◌, ◌≡◌, refl, ap, ◌∙◌, List, [], ◌∷◌, ◌++◌, append_assoc, Run, ok,
  ◌>>=◌, slice_from_at, length, length-append, All, arith, bit_and,
}
use rapidlog.Arg.Opcode.{Category, seq, tuple, struct, enum, category, size_mask}
use rapidlog.Arg.Heads.{IsHead}
use rapidlog.Arg.Measure.{measure_each, part_count, measure_arm, measure_with, measure_schema}

-- With anything behind it, the schema is measured as it is alone.
pub record IsDelimited (s : List ℕ) : Type 0 where
  pub some_byte : 1 ≤ length s
  pub measured :
      (fuel : ℕ) (more : List ℕ) → length s < fuel → measure_with fuel (s ++ more) ≡ ok (length s)

pub measure_schema_lem :
    (s more : List ℕ) → IsDelimited s → measure_schema (s ++ more) ≡ ok (length s)
unfolding measure_schema
measure_schema_lem s more d =
    d.measured (length (s ++ more) + 1) more (omega (arith, length-append s more))

-- The parts of a compound: some bytes in front of each, and its schema.
abbrev pub layout : List (List ℕ × List ℕ) → List ℕ
layout [] = []
layout ((h, s) ∷ ps) = h ++ (s ++ layout ps)

-- Each part has `skip` bytes in front, and its schema is shorter than `bound`.
abbrev pub AreParts : ℕ → ℕ → List (List ℕ × List ℕ) → Type 0
AreParts skip bound =
    All (λ (p : List ℕ × List ℕ). (length p.0 ≡ skip) × IsDelimited p.1 × (length p.1 < bound))

pub measure_each_lem :
    (fuel skip pos : ℕ) (buf pre more : List ℕ) (ps : List (List ℕ × List ℕ))
    → buf ≡ pre ++ (layout ps ++ more)
    → pos ≡ length pre
    → AreParts skip fuel ps
    → measure_each (measure_with fuel) skip (length ps) buf pos ≡ ok (pos + length (layout ps))
unfolding measure_each
measure_each_lem fuel skip pos buf pre more [] eb e h = ap ok (omega arith)
measure_each_lem fuel skip pos buf pre more ((h, s) ∷ ps) eb e ((eh, d, lt), hs) =
    let after = pre ++ (h ++ s) in
    let inside =
      measure_each_lem fuel skip (pos + skip + length s) buf after more ps (eb ∙ simp append_assoc)
        (omega (arith, length-append pre (h ++ s), length-append h s)) hs in
    rw
      (
        slice_from_at buf (pre ++ h) (s ++ (layout ps ++ more)) (pos + skip)
            (eb ∙ simp append_assoc) (omega (arith, length-append pre h)),
        d.measured fuel (layout ps ++ more) lt,
        inside,
      )
      (ap ok (omega (arith, length-append h (s ++ layout ps), length-append s (layout ps))))

-- Each part has `skip` bytes in front, and its schema is delimited.
abbrev pub AreDelimited : ℕ → List (List ℕ × List ℕ) → Type 0
AreDelimited skip = All (λ (p : List ℕ × List ℕ). (length p.0 ≡ skip) × IsDelimited p.1)

pub AreDelimited-AreParts :
    (skip bound : ℕ) (ps : List (List ℕ × List ℕ))
    → length (layout ps) < bound
    → AreDelimited skip ps
    → AreParts skip bound ps
AreDelimited-AreParts skip bound [] lt h = tt
AreDelimited-AreParts skip bound ((h, s) ∷ ps) lt ((eh, d), hs) =
    let size = length-append h (s ++ layout ps) in
    let size' = length-append s (layout ps) in
    ((eh, d, omega arith), AreDelimited-AreParts skip bound ps (omega arith) hs)

-- The loop over the parts of a compound, behind its head and `extra` bytes.
each_lem :
    (fuel skip op start : ℕ) (tail extra more : List ℕ) (ps : List (List ℕ × List ℕ))
    → start ≡ 1 + length tail + length extra
    → length (layout ps) < fuel
    → AreDelimited skip ps
    → measure_each
        (measure_with fuel)
        skip
        (length ps)
        (op ∷ ((tail ++ (extra ++ layout ps)) ++ more))
        start
      ≡ ok (start + length (layout ps))
each_lem fuel skip op start tail extra more ps e lt h =
    measure_each_lem fuel skip start (op ∷ ((tail ++ (extra ++ layout ps)) ++ more))
      (op ∷ (tail ++ extra)) more ps (simp append_assoc) (omega (arith, length-append tail extra))
      (AreDelimited-AreParts skip fuel ps lt h)

compound_size :
    (tail extra rest : List ℕ)
    → length (tail ++ (extra ++ rest)) ≡ length tail + length extra + length rest
compound_size tail extra rest =
    omega (arith, length-append tail (extra ++ rest), length-append extra rest)

pub tuple-IsDelimited :
    (op : ℕ) (tail : List ℕ) (ps : List (List ℕ × List ℕ))
    → IsHead tuple (length ps) op tail
    → AreDelimited 0 ps
    → IsDelimited (op ∷ (tail ++ layout ps))
unfolding measure_with measure_arm
tuple-IsDelimited op tail ps head h = record { some_byte = omega arith; measured = go }
  where
    go :
        (fuel : ℕ) (more : List ℕ)
        → suc (length (tail ++ layout ps)) < fuel
        → measure_with fuel ((op ∷ (tail ++ layout ps)) ++ more)
          ≡ ok (suc (length (tail ++ layout ps)))
    go zero more lt = absurd (omega arith)
    go (suc fuel) more lt =
        let size = length-append tail (layout ps) in
        rw
          (
            head.is_cat,
            head.counts (op ∷ ((tail ++ layout ps) ++ more)) (layout ps ++ more)
                (simp append_assoc),
            each_lem fuel 0 op (1 + length tail) tail [] more ps (omega arith) (omega arith) h,
          )
          (ap ok (omega arith))

-- Structs and enums have two bytes of a name's offset in front of each part.
named_IsDelimited :
    (cat : Category) (op : ℕ) (tail extra : List ℕ) (ps : List (List ℕ × List ℕ))
    → IsHead cat (length ps) op tail
    → ((measure : List ℕ → Run ℕ) (k : ℕ) (s : List ℕ)
        → measure_arm measure cat k s
          ≡ (part_count k s >>= (λ c. measure_each measure 2 c.0 s (c.1 + length extra))))
    → AreDelimited 2 ps
    → IsDelimited (op ∷ (tail ++ (extra ++ layout ps)))
unfolding measure_with
named_IsDelimited cat op tail extra ps head arm h = record {
  some_byte = omega arith;
  measured = go;
}
  where
    go :
        (fuel : ℕ) (more : List ℕ)
        → suc (length (tail ++ (extra ++ layout ps))) < fuel
        → measure_with fuel ((op ∷ (tail ++ (extra ++ layout ps))) ++ more)
          ≡ ok (suc (length (tail ++ (extra ++ layout ps))))
    go zero more lt = absurd (omega arith)
    go (suc fuel) more lt =
        let buf = op ∷ ((tail ++ (extra ++ layout ps)) ++ more) in
        let size = compound_size tail extra (layout ps) in
        rw (head.is_cat, arm (measure_with fuel) (bit_and op size_mask) buf)
          (rw
            (
              head.counts buf (extra ++ (layout ps ++ more)) (simp append_assoc),
              each_lem fuel 2 op (1 + length tail + length extra) tail extra more ps refl
                  (omega arith) h,
            )
            (ap ok (omega arith)))

pub struct-IsDelimited :
    (op : ℕ) (tail : List ℕ) (st_idx : ℕ) (ps : List (List ℕ × List ℕ))
    → IsHead struct (length ps) op tail
    → AreDelimited 2 ps
    → IsDelimited (op ∷ (tail ++ (st_idx ∷ layout ps)))
unfolding measure_arm
struct-IsDelimited op tail st_idx ps head h =
    named_IsDelimited struct op tail (st_idx ∷ []) ps head (λ measure k s. refl) h

pub enum-IsDelimited :
    (op : ℕ) (tail : List ℕ) (vdx_k st_idx : ℕ) (ps : List (List ℕ × List ℕ))
    → IsHead enum (length ps) op tail
    → AreDelimited 2 ps
    → IsDelimited (op ∷ (tail ++ (vdx_k ∷ st_idx ∷ layout ps)))
unfolding measure_arm
enum-IsDelimited op tail vdx_k st_idx ps head h =
    named_IsDelimited enum op tail (vdx_k ∷ st_idx ∷ []) ps head (λ measure k s. refl) h

pub seq-IsDelimited :
    (op : ℕ) (s : List ℕ) → category op ≡ seq → IsDelimited s → IsDelimited (op ∷ s)
unfolding measure_with measure_arm
seq-IsDelimited op s e d = record { some_byte = omega arith; measured = go }
  where
    go :
        (fuel : ℕ) (more : List ℕ)
        → suc (length s) < fuel
        → measure_with fuel ((op ∷ s) ++ more) ≡ ok (suc (length s))
    go zero more lt = absurd (omega arith)
    go (suc fuel) more lt =
        rw
          (
            e,
            slice_from_at (op ∷ (s ++ more)) (op ∷ []) (s ++ more) 1 refl refl,
            d.measured fuel more (omega arith),
          )
          (ap ok (omega arith))

-- A schema of one byte.
pub leaf-IsDelimited :
    (op : ℕ)
    → ((measure : List ℕ → Run ℕ) (k : ℕ) (s : List ℕ)
        → measure_arm measure (category op) k s ≡ ok 1)
    → IsDelimited (op ∷ [])
unfolding measure_with
leaf-IsDelimited op arm = record { some_byte = omega arith; measured = go }
  where
    go : (fuel : ℕ) (more : List ℕ) → 1 < fuel → measure_with fuel ((op ∷ []) ++ more) ≡ ok 1
    go zero more lt = absurd (omega arith)
    go (suc fuel) more lt = arm (measure_with fuel) (bit_and op size_mask) (op ∷ more)
